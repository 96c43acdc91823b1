-- ===== src/Linux/Channels.antt =====
-- The life of a channel of a Linux node, but for its way into the list.
use respir_mesh.Linux.Wired.{IsSteady, IsSteady->>=, Steady, Steady-trans}
use respir_mesh.Linux.Steady.{set_object-Steady}
use respir_mesh.Linux.Logging.{info-Steady}
use respir_mesh.Logger
use respir_mesh.Node.Env.{Arg, Env}
use respir_mesh.Node.Fault.{gets, M, ◌>>=◌, ◌>>◌, fault, modify, pure}
use respir_mesh.Node.State.{Channel, ChannelKind, Node}
use respir_mesh.Orchestrator.{set_object, shut_socket, stop_as, stop_channel}
use respir_mesh.X86.Client.{connected, init_accepted, init_host, set_managed, accepted}
use respir_mesh.X86.Listener.{flag, log_flags, on_conn_lost, on_conn_start, through_listener}
use respir_mesh.X86.Server.{init_server}
use respir_mesh.Base.{
  u16, ℕ, ◌+◌, ◌≤◌, List, [], ◌∷◌, Bool, true, false, some, if◌then◌else◌, ◌≡◌, refl, ◌∙◌, ap,
  arith, length, inl, inr, Bool-cases,
}

-- A change that is steady in each state.
pub modify-Steady : (f : Node → Node) → ((w : Node) → Steady w (f w)) → IsSteady (modify f)
modify-Steady f step u w s = Steady-trans s (step w)

pub through_listener-Steady :
    (p : ℕ) (call : M (Unit {0})) → IsSteady call → IsSteady (through_listener p call)
through_listener-Steady p call steady u w s = elim (Bool-cases (w.objects p).has_listener) [
  | inl heard ↦ rw heard (steady u w s)
  | inr unset ↦ rw unset tt
]

pub aside :
    (w v : Node)
    → w.fresh ≤ v.fresh
    → v.channels ≡ w.channels
    → v.objects ≡ w.objects
    → v.router_buffer ≡ w.router_buffer
    → v.log_packet ≡ w.log_packet
    → Steady w v
aside w v fresh channels objects router logs = record {
  fresh = fresh;
  channels = channels;
  receivers = λ p old h. ap (λ (o : ℕ → Channel). (o p).has_receiver) objects ∙ h;
  router = ap length router;
  logs = ap length logs;
}

-- One steady part after another.
pub IsSteady->> : {A B : Type 0} (m : M A) (k : M B) → IsSteady m → IsSteady k → IsSteady (m >> k)
IsSteady->> m k first next = IsSteady->>= m (λ a. k) first (λ a. next)

pub set_managed-Steady : (p : ℕ) (b : Bool) → IsSteady (modify (set_managed p b))
set_managed-Steady p b =
    modify-Steady (set_managed p b)
      (λ w. aside w (set_managed p b w) (omega arith) refl refl refl refl)

-- A change of members of the object at a pointer that leaves its receiver.
pub member-Steady :
    (p : ℕ) (f : Channel → Channel)
    → ((c : Channel) → (f c).has_receiver ≡ c.has_receiver)
    → IsSteady (modify (λ w. set_object p (f (w.objects p)) w))
member-Steady p f keeps =
    modify-Steady (λ w. set_object p (f (w.objects p)) w)
      (λ w. set_object-Steady p (f (w.objects p)) w (keeps (w.objects p)))

module _ (env : Env) where
  log_flags-Steady : (p : ℕ) → IsSteady (log_flags env p)
  log_flags-Steady p u w s =
      let c = w.objects p in
      let root = Logger.info env "  %d : connected_to_root " (flag c.connected_to_root) in
      let client = Logger.info env "  %d : is_client " (flag c.is_client) in
      let server = Logger.info env "  %d : is_server " (flag c.is_server) in
      IsSteady->> (root >> client >> server) (pure tt)
        (IsSteady->> (root >> client) server
          (IsSteady->> root client (info-Steady env _ _) (info-Steady env _ _))
          (info-Steady env _ _))
        (λ u w s. s) u w s

  on_conn_start-Steady : (p : ℕ) → IsSteady (on_conn_start env p)
  unfolding on_conn_start
  on_conn_start-Steady p =
      IsSteady->> (Logger.info env "  SimpleListChnCtrl::on_conn_start() " []) (log_flags env p)
        (info-Steady env _ []) (log_flags-Steady p)

  pub on_conn_lost-Steady : (p : ℕ) → IsSteady (on_conn_lost env p)
  unfolding on_conn_lost
  on_conn_lost-Steady p =
      IsSteady->> (Logger.info env "  SimpleListChnCtrl::on_conn_lost() " []) (log_flags env p)
        (info-Steady env _ []) (log_flags-Steady p)

  shut_socket-Steady : (p : ℕ) → IsSteady (shut_socket env p)
  shut_socket-Steady p u w s =
      let called = record w { calls = w.calls + 1 } in
      let asked = aside w called (omega arith) refl refl refl refl in
      elim (Bool-cases (env.shuts_down w.calls)) [
        | inl fine ↦ rw fine (
            Steady-trans s (
              Steady-trans asked
                (set_object-Steady p (record (w.objects p) { shut = true }) called refl)))
        | inr threw ↦ rw threw (Steady-trans s asked)
      ]

  stop_as-Steady : (kind : ChannelKind) (p : ℕ) → IsSteady (stop_as env kind p)
  stop_as-Steady ChannelKind.x86_client p =
      IsSteady->> _
        (gets (λ w. (w.objects p).is_connected) >>= λ connected.
          if connected then shut_socket env p else pure true)
        (info-Steady env _ [])
        (λ u w s. elim (Bool-cases (w.objects p).is_connected) [
          | inl connected ↦ rw connected (shut_socket-Steady p u w s)
          | inr unconnected ↦ rw unconnected s
        ])
  stop_as-Steady ChannelKind.x86_server p =
      IsSteady->> _ (shut_socket env p) (info-Steady env _ []) (shut_socket-Steady p)
  stop_as-Steady ChannelKind.esp_client p =
      IsSteady->> _ (pure true) (info-Steady env _ []) (λ u w s. s)
  stop_as-Steady ChannelKind.esp_server p =
      IsSteady->> _ (pure true) (info-Steady env _ []) (λ u w s. s)

  pub stop_channel-Steady : (p : ℕ) → IsSteady (stop_channel env p)
  unfolding stop_channel
  stop_channel-Steady p u w s = stop_as-Steady (w.objects p).kind p u w s

  connected-Steady : (p : ℕ) (w : Node) → Steady w (connected env p w)
  connected-Steady p w =
      Steady-trans
        (aside w (record w { client_ids = u16 (w.client_ids + 1) }) (omega arith) refl refl refl
          refl)
        (set_object-Steady p _ (record w { client_ids = u16 (w.client_ids + 1) }) refl)

  accepted-Steady : (p : ℕ) (w : Node) → Steady w (accepted env p w)
  accepted-Steady p w =
      Steady-trans
        (aside w (record w { client_ids = u16 (w.client_ids + 1) }) (omega arith) refl refl refl
          refl)
        (set_object-Steady p _ (record w { client_ids = u16 (w.client_ids + 1) }) refl)

  called-Steady :
      {A : Type 0} (answer : ℕ → A)
      → IsSteady (λ w. some (answer w.calls, record w { calls = w.calls + 1 }))
  called-Steady answer u w s =
      Steady-trans s (aside w (record w { calls = w.calls + 1 }) (omega arith) refl refl refl refl)

  -- What follows `connect`, and the opening of a listening socket, as they have answered.
  abbrev client_answered : ℕ → Bool → M (Unit {0})
  client_answered p opened =
      if opened
      then modify (connected env p) >> through_listener p (on_conn_start env p)
      else modify (set_managed p false)

  client_answered-Steady : (p : ℕ) (opened : Bool) → IsSteady (client_answered p opened)
  client_answered-Steady p true =
      IsSteady->> (modify (connected env p)) (through_listener p (on_conn_start env p))
        (modify-Steady (connected env p) (connected-Steady p))
        (through_listener-Steady p (on_conn_start env p) (on_conn_start-Steady p))
  client_answered-Steady p false = set_managed-Steady p false

  abbrev set_open : ℕ → M (Unit {0})
  set_open p = modify (λ w. set_object p (record (w.objects p) { is_connected = true }) w)

  abbrev server_answered : ℕ → Bool → M (Unit {0})
  server_answered p opened =
      if opened then set_open p >> through_listener p (on_conn_start env p) else fault

  server_answered-Steady : (p : ℕ) (opened : Bool) → IsSteady (server_answered p opened)
  server_answered-Steady p true =
      IsSteady->> (set_open p) (through_listener p (on_conn_start env p))
        (member-Steady p (λ c. record c { is_connected = true }) (λ c. refl))
        (through_listener-Steady p (on_conn_start env p) (on_conn_start-Steady p))
  server_answered-Steady p false = λ u w s. tt

  abbrev set_root : ℕ → Bool → M (Unit {0})
  set_root p root = modify (λ w. set_object p (record (w.objects p) { connected_to_root = root }) w)

  set_root-Steady : (p : ℕ) (root : Bool) → IsSteady (set_root p root)
  set_root-Steady p root = member-Steady p (λ c. record c { connected_to_root = root }) (λ c. refl)

  pub init_host-Steady : (p : ℕ) (host port : List ℕ) → IsSteady (init_host env p host port)
  unfolding init_host
  init_host-Steady p host port =
      let args = Arg.text host ∷ Arg.text port ∷ [] in
      let ask : M Bool = λ w. some (env.connects w.calls, record w { calls = w.calls + 1 }) in
      let started = Logger.info env "Local TCP started %s:%s \n" args in
      IsSteady->> (modify (set_managed p true))
        (set_root p true >> (started >> (ask >>= client_answered p))) (set_managed-Steady p true)
        (IsSteady->> (set_root p true) (started >> (ask >>= client_answered p))
          (set_root-Steady p true)
          (IsSteady->> started (ask >>= client_answered p) (info-Steady env _ args) (
            IsSteady->>= ask (client_answered p) (called-Steady env.connects)
              (client_answered-Steady p))))

  pub init_server-Steady : (p : ℕ) (host port : List ℕ) → IsSteady (init_server env p host port)
  unfolding init_server
  init_server-Steady p host port =
      let args = Arg.text host ∷ Arg.text port ∷ [] in
      let ask : M Bool = λ w. some (env.sets_up w.calls, record w { calls = w.calls + 1 }) in
      let started = Logger.info env "Server TCP setup %s:%s \n" args in
      IsSteady->> (set_root p false) (started >> (ask >>= server_answered p))
        (set_root-Steady p false)
        (IsSteady->> started (ask >>= server_answered p) (info-Steady env _ args) (
          IsSteady->>= ask (server_answered p) (called-Steady env.sets_up)
            (server_answered-Steady p)))

  pub init_accepted-Steady : (p : ℕ) → IsSteady (init_accepted env p)
  unfolding init_accepted
  init_accepted-Steady p =
      IsSteady->> (modify (set_managed p true))
        (modify (accepted env p) >> through_listener p (on_conn_start env p))
        (set_managed-Steady p true)
        (IsSteady->> (modify (accepted env p)) (through_listener p (on_conn_start env p))
          (modify-Steady (accepted env p) (accepted-Steady p))
          (through_listener-Steady p (on_conn_start env p) (on_conn_start-Steady p)))
