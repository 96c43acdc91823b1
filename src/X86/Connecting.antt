-- ===== src/X86/Connecting.antt =====
-- A connection of an X86_64 client, from `init` to its place in the channel list, with the log lines
-- on the way.
use respir_mesh.Channel.{ch_id}
use respir_mesh.Orchestrator.{add_channel, set_object}
use respir_mesh.X86.Client.{set_managed, connected, init_host}
use respir_mesh.Wire.Messages.{Severity}
use respir_mesh.Node.Fault.{modify, pure, >>-runs, ◌>>◌, M}
use respir_mesh.X86.Listener.{through_listener, flag, log_flags, on_conn_start}
use respir_mesh.Logger.Lines.{line, Fits}
use Prim.Native.String.{String}
use respir_mesh.Logger.Delivery.{Logged-refl, Logged-trans, Logged}
use respir_mesh.Node.State.{Channel, Node}
use respir_mesh.Node.Env.{Arg, Encodes, Env}
use respir_mesh.Base.{
  inr, arith, inl, ◌==◌, Bool-cases, u16, u32, ap, ◌++◌, ◌+◌, ==_refl, if◌then◌else◌, false, true,
  Bool, some, List, length, ◌≡◌, ℕ, refl, [], ◌∷◌, ◌∙◌,
}
use respir_mesh.Logger
use respir_mesh.Logger.{logger, log_packet_size}

-- Every object is of the class that it was of.
abbrev pub SameKinds : Node → Node → Type 0
SameKinds w v = (q : ℕ) → (v.objects q).kind ≡ (w.objects q).kind

pub set_object-SameKinds :
    (p : ℕ) (c : Channel) (w : Node) → c.kind ≡ (w.objects p).kind → SameKinds w (set_object p c w)
set_object-SameKinds p c w same q = elim (Bool-cases (p == q)) [
  | inl here ↦
      let at_q : p ≡ q = grind (arith, here) in rw here (same ∙ ap (λ r. (w.objects r).kind) at_q)
  | inr other ↦ rw other refl
]

SameKinds-of_objects : (w v : Node) → v.objects ≡ w.objects → SameKinds w v
SameKinds-of_objects w v same q = ap (λ (o : ℕ → Channel). (o q).kind) same

-- What logging and opening channels leaves of the list and of the objects.
pub record Kept (w v : Node) : Type 0 where
  pub channels : v.channels ≡ w.channels
  pub fresh : v.fresh ≡ w.fresh
  pub log_size : length v.log_packet ≡ length w.log_packet
  pub kinds : SameKinds w v

module _ (env : Env) (enc : Encodes env)
    (short : (format : String) (args : List Arg) → Fits env format args) where
  -- Code that logs and returns.
  abbrev pub Quiet : {A : Type 0} → M A → Node → Type 0
  Quiet {A} m w = (a : A) × (v : Node) × (m w ≡ some (a, v)) × Logged w v

  pub Quiet-info :
      (format : String) (args : List Arg) (w : Node)
      → length w.log_packet ≡ log_packet_size
      → Quiet (Logger.info env format args) w
  unfolding Logger.info
  Quiet-info format args w sized =
      let l = line env enc Severity.info "[INFO]" format args w sized (short format args) in
      (l.result, l.after, l.runs, l.kept)

  Quiet->> :
      {A B : Type 0} (m : M A) (k : M B) (w : Node)
      → length w.log_packet ≡ log_packet_size
      → Quiet m w
      → ((v : Node) → length v.log_packet ≡ log_packet_size → Quiet k v)
      → Quiet (m >> k) w
  Quiet->> m k w sized first next =
      let (a, u, ran, kept) = first in
      let (b, v, ran_on, kept_on) = next u (kept.log_size ∙ sized) in
      (b, v, >>-runs m k w ran ∙ ran_on, Logged-trans kept kept_on)

  pub on_conn_start-Quiet :
      (p : ℕ) (w : Node) → length w.log_packet ≡ log_packet_size → Quiet (on_conn_start env p) w
  unfolding on_conn_start
  on_conn_start-Quiet p w sized =
      let start = Logger.info env "  SimpleListChnCtrl::on_conn_start() " [] in
      Quiet->> start (log_flags env p) w sized (Quiet-info _ _ w sized) (λ u sized_u.
        let c = u.objects p in
        let root = Logger.info env "  %d : connected_to_root " (flag c.connected_to_root) in
        let client = Logger.info env "  %d : is_client " (flag c.is_client) in
        let server = Logger.info env "  %d : is_server " (flag c.is_server) in
        Quiet->> (root >> client >> server) (pure tt) u sized_u
          (Quiet->> (root >> client) server u sized_u
            (Quiet->> root client u sized_u (Quiet-info _ _ u sized_u)
              (λ v sized_v. Quiet-info _ _ v sized_v))
            (λ v sized_v. Quiet-info _ _ v sized_v))
          (λ v sized_v. (tt, v, refl, Logged-refl v)))

  -- What follows `connect`, as it has answered.
  abbrev answered : ℕ → Bool → M (Unit {0})
  answered p opened =
      if opened
      then (do modify (connected env p); through_listener p (on_conn_start env p))
      else modify (set_managed p false)

  answered_lem :
      (p : ℕ) (opened : Bool) (w : Node)
      → length w.log_packet ≡ log_packet_size
      → (w.objects p).has_listener ≡ true
      → (w.objects p).is_connected ≡ false
      → (v : Node) × (answered p opened w ≡ some (tt, v))
        × Kept w v
        × ((v.objects p).is_connected ≡ opened)
  answered_lem p true w sized heard closed =
      let u = connected env p w in
      let heard_u : (u.objects p).has_listener ≡ true = rw (==_refl p, heard) refl in
      let open_u : (u.objects p).is_connected ≡ true = rw (==_refl p) refl in
      let (a, v, ran, kept) = on_conn_start-Quiet p u sized in
      (
        v,
        rw heard_u ran,
        record {
          channels = kept.channels;
          fresh = kept.fresh;
          log_size = kept.log_size;
          kinds = λ q.
              SameKinds-of_objects u v kept.objects q
              ∙ set_object-SameKinds p
                  (record (w.objects p) {
                    id = u32 (u16 (w.client_ids + 1) + env.device_id);
                    is_connected = true;
                  })
                  (record w { client_ids = u16 (w.client_ids + 1) }) refl q;
        },
        rw kept.objects open_u,
      )
  answered_lem p false w sized heard closed = (
    set_managed p false w,
    refl,
    record { channels = refl; fresh = refl; log_size = refl; kinds = λ q. refl },
    closed,
  )

  pub add_channel_lem :
      (p : ℕ) (w : Node)
      → length w.log_packet ≡ log_packet_size
      → (v : Node) × (add_channel env p w ≡ some (tt, v))
        × (v.channels ≡ w.channels ++ p ∷ [])
        × (v.fresh ≡ w.fresh)
        × (length v.log_packet ≡ log_packet_size)
        × SameKinds w v
  unfolding add_channel
  add_channel_lem p w sized =
      let u = set_object p (record (w.objects p) { has_receiver = true }) w in
      let args = Arg.num (ch_id p u) ∷ [] in
      let (a, l, ran, kept) = Quiet-info "ADDED ch %d  \n" args u sized in
      (
        record l { channels = l.channels ++ p ∷ [] },
        >>-runs (Logger.info env "ADDED ch %d  \n" args) _ u ran,
        ap (λ cs. cs ++ p ∷ []) kept.channels,
        kept.fresh,
        kept.log_size ∙ sized,
        λ q.
            SameKinds-of_objects u l kept.objects q
            ∙ set_object-SameKinds p (record (w.objects p) { has_receiver = true }) w refl q,
      )

  -- `connect` always answers in this way.
  module _ (up : Bool) (network : (n : ℕ) → env.connects n ≡ up) where
    pub init_host_lem :
        (p : ℕ) (host port : List ℕ) (w : Node)
        → length w.log_packet ≡ log_packet_size
        → (w.objects p).has_listener ≡ true
        → (w.objects p).is_connected ≡ false
        → (v : Node) × (init_host env p host port w ≡ some (tt, v))
          × Kept w v
          × ((v.objects p).is_connected ≡ up)
    unfolding init_host
    init_host_lem p host port w sized heard closed =
        let args = Arg.text host ∷ Arg.text port ∷ [] in
        let u =
          set_object p (record (w.objects p) { connected_to_root = true }) (set_managed p true w) in
        let (a, l, ran, kept) = Quiet-info "Local TCP started %s:%s \n" args u sized in
        let t = record l { calls = l.calls + 1 } in
        let (v, ran_on, kept_on, answer) =
          answered_lem p up t (kept.log_size ∙ sized) (rw (kept.objects, ==_refl p, heard) refl)
            (rw (kept.objects, ==_refl p, closed) refl) in
        (
          v,
          >>-runs (Logger.info env "Local TCP started %s:%s \n" args) _ u ran
              ∙ rw (network l.calls) ran_on,
          record {
            channels = kept_on.channels ∙ kept.channels;
            fresh = kept_on.fresh ∙ kept.fresh;
            log_size = kept_on.log_size ∙ kept.log_size;
            kinds = λ q.
                kept_on.kinds q
                ∙ SameKinds-of_objects u l kept.objects q
                ∙ set_object-SameKinds p (record (w.objects p) { connected_to_root = true })
                    (set_managed p true w) refl q;
          },
          answer,
        )
