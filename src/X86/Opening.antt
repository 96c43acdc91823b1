-- ===== src/X86/Opening.antt =====
-- A round of `scan_clients` over the listed hosts.
use mathlib.Core.Path.{subst}
use respir_mesh.X86.Connecting.{init_host_lem, Quiet-info, add_channel_lem}
use respir_mesh.X86.ListController.{SimpleListChnCtrl, scan_clients, scan_each}
use respir_mesh.Orchestrator.{add_channel}
use respir_mesh.X86.Client.{set_conn_listener, new_client, init_host}
use respir_mesh.Node.Fault.{>>=-runs, pure, >>-runs, ◌>>◌, M}
use respir_mesh.Logger.Lines.{Fits}
use Prim.Native.String.{String}
use respir_mesh.Node.State.{Channel, ChannelKind, Node}
use respir_mesh.Node.Env.{Arg, Encodes, Env}
use respir_mesh.Base.{
  All, ◌<◌, ◌==◌, arith, append-nil, sym, append_assoc, ap, ◌++◌, ◌+◌, ==_refl, if◌then◌else◌,
  false, true, Bool, some, List, length, ◌≡◌, ℕ, refl, [], ◌∷◌, ◌∙◌, zero, suc,
}
use respir_mesh.Logger
use respir_mesh.Logger.{logger, log_packet_size}

-- The pointers of the channels that are opened for so many hosts, from the first free pointer on.
abbrev pub opened_from : Bool → ℕ → ℕ → List ℕ
opened_from false fresh n = []
opened_from true fresh zero = []
opened_from true fresh (suc n) = fresh ∷ opened_from true (fresh + 1) n

-- They are all below the first free pointer after them.
pub All_opened :
    {P Q : ℕ → Type 0} (up : Bool) (fresh n : ℕ)
    → ((q : ℕ) → q < fresh + n → P q → Q q)
    → All P (opened_from up fresh n)
    → All Q (opened_from up fresh n)
All_opened false fresh n step h = tt
All_opened true fresh zero step h = tt
All_opened true fresh (suc n) step (first, others) = (
  step fresh (omega arith) first,
  All_opened true (fresh + 1) n (λ q below. step q (omega arith)) others,
)

-- The flag after so many hosts: set if one of them has answered, else as before.
abbrev pub flag_after : Bool → ℕ → Bool → Bool
flag_after false n before = before
flag_after true zero before = before
flag_after true (suc n) before = true

flag_after_none : (up before : Bool) → flag_after up 0 before ≡ before
flag_after_none true before = refl
flag_after_none false before = refl

opened_from_none : (up : Bool) (fresh : ℕ) → opened_from up fresh 0 ≡ []
opened_from_none true fresh = refl
opened_from_none false fresh = refl

flag_after_set : (n : ℕ) → flag_after true n true ≡ true
flag_after_set zero = refl
flag_after_set (suc n) = refl

-- The objects below a pointer are of the classes that they were of, and those at the new pointers are of
-- one class.
pub record Kinds (kind : ChannelKind) (below : ℕ) (ps : List ℕ) (w v : Node) : Type 0 where
  pub older : (q : ℕ) → q < below → (v.objects q).kind ≡ (w.objects q).kind
  pub opened : All (λ q. (v.objects q).kind ≡ kind) ps

-- A state before, with the same first free pointer and the same classes below it.
pub Kinds-from :
    {kind : ChannelKind} (up : Bool) (n : ℕ) {w u v : Node} {l f : ℕ}
    → l ≡ f
    → Kinds kind l (opened_from up l n) u v
    → ((q : ℕ) → q < f → (u.objects q).kind ≡ (w.objects q).kind)
    → Kinds kind f (opened_from up f n) w v
Kinds-from {kind} up n {v = v} same kinds before = record {
  older = λ q old. kinds.older q (omega arith) ∙ before q old;
  opened = subst (λ k. All (λ q. (v.objects q).kind ≡ kind) (opened_from up k n)) same kinds.opened;
}

module _ (env : Env) (enc : Encodes env)
    (short : (format : String) (args : List Arg) → Fits env format args) where
  -- What a loop does over so many hosts, from a flag on, if its channels are of one class.
  abbrev pub Opens : ChannelKind → Bool → ℕ → (Bool → M Bool) → Type 0
  Opens kind up n loop =
      (before : Bool) (w : Node)
      → length w.log_packet ≡ log_packet_size
      → (v : Node) × (loop before w ≡ some (flag_after up n before, v))
        × (v.channels ≡ w.channels ++ opened_from up w.fresh n)
        × (v.fresh ≡ w.fresh + n)
        × (length v.log_packet ≡ log_packet_size)
        × Kinds kind w.fresh (opened_from up w.fresh n) w v

  pub none_open : (kind : ChannelKind) (up : Bool) → Opens kind up 0 pure
  none_open kind up before w sized = (
    w,
    ap (λ b. some (b, w)) (sym (flag_after_none up before)),
    sym (append-nil w.channels) ∙ ap (◌++◌ w.channels) (sym (opened_from_none up w.fresh)),
    omega arith,
    sized,
    record { older = λ q old. refl; opened = rw (opened_from_none up w.fresh) tt },
  )

  abbrev pub rest : ℕ → (Bool → M Bool) → Bool → Bool → M Bool
  rest p loop before opened =
      (if opened then add_channel env p else pure tt) >> loop (if opened then true else before)

  pub rest_lem :
      (kind : ChannelKind) (up : Bool) (p n : ℕ) (loop : Bool → M Bool) (before : Bool) (w : Node)
      → length w.log_packet ≡ log_packet_size
      → w.fresh ≡ p + 1
      → (w.objects p).kind ≡ kind
      → Opens kind up n loop
      → (v : Node) × (rest p loop before up w ≡ some (flag_after up (suc n) before, v))
        × (v.channels ≡ w.channels ++ opened_from up p (suc n))
        × (v.fresh ≡ p + suc n)
        × (length v.log_packet ≡ log_packet_size)
        × Kinds kind p (opened_from up p (suc n)) w v
  rest_lem kind true p n loop before w sized next is opens =
      let (u, ran, added, fresh, sized_u, same) = add_channel_lem env enc short p w sized in
      let (v, ran_on, more, after, sized_v, kinds) = opens true u sized_u in
      let grown : u.fresh ≡ p + 1 = fresh ∙ next in
      (
        v,
        >>-runs (add_channel env p) (loop true) w ran
            ∙ ran_on
            ∙ ap (λ b. some (b, v)) (flag_after_set n),
        more
            ∙ rw (added, fresh, next)
                (append_assoc w.channels (p ∷ []) (opened_from true (p + 1) n)),
        omega arith,
        sized_v,
        record {
          older = λ q old. kinds.older q (omega arith) ∙ same q;
          opened = (
            kinds.older p (omega arith) ∙ same p ∙ is,
            subst (λ f. All (λ q. (v.objects q).kind ≡ kind) (opened_from true f n)) grown
                kinds.opened,
          );
        },
      )
  rest_lem kind false p n loop before w sized next is opens =
      let (v, ran, more, after, sized_v, kinds) = opens before w sized in
      (
        v,
        ran,
        more,
        omega arith,
        sized_v,
        record { older = λ q old. kinds.older q (omega arith); opened = tt },
      )

  -- `connect` always answers in this way.
  module _ (up : Bool) (network : (n : ℕ) → env.connects n ≡ up) where
    scan_each-Opens :
        (hosts : List (List ℕ × List ℕ))
        → Opens ChannelKind.x86_client up (length hosts) (scan_each env hosts)
    unfolding scan_each new_client set_conn_listener
    scan_each-Opens [] before w sized = none_open ChannelKind.x86_client up before w sized
    scan_each-Opens ((host, port) ∷ hosts) before w sized =
        let args = Arg.text host ∷ Arg.text port ∷ [] in
        let format : String = "\n\n\nTrying to connect to  %s:%s   \n" in
        let (a, l, ran, kept) = Quiet-info env enc short format args w sized in
        let p = l.fresh in
        let t = set_conn_listener p (new_client l).1 in
        let (u, opened, kept_u, answer) =
          init_host_lem env enc short up network p host port t (kept.log_size ∙ sized)
            (rw (==_refl p) refl) (rw (==_refl p) refl) in
        let (v, ran_on, more, after, sized_v, kinds) =
          rest_lem ChannelKind.x86_client up p (length hosts) (scan_each env hosts) before u
            (kept_u.log_size ∙ kept.log_size ∙ sized) kept_u.fresh
            (kept_u.kinds p ∙ rw (==_refl p) refl) (scan_each-Opens hosts) in
        (
          v,
          >>-runs (Logger.info env format args) _ w ran
              ∙ >>-runs (init_host env p host port) _ t opened
              ∙ rw answer ran_on,
          more ∙ rw (kept_u.channels, kept.channels, kept.fresh) refl,
          after ∙ ap (λ k. k + suc (length hosts)) kept.fresh,
          sized_v,
          Kinds-from up (suc (length hosts)) kept.fresh kinds (λ q old.
              let other : l.fresh == q ≡ false = ground (arith, kept.fresh) in
              kept_u.kinds q ∙ rw other refl ∙ ap (λ (o : ℕ → Channel). (o q).kind) kept.objects),
        )

    pub scan_clients_lem :
        (c : SimpleListChnCtrl) (w : Node)
        → length w.log_packet ≡ log_packet_size
        → let n = length c.clients_list in
          (v : Node) × (scan_clients env c w
            ≡ some (record c { is_client_connected = flag_after up n c.is_client_connected }, v))
          × (v.channels ≡ w.channels ++ opened_from up w.fresh n)
          × (v.fresh ≡ w.fresh + n)
          × (length v.log_packet ≡ log_packet_size)
          × Kinds ChannelKind.x86_client w.fresh (opened_from up w.fresh n) w v
    unfolding scan_clients
    scan_clients_lem c w sized =
        let format : String = " SimpleListScanner::scan_clients  clients_list  size  %u  " in
        let args = Arg.num (length c.clients_list) ∷ [] in
        let (a, l, ran, kept) = Quiet-info env enc short format args w sized in
        let (v, ran_on, more, after, sized_v, kinds) =
          scan_each-Opens c.clients_list c.is_client_connected l (kept.log_size ∙ sized) in
        (
          v,
          >>-runs (Logger.info env format args) _ w ran
              ∙ >>=-runs (scan_each env c.clients_list c.is_client_connected)
                  (λ connected. pure (record c { is_client_connected = connected })) l ran_on,
          more ∙ rw (kept.channels, kept.fresh) refl,
          after ∙ ap (λ k. k + length c.clients_list) kept.fresh,
          sized_v,
          Kinds-from up (length c.clients_list) kept.fresh kinds
              (λ q old. ap (λ (o : ℕ → Channel). (o q).kind) kept.objects),
        )

    -- If nanopb keeps its promises, the texts fit, and the network gives every `connect` the same
    -- answer, `scan_clients` returns. If the answer is a connection, a fresh channel for each listed
    -- host, in the order of the hosts, stands at the end of the channel list, and the controller
    -- counts as connected (unless it lists no host); if the answer is an exception, the channel list
    -- and the flag stay as they are.
    pub scan_clients_opens :
        (c : SimpleListChnCtrl) (w : Node)
        → length w.log_packet ≡ log_packet_size
        → let n = length c.clients_list in
          (v : Node) × (scan_clients env c w
            ≡ some (record c { is_client_connected = flag_after up n c.is_client_connected }, v))
          × (v.channels ≡ w.channels ++ opened_from up w.fresh n)
    scan_clients_opens c w sized =
        let (v, ran, added, after, sized_v, kinds) = scan_clients_lem c w sized in (v, ran, added)
