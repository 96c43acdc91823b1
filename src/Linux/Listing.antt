-- ===== src/Linux/Listing.antt =====
-- How the channels of a Linux node come into the list.
use respir_mesh.Linux.Wired.{
  Distinct, IsListed, IsNew, IsSteady, IsSteady-Leads, Leads, Leads->>=, Steady, Steady-IsNew,
  Steady-Wired, Wired, if-Leads,
}
use respir_mesh.Linux.Channels.{member-Steady}
use respir_mesh.Linux.Logging.{info-Steady}
use respir_mesh.Logger
use mathlib.Core.Path.{subst}
use respir_mesh.Node.Env.{Arg, Env}
use respir_mesh.Node.Fault.{M, ◌>>=◌, ◌>>◌, gets, modify, pure}
use respir_mesh.Node.State.{Channel, Node, update}
use respir_mesh.Channel.{ch_id}
use respir_mesh.Orchestrator.{add_channel, set_object}
use respir_mesh.X86.Client.{new_client, set_conn_listener}
use respir_mesh.X86.Server.{new_server}
use respir_mesh.Base.{
  All, All-append, All-map, ℕ, ◌+◌, List, [], ◌∷◌, ◌++◌, Bool, true, false, if◌then◌else◌, ◌≡◌, ◌≢◌,
  refl, ◌∙◌, ap, sym, arith, length, inl, inr, Bool-cases, ◌==◌, ==_refl,
}

Distinct-append :
    (ps : List ℕ) (p : ℕ) → Distinct ps → All (λ q. q ≢ p) ps → Distinct (ps ++ p ∷ [])
Distinct-append [] p d new = (tt, tt)
Distinct-append (q ∷ qs) p (others, d) (differs, new) =
    (All-append (λ r. r ≢ q) qs p others (λ e. differs (sym e)), Distinct-append qs p d new)

-- A new channel once the orchestrator has given it its receiver.
IsReady : ℕ → Node → Type 0
IsReady p w = IsNew p w × ((w.objects p).has_receiver ≡ true)

receiver_set :
    (p : ℕ) (w : Node)
    → IsNew p w
    → IsReady p (set_object p (record (w.objects p) { has_receiver = true }) w)
unfolding IsReady
receiver_set p w h = (Steady-IsNew p steady h, rw (==_refl p) refl)
  where
    steady : Steady w (set_object p (record (w.objects p) { has_receiver = true }) w)
    steady = record {
      fresh = omega arith;
      channels = refl;
      receivers = λ q old r. elim (Bool-cases (p == q)) [
        | inl here ↦ rw here refl
        | inr elsewhere ↦ rw elsewhere r
      ];
      router = refl;
      logs = refl;
    }

Steady-IsReady : (p : ℕ) (w v : Node) → Steady w v → IsReady p w → IsReady p v
unfolding IsReady
Steady-IsReady p w v s (new, receives) = (Steady-IsNew p s new, s.receivers p new.exists receives)

listed : (p : ℕ) (w : Node) → IsReady p w → Wired (record w { channels = w.channels ++ p ∷ [] })
unfolding IsReady
listed p w (new, receives) = record {
  listed = All-append (IsListed w) w.channels p new.wired.listed (new.exists, receives);
  distinct = Distinct-append w.channels p new.wired.distinct new.unlisted;
  router = new.wired.router;
  logs = new.wired.logs;
}

made :
    (c : Channel) (w v : Node)
    → v.fresh ≡ w.fresh + 1
    → v.objects ≡ update w.objects w.fresh c
    → v.channels ≡ w.channels
    → v.router_buffer ≡ w.router_buffer
    → v.log_packet ≡ w.log_packet
    → Wired w
    → IsNew w.fresh v
made c w v fresh objects channels router logs h = record {
  wired =
      Steady-Wired
        (record {
          fresh = omega arith;
          channels = channels;
          receivers = λ p old receives.
              let other : (w.fresh == p) ≡ false = ground arith in
              ap (λ (o : ℕ → Channel). (o p).has_receiver) objects ∙ rw other receives;
          router = ap length router;
          logs = ap length logs;
        })
        h;
  exists = omega arith;
  unlisted =
      subst (All (λ q. q ≢ w.fresh)) (sym channels)
        (All-map w.channels (λ q (old, receives) e. absurd (omega arith)) h.listed);
}

module _ (env : Env) where
  pub add_channel-Leads : (p : ℕ) → Leads (IsNew p) Wired (add_channel env p)
  unfolding add_channel
  add_channel-Leads p w h =
      let u = set_object p (record (w.objects p) { has_receiver = true }) w in
      let say = Logger.info env "ADDED ch %d  \n" (Arg.num (ch_id p u) ∷ []) in
      let put : M (Unit {0}) = modify (λ w. record w { channels = w.channels ++ p ∷ [] }) in
      Leads->>= (IsReady p) (IsReady p) Wired say (λ a. put)
        (IsSteady-Leads (IsReady p) say (Steady-IsReady p) (info-Steady env _ _)) (λ a. listed p) u
        (receiver_set p w h)

  pub new_server-IsNew : (w : Node) → Wired w → IsNew w.fresh (new_server w).1
  unfolding new_server
  new_server-IsNew w h = made _ w (new_server w).1 refl refl refl refl refl h

  pub new_client-IsNew : (w : Node) → Wired w → IsNew w.fresh (new_client w).1
  unfolding new_client
  new_client-IsNew w h = made _ w (new_client w).1 refl refl refl refl refl h

  set_conn_listener-Steady : (p : ℕ) → IsSteady (modify (set_conn_listener p))
  unfolding set_conn_listener
  set_conn_listener-Steady p = member-Steady p (λ c. record c { has_listener = true }) (λ c. refl)

  -- The part of a loop from a new object on, with what follows the object in the loop.
  pub opening-Leads :
      {A : Type 0} (p : ℕ) (init : M (Unit {0})) (rest : Bool → M A)
      → IsSteady init
      → ((opened : Bool) → Leads Wired Wired (rest opened))
      → Leads (IsNew p) Wired (
          modify (set_conn_listener p)
          >> (init
              >> (gets (λ w. (w.objects p).is_connected) >>= λ opened.
                  (if opened then add_channel env p else pure tt) >> rest opened)))
  opening-Leads p init rest steady next =
      let added = λ (opened : Bool). if opened then add_channel env p else pure tt in
      let asked =
        gets (λ w. (w.objects p).is_connected) >>= λ opened. added opened >> rest opened in
      Leads->>= (IsNew p) (IsNew p) Wired (modify (set_conn_listener p)) (λ a. init >> asked)
        (IsSteady-Leads (IsNew p) (modify (set_conn_listener p)) (λ w v. Steady-IsNew p)
          (set_conn_listener-Steady p))
        (λ a.
          Leads->>= (IsNew p) (IsNew p) Wired init (λ b. asked)
            (IsSteady-Leads (IsNew p) init (λ w v. Steady-IsNew p) steady)
            (λ b w h.
              Leads->>= (IsNew p) Wired Wired (added (w.objects p).is_connected)
                (λ c. rest (w.objects p).is_connected)
                (if-Leads (IsNew p) Wired (w.objects p).is_connected (add_channel env p) (pure tt)
                  (add_channel-Leads p) (λ v new. new.wired))
                (λ c. next (w.objects p).is_connected) w h))
