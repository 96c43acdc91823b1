-- ===== src/ClientT/Hearing.antt =====
-- Which clients of RemClientCPP/client_t/client_t.cpp hand on what they receive.
use respir_mesh.ClientT.Lifetime.{Reachable-Fair}
use respir_mesh.ClientT.Kept.{recv_round-Keeps, send_each-keeps}
use respir_mesh.ClientT.Main.{Device, client_pointer, send_device, receive_by}
use respir_mesh.ClientT.Steps.{Step, Reachable, Later, Stage}
use respir_mesh.ClientT.{
  Call, calling, send_server, set_object, push_client, init_socket, TcpLibrary, init_address,
  ClientChannel, recv_round, ClientT,
}
use respir_mesh.Base.{
  refl, ltb, ==_refl, false, inr, ap, if◌then◌else◌, ◌∙◌, length, some, arith, inl, none,
  Bool-cases, List, true, Option, ◌==◌, ℕ, ◌≤◌, ◌<◌, Bool, ◌≡◌,
}

-- A client of the server channel with its receiver, or without one.
record Hears (p : ℕ) (hears : Bool) (t : ClientT) : Type 0 where
  behind : 1 ≤ p
  below : p < t.fresh
  receiver : (t.objects p).has_receiver ≡ hears

-- Another object changes, or the client itself but not its receiver.
set_object-Hears :
    (q : ℕ) (c : ClientChannel) (t : ClientT) {p : ℕ} {hears : Bool}
    → (q == p ≡ true → c.has_receiver ≡ (t.objects q).has_receiver)
    → Hears p hears t
    → Hears p hears (set_object q c t)
set_object-Hears q c t {p} same h = record {
  behind = h.behind;
  below = h.below;
  receiver = elim (Bool-cases (q == p)) [
    | inl own ↦
        let at_p : q ≡ p = grind (arith, own) in
        rw own (same own ∙ ap (λ r. (t.objects r).has_receiver) at_p ∙ h.receiver)
    | inr other ↦ rw other h.receiver
  ];
}

step-Hears :
    {lib : TcpLibrary} {s s' : Stage} {w w' : Option ℕ} {t t' : ClientT} {p : ℕ} {hears : Bool}
    → Step lib s w t s' w' t'
    → Hears p hears t
    → Hears p hears t'
unfolding init_address init_socket push_client receive_by send_device send_server
step-Hears (Step.connects address port t) h = set_object-Hears client_pointer _ t (λ e. refl) h
step-Hears (Step.serves port t) h = record {
  behind = h.behind;
  below = h.below;
  receiver = h.receiver;
}
step-Hears (Step.adds_client false t) h = h
step-Hears (Step.adds_client true t) h =
    set_object-Hears client_pointer _ t (λ e. absurd (grind (arith, e, h.behind))) h
step-Hears (Step.adds_server false t) h = h
step-Hears (Step.adds_server true t) h = record {
  behind = h.behind;
  below = h.below;
  receiver = h.receiver;
}
step-Hears (Step.sends Device.client_tcp bytes size t) h = record {
  behind = h.behind;
  below = h.below;
  receiver = h.receiver;
}
step-Hears {lib} {p = p} (Step.sends Device.server_tcp bytes size t) h =
    let (objects, fresh, receiver) = send_each-keeps lib bytes size t.channels t in
    record { behind = h.behind; below = rw fresh h.below; receiver = rw objects h.receiver }
step-Hears {p = p} (Step.pushes t started) h =
    let other : t.fresh == p ≡ false = ground (arith, h.below) in
    record { behind = h.behind; below = omega (arith, h.below); receiver = rw other h.receiver }
step-Hears (Step.accepts q accepted t) h = set_object-Hears q _ t (λ e. refl) h
step-Hears (Step.reads q msg {t = t} e) h =
    let (objects, fresh, channels, receiver) = rw e at (recv_round-Keeps q msg t) in
    record { behind = h.behind; below = rw fresh h.below; receiver = rw objects h.receiver }

Later-Hears :
    {lib : TcpLibrary} {s : Stage} {w : Option ℕ} {t : ClientT} {s' : Stage} {w' : Option ℕ}
    {t' : ClientT} {p : ℕ} {hears : Bool}
    → Later lib s w t s' w' t'
    → Hears p hears t
    → Hears p hears t'
Later-Hears Later.stays h = h
Later-Hears (Later.goes before step) h = step-Hears step (Later-Hears before h)

-- A client of the server channel hands on what it receives exactly if the server channel had its
-- receiver when the accepting thread made the client: one that was made before `main` has added the
-- server channel calls a receiver that was never set with its first message that is not empty, however
-- late this message comes and whatever happens before.
pub recv_round_as_pushed :
    (lib : TcpLibrary) (s s' : Stage) (w : Option ℕ) (t u : ClientT) (msg : List ℕ)
    → Reachable lib s none t
    → Later lib s (some t.fresh) (push_client t) s' w u
    → 0 < length msg
    → recv_round t.fresh msg u
      ≡ (if t.server_has_receiver then some (calling (Call.received t.fresh msg) u) else none)
unfolding recv_round push_client
recv_round_as_pushed lib s s' w t u msg reached later long =
    let made : Hears t.fresh t.server_has_receiver (push_client t) = record {
      behind = (Reachable-Fair reached).started;
      below = omega arith;
      receiver = rw (==_refl t.fresh) refl;
    } in
    let nonempty : ltb 0 (length msg) ≡ true = ground arith in
    rw (nonempty, (Later-Hears later made).receiver) refl
