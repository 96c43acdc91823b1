-- ===== src/ClientT/Made.antt =====
-- The clients that the server channel of RemClientCPP/client_t/client_t.cpp has made and lists.
use respir_mesh.ClientT.Kept.{send_each-All, send_each-keeps}
use respir_mesh.ClientT.{
  ClientChannel, ClientT, TcpLibrary, init_socket, push_client, send_client, send_each, send_server,
  set_object, stop_client,
}
use respir_mesh.ClientT.Main.{Device, client_pointer, receive_by, send_device}
use respir_mesh.Base.{
  All, All-append, All-map, ℕ, ◌≤◌, ◌<◌, Bool, true, false, List, [], ◌∷◌, ◌++◌, Option, none, some,
  ◌==◌, ◌≡◌, refl, arith, inl, inr, Bool-cases,
}

-- A client that the server channel has made: it is not connected to the root, and a pointer that has
-- been given out, but none that `main` uses.
pub record Made (fresh : ℕ) (objects : ℕ → ClientChannel) (p : ℕ) : Type 0 where
  pub behind : 1 ≤ p
  pub below : p < fresh
  pub leaf : (objects p).connected_to_root ≡ false

abbrev pub Increasing : List ℕ → Type 0
Increasing [] = Unit
Increasing (p ∷ ps) = All (λ q. p < q) ps × Increasing ps

abbrev pub WaitsBelow : Option ℕ → ℕ → Type 0
WaitsBelow none fresh = Unit
WaitsBelow (some p) fresh = (1 ≤ p) × (p < fresh)

pub record Fair (w : Option ℕ) (t : ClientT) : Type 0 where
  pub started : 1 ≤ t.fresh
  pub waiting : WaitsBelow w t.fresh
  pub made : All (Made t.fresh t.objects) t.channels
  pub increasing : Increasing t.channels

send_each-Increasing :
    (lib : TcpLibrary) (bytes : List ℕ) (size : ℕ) (ps : List ℕ) (t : ClientT)
    → Increasing ps
    → Increasing (send_each lib bytes size ps t).0
unfolding send_each
send_each-Increasing lib bytes size [] t h = tt
send_each-Increasing lib bytes size (p ∷ ps) t (first, others) =
    let (ok, u) = send_client lib p bytes size t in
    elim (Bool-cases ok) [
      | inl fine ↦ rw fine (
        send_each-All lib bytes size (λ q. p < q) ps u first,
        send_each-Increasing lib bytes size ps u others,
      )
      | inr broken ↦ rw broken (send_each-Increasing lib bytes size ps (stop_client p u) others)
    ]

pub Increasing-append :
    (ps : List ℕ) (p : ℕ) → Increasing ps → All (λ q. q < p) ps → Increasing (ps ++ p ∷ [])
Increasing-append [] p h below = (tt, tt)
Increasing-append (q ∷ qs) p (first, others) (below, rest) =
    (All-append (λ r. q < r) qs p first below, Increasing-append qs p others rest)

-- A client that has been made stays as it is when another object changes.
set_object-Made :
    (p : ℕ) (c : ClientChannel) (t : ClientT) (q : ℕ)
    → p == q ≡ false
    → Made t.fresh t.objects q
    → Made t.fresh (set_object p c t).objects q
set_object-Made p c t q other h = record {
  behind = h.behind;
  below = h.below;
  leaf = rw other h.leaf;
}

-- `clientTcp` is none of the clients of the server channel.
pub client_pointer-Made :
    (c : ClientChannel) (t : ClientT) (q : ℕ)
    → Made t.fresh t.objects q
    → Made t.fresh (set_object client_pointer c t).objects q
client_pointer-Made c t q h = set_object-Made client_pointer c t q (ground (arith, h.behind)) h

pub push_client-Made :
    (t : ClientT) (q : ℕ)
    → Made t.fresh t.objects q
    → Made (push_client t).fresh (push_client t).objects q
unfolding push_client
push_client-Made t q h =
    let other : t.fresh == q ≡ false = ground (arith, h.below) in
    record { behind = h.behind; below = omega (arith, h.below); leaf = rw other h.leaf }

pub init_socket-Made :
    (p : ℕ) (accepted : Option ℕ) (t : ClientT) (q : ℕ)
    → Made t.fresh t.objects q
    → Made t.fresh (init_socket p accepted t).objects q
unfolding init_socket
init_socket-Made p accepted t q h = elim (Bool-cases (p == q)) [
  | inl same ↦ record { behind = h.behind; below = h.below; leaf = rw same refl }
  | inr other ↦ record { behind = h.behind; below = h.below; leaf = rw other h.leaf }
]

pub send_device-Fair :
    (lib : TcpLibrary) (device : Device) (bytes : List ℕ) (size : ℕ) {w : Option ℕ} (t : ClientT)
    → Fair w t
    → Fair w (send_device lib device bytes size t).1
unfolding send_device send_server
send_device-Fair lib Device.client_tcp bytes size t h = record {
  started = h.started;
  waiting = h.waiting;
  made = h.made;
  increasing = h.increasing;
}
send_device-Fair lib Device.server_tcp bytes size t h =
    let (objects, fresh, receiver) = send_each-keeps lib bytes size t.channels t in
    record {
      started = rw fresh h.started;
      waiting = rw fresh h.waiting;
      made =
          rw (objects, fresh)
            (send_each-All lib bytes size (Made t.fresh t.objects) t.channels t h.made);
      increasing = send_each-Increasing lib bytes size t.channels t h.increasing;
    }

pub receive_by-Fair :
    (calls_back : Bool) (device : Device) {w : Option ℕ} (t : ClientT)
    → Fair w t
    → Fair w (receive_by calls_back device t)
unfolding receive_by
receive_by-Fair false device t h = h
receive_by-Fair true Device.client_tcp t h = record {
  started = h.started;
  waiting = h.waiting;
  made = All-map t.channels (client_pointer-Made _ t) h.made;
  increasing = h.increasing;
}
receive_by-Fair true Device.server_tcp t h = record {
  started = h.started;
  waiting = h.waiting;
  made = h.made;
  increasing = h.increasing;
}
