-- ===== src/Mesh/Hands.antt =====
-- What a node has handed to its channels in one step.
use mathlib.Core.List.{Memᴰ}
use respir_mesh.Node.State.{Channel, Node}
use respir_mesh.Channel.{transmits}
use respir_mesh.Router.Selection.{deliveries}
use respir_mesh.Base.{
  ℕ, ◌≡◌, refl, true, List, [], ◌∷◌, ◌++◌, inl, inr, Bool-cases, length, All, All-map,
}

-- A packet handed to a listed channel of a node that is connected to the root.
abbrev pub Upward : (List ℕ → Type 0) → Node → ℕ × List ℕ → Type 0
Upward P w (p, packet) = Memᴰ p w.channels × ((w.objects p).connected_to_root ≡ true) × P packet

-- A node has handed some packets to such channels, all of them of one kind, and keeps its channels and
-- the size of its buffer.
pub record Hands (P : List ℕ → Type 0) (w v : Node) : Type 0 where
  pub handed : List (ℕ × List ℕ)
  pub sent : v.sent ≡ w.sent ++ handed
  pub each : All (Upward P w) handed
  pub objects : v.objects ≡ w.objects
  pub channels : v.channels ≡ w.channels
  pub size : length v.router_buffer ≡ length w.router_buffer
  pub log_size : length v.log_packet ≡ length w.log_packet

deliveries-All :
    (objects : ℕ → Channel) (packet : List ℕ) (Q : ℕ → Type 0) (ps : List ℕ)
    → All Q ps
    → All
        (λ d. Q d.0 × ((objects d.0).connected_to_root ≡ true) × (d.1 ≡ packet))
        (deliveries (λ c. c.connected_to_root) objects packet ps)
deliveries-All objects packet Q [] h = tt
deliveries-All objects packet Q (p ∷ ps) (q, h) =
    let rest = deliveries-All objects packet Q ps h in
    elim (Bool-cases (objects p).connected_to_root) [
      | inl on ↦ elim (Bool-cases (transmits (objects p).kind)) [
        | inl carries ↦ rw (on, carries) ((q, on, refl), rest)
        | inr silent ↦ rw (on, silent) rest
      ]
      | inr off ↦ rw off rest
    ]

members : (ps : List ℕ) → All (λ p. Memᴰ p ps) ps
members [] = tt
members (p ∷ ps) = (Memᴰ.head refl, All-map ps (λ q m. Memᴰ.tail m) (members ps))

-- A node has handed a packet to every transmitting channel of its list that is connected to the root.
pub record Gives (packet : List ℕ) (w v : Node) : Type 0 where
  pub sent : v.sent ≡ w.sent ++ deliveries (λ c. c.connected_to_root) w.objects packet w.channels
  pub objects : v.objects ≡ w.objects
  pub channels : v.channels ≡ w.channels
  pub size : length v.router_buffer ≡ length w.router_buffer
  pub log_size : length v.log_packet ≡ length w.log_packet

pub Gives-Hands : {packet : List ℕ} {w v : Node} → Gives packet w v → Hands (λ b. b ≡ packet) w v
Gives-Hands {packet} {w} g = record {
  handed = deliveries (λ c. c.connected_to_root) w.objects packet w.channels;
  sent = g.sent;
  each = deliveries-All w.objects packet (λ p. Memᴰ p w.channels) w.channels (members w.channels);
  objects = g.objects;
  channels = g.channels;
  size = g.size;
  log_size = g.log_size;
}

pub Hands-map :
    (P Q : List ℕ → Type 0) {w v : Node} → ((b : List ℕ) → P b → Q b) → Hands P w v → Hands Q w v
Hands-map P Q f h = record {
  handed = h.handed;
  sent = h.sent;
  each = All-map h.handed (λ d up. (up.0, up.1, f d.1 up.2)) h.each;
  objects = h.objects;
  channels = h.channels;
  size = h.size;
  log_size = h.log_size;
}
