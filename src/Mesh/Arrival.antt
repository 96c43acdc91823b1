-- ===== src/Mesh/Arrival.antt =====
-- What can always happen in a network of nodes: an edge gets to the server.
use respir_mesh.Mesh.Members.{inside-Memᴰ, deliveries-Memᴰ}
use respir_mesh.Wire.Header.{header_size}
use respir_mesh.X86.Client.{receive_buffer_size}
use mathlib.Core.List.{Memᴰ}
use respir_mesh.Looper
use respir_mesh.Channel.{transmits}
use respir_mesh.Node.State.{Node}
use respir_mesh.Mesh.Network.{Later, Net, Step, World, after}
use respir_mesh.Mesh.Answers.{receive_step-runs}
use respir_mesh.Mesh.Hands.{Gives}
use respir_mesh.Mesh.Truth.{Agrees, Holds}
use respir_mesh.Mesh.Edges.{step-Holds}
use respir_mesh.Router.Topo.{route_packet}
use respir_mesh.Router.Topo
use respir_mesh.Wire.Forwarding
use respir_mesh.Wire.Protobuf
use respir_mesh.Base.{
  Memᴰ-append, taken, ◌≤◌, replicate, ◌<◌, drop-append, ℕ, ◌≡◌, refl, true, List, ◌++◌, none, some,
  length, drop,
}

pub Later-trans :
    (world : World) {n m l : Net} → Later world n m → Later world m l → Later world n l
Later-trans world first Later.stays = first
Later-trans world first (Later.goes before step) = Later.goes (Later-trans world first before) step

module _ (world : World) (start : ℕ → Node) where
  -- A node has listed this channel, which is connected to the root and transmits.
  pub record IsUplink (i p : ℕ) : Type 0 where
    pub listed : Memᴰ p (start i).channels
    pub up : ((start i).objects p).connected_to_root ≡ true
    pub carries : transmits ((start i).objects p).kind ≡ true

  -- A way over such channels from a node to the server.
  pub data Way : ℕ → Type 0 where
    ends : {i : ℕ} (p : ℕ) → IsUplink i p → world.wire i p ≡ none → Way i
    leads : {i : ℕ} (p u : ℕ) → IsUplink i p → world.wire i p ≡ some u → Way u → Way i

  module _ (i p : ℕ) (packet : List ℕ) (v : Node) (n : Net) (link : IsUplink i p)
      (gives : Gives packet (n.nodes i) v) (h : Holds world start n) where
    handed-Memᴰ : Memᴰ (p, packet) (drop (length (n.nodes i).sent) v.sent)
    handed-Memᴰ =
        let objects = h.objects i in
        let channels = h.channels i in
        rw
          (
            gives.sent,
            drop-append (n.nodes i).sent _ (length (n.nodes i).sent) refl,
            objects,
            channels,
          )
          (deliveries-Memᴰ (start i).objects packet (start i).channels p link.listed link.up
            link.carries)

    pub flies : (t : ℕ) → world.wire i p ≡ some t → Memᴰ (t, packet) (after world i v n).flying
    unfolding after
    flies t there =
        Memᴰ-append n.flying _ (t, packet)
          (inside-Memᴰ (world.wire i) p packet t _ there handed-Memᴰ)

module _ (world : World) (start : ℕ → Node) (agrees : Agrees world) (ears : ℕ → ℕ)
    (hears : (i : ℕ) → ((start i).objects (ears i)).has_receiver ≡ true) where
  -- A packet in flight can arrive, whatever else is in flight.
  pub can_arrive :
      (i : ℕ) (packet next : List ℕ) (n : Net)
      → Memᴰ (i, packet) n.flying
      → Holds world start n
      → header_size ≤ length packet
      → length packet < receive_buffer_size
      → ((rest : List ℕ)
          → Gives next
              (n.nodes i)
              (route_packet (world.env i) (packet ++ rest) (length packet) (n.nodes i)).1)
      → (base : Net) × (v : Node) × Step world n (after world i v base)
        × Holds world start base
        × Gives next (base.nodes i) v
  can_arrive i packet next n m h header room routed =
      let (before, behind, e) = taken n.flying (i, packet) m in
      let base = record n { flying = before ++ behind } in
      let buffer = replicate receive_buffer_size 0 in
      let (left, v, ran, gives) =
        receive_step-runs (Gives next (n.nodes i)) (world.env i) (ears i) packet buffer (n.nodes i)
          refl header room routed (rw (h.objects i) (hears i)) in
      (
        base,
        v,
        Step.arrives i (ears i) buffer packet before behind n e refl ran,
        step-Holds world start agrees (Step.loses (i, packet) before behind n e) h,
        gives,
      )
