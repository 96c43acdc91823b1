-- ===== src/Mesh/Truth.antt =====
-- What may travel in a network of nodes, and what the server may hear.
use mathlib.Core.List.{Memᴰ}
use respir_mesh.Node.Env.{Encodes}
use respir_mesh.Logger.{log_packet_size}
use respir_mesh.Mesh.Logging.{IsLog}
use respir_mesh.Node.State.{Node}
use respir_mesh.Mesh.Network.{Net, World, inside, outside}
use respir_mesh.Mesh.Answers.{edge_from, report_of}
use respir_mesh.Mesh.Hands.{Upward}
use respir_mesh.Router.Report.{topo_body}
use respir_mesh.Router.Topo.{internal_buffer_size, topo_of_self}
use respir_mesh.Base.{
  All, Option-cases, ℕ, ◌≡◌, true, List, [], ◌∷◌, ◌++◌, Option, some, inl, inr, length,
}

-- nanopb keeps its promises at each node, and each node decodes what another one encodes.
pub record Agrees (world : World) : Type 0 where
  pub encodes : (i : ℕ) → Encodes (world.env i)
  pub decodes :
      (i j : ℕ) (rest : List ℕ)
      → let body = topo_body (world.env i) (topo_of_self (world.env i)) in
        (world.env j).decode_info (body ++ rest) (length body) ≡ some (topo_of_self (world.env i))

module _ (world : World) (start : ℕ → Node) where
  -- The node `s` has listed a channel connected to the root at whose other end is the node `t`.
  abbrev pub Uplink : ℕ → ℕ → Type 0
  Uplink s t =
      (p : ℕ) × Memᴰ p (start s).channels
      × (((start s).objects p).connected_to_root ≡ true)
      × (world.wire s p ≡ some t)

  -- The report of a node on its way to a node in front of it, the edge between two such nodes, or the
  -- packet of a log line.
  pub data IsTrueTo (t : ℕ) (packet : List ℕ) : Type 0 where
    report : (s : ℕ) → Uplink s t → packet ≡ report_of (world.env s) → IsTrueTo t packet
    edge :
        (s u : ℕ)
        → Uplink s u
        → packet ≡ edge_from (world.env u) (world.env s).device_id
        → IsTrueTo t packet
    log : IsLog packet → IsTrueTo t packet

  -- What the server may hear: the report of a node, such an edge, or a log line.
  pub data IsTrue (packet : List ℕ) : Type 0 where
    report : (s : ℕ) → packet ≡ report_of (world.env s) → IsTrue packet
    edge :
        (s u : ℕ)
        → Uplink s u
        → packet ≡ edge_from (world.env u) (world.env s).device_id
        → IsTrue packet
    log : IsLog packet → IsTrue packet

  pub record Holds (n : Net) : Type 0 where
    pub objects : (i : ℕ) → (n.nodes i).objects ≡ (start i).objects
    pub channels : (i : ℕ) → (n.nodes i).channels ≡ (start i).channels
    pub sized : (i : ℕ) → length (n.nodes i).router_buffer ≡ internal_buffer_size
    pub logs : (i : ℕ) → length (n.nodes i).log_packet ≡ log_packet_size
    pub flying : All (λ d. IsTrueTo d.0 d.1) n.flying
    pub out : All IsTrue n.out

module _ (P : List ℕ → Type 0) (w : Node) (wire : ℕ → Option ℕ) where
  pub inside-All :
      (Q : ℕ × List ℕ → Type 0)
      → ((p t : ℕ) (b : List ℕ) → Upward P w (p, b) → wire p ≡ some t → Q (t, b))
      → (handed : List (ℕ × List ℕ)) → All (Upward P w) handed
      → All Q (inside wire handed)
  inside-All Q good [] h = tt
  inside-All Q good ((p, b) ∷ rest) (first, others) = elim (Option-cases (wire p)) [
    | inl nowhere ↦ rw nowhere (inside-All Q good rest others)
    | inr (t, there) ↦ rw there (good p t b first there, inside-All Q good rest others)
  ]

  pub outside-All :
      (Q : List ℕ → Type 0)
      → ((b : List ℕ) → P b → Q b)
      → (handed : List (ℕ × List ℕ)) → All (Upward P w) handed
      → All Q (outside wire handed)
  outside-All Q good [] h = tt
  outside-All Q good ((p, b) ∷ rest) (first, others) = elim (Option-cases (wire p)) [
    | inl nowhere ↦ rw nowhere (good b first.2, outside-All Q good rest others)
    | inr (t, there) ↦ rw there (outside-All Q good rest others)
  ]
