-- ===== src/Mesh.antt =====
-- Several Linux nodes in a row: what one node hands to its channel towards the root arrives at the
-- reading thread of the next, one packet to a read of at most 64 bytes.
pub mod Journey
pub mod Lines
pub mod Network
pub mod Hands
pub mod Answers
pub mod Logging
pub mod Truth
pub mod Edges
pub mod Members
pub mod Arrival
pub mod Ring
mod Tests
mod NetworkTests
use mathlib.Core.Option
use respir_mesh.Channel.{transmits}
use Prim.Native.String.{String}
use respir_mesh.Logger.{LogReturn, logger}
use respir_mesh.Wire.Messages.{Severity}
use respir_mesh.Node.Env.{Arg, Env}
use respir_mesh.Node.State.{Channel, Node}
use respir_mesh.Router.Topo.{send_mesh_topo}
use respir_mesh.X86.Client.{Received, receive_buffer_size, receive_step}
use respir_mesh.Base.{
  ℕ, Bool, true, List, [], ◌∷◌, Option, none, some, ◌==◌, ◌&&◌, if◌then◌else◌, drop, length, take,
  ◌≡◌,
}

-- A node of the row, with the channel on which it hears the node behind it and the buffer of that
-- channel's reading thread, and with its channel towards the root.
pub record Hop : Type 0 where
  pub env : Env
  pub node : Node
  pub incoming : ℕ
  pub uplink : ℕ
  pub buffer : List ℕ

-- What has been handed to a channel, oldest first.
abbrev pub handed_to : ℕ → List (ℕ × List ℕ) → List (List ℕ)
handed_to p [] = []
handed_to p ((q, bytes) ∷ rest) = if p == q then bytes ∷ handed_to p rest else handed_to p rest

abbrev pub single : List (List ℕ) → Option (List ℕ)
single (bytes ∷ []) = some bytes
single _ = none

-- The one packet that a step of a node has handed to its channel towards the root.
abbrev pub departed : Hop → Node → Option (List ℕ)
departed h v = single (handed_to h.uplink (drop (length h.node.sent) v.sent))

-- A read at a node, if its thread goes on.
abbrev pub after_read : Hop → Option (Option (List ℕ) × Node) → Option (List ℕ)
after_read h none = none
after_read h (some (none, v)) = none
after_read h (some (some left, v)) = departed h v

-- What the reading thread of a node does with the first read of a packet.
abbrev pub read_packet : Hop → List ℕ → Option (Option (List ℕ) × Node)
read_packet h packet =
    receive_step h.env h.incoming (Received.chunk (take receive_buffer_size packet)) h.buffer h.node

abbrev pub pass : Hop → List ℕ → Option (List ℕ)
pass h packet = after_read h (read_packet h packet)

-- A packet on its way through a row of nodes.
unfoldable pub travel : List Hop → List ℕ → Option (List ℕ)
travel [] packet = some packet
travel (h ∷ hs) packet = Option.bind (pass h packet) (travel hs)

-- The report that a node sends, and its way through the nodes in front of it.
unfoldable pub report_journey : Hop → List Hop → Option (List ℕ)
report_journey child hs =
    Option.bind (departed child (send_mesh_topo child.env child.node)) (travel hs)

-- The packet of a line that a node logs, and its way.
abbrev pub after_line : Hop → List Hop → Option (LogReturn × Node) → Option (List ℕ)
after_line child hs none = none
after_line child hs (some (size, v)) = Option.bind (departed child v) (travel hs)

unfoldable pub log_journey :
    Hop → Severity → String → String → List Arg → List Hop → Option (List ℕ)
log_journey child severity tags format args hs =
    after_line child hs (logger child.env child.env.log_depth severity tags format args child.node)
