-- ===== src/Mesh/Lines.antt =====
-- A log line on its way to the root.
use mathlib.Core.Option
use Prim.Native.String.{String}
use respir_mesh.Logger.{log_packet_size}
use respir_mesh.Logger.Delivery.{log_body, log_text}
use respir_mesh.Logger.Lines.{Fits, line}
use respir_mesh.Mesh.{after_line, Hop, log_journey, read_packet, travel}
use respir_mesh.Mesh.Journey.{IsHop, departed_lem, relays_lem}
use respir_mesh.Node.Env.{Arg, Encodes}
use respir_mesh.Wire.Assembly.{length-packet_of, packet_of}
use respir_mesh.Wire.Forwarding
use respir_mesh.Wire.Header.{header_size}
use respir_mesh.Wire.Messages.{Severity}
use respir_mesh.Wire.Protobuf
use respir_mesh.X86.Client.{receive_buffer_size}
use respir_mesh.X86.Receive.{receive_step_faults}
use respir_mesh.Base.{
  All, ℕ, ◌+◌, ◌≤◌, ◌<◌, ◌≡◌, ◌∙◌, ap, refl, List, ◌∷◌, none, some, arith, length, length-take,
  take, inl,
}

module _ (child : Hop) (enc : Encodes child.env) (severity : Severity) (tags format : String)
    (args : List Arg) (good : IsHop child) (sized : length child.node.log_packet ≡ log_packet_size)
    (fits : Fits child.env format args) where
  abbrev body : List ℕ
  body = log_body child.env severity (log_text child.env format args) child.node

  log_leaves :
      (hs : List Hop)
      → log_journey child severity tags format args hs
        ≡ travel hs (packet_of Forwarding.to_root Protobuf.log body)
  unfolding log_journey Option.bind
  log_leaves hs =
      let l = line child.env enc severity tags format args child.node sized fits in
      ap (after_line child hs) l.runs
      ∙ ap (λ left. Option.bind left (travel hs))
          (departed_lem child l.after (packet_of Forwarding.to_root Protobuf.log body) good l.sent)

  -- A line whose packet is shorter than the buffer of a read travels up a row of nodes of any length:
  -- if nanopb keeps its promises and the text fits, each node has one channel towards the root and its
  -- buffers have their sizes, and each packet arrives whole and alone in one read at the next node,
  -- then the packet that leaves the last node is the LOG packet with the encoded message of the first.
  pub log_journey_arrives :
      (hs : List Hop)
      → length body + header_size < receive_buffer_size
      → All IsHop hs
      → log_journey child severity tags format args hs
        ≡ some (packet_of Forwarding.to_root Protobuf.log body)
  log_journey_arrives hs small goods = log_leaves hs ∙ relays_lem Protobuf.log body hs small goods

  -- A line whose packet fills the buffer of a read or is longer, which an encoded message of 59 bytes
  -- does, goes no further than the first node in front: its reading thread writes behind the buffer.
  pub log_journey_faults :
      (parent : Hop) (hs : List Hop)
      → receive_buffer_size ≤ length body + header_size
      → (read_packet parent (packet_of Forwarding.to_root Protobuf.log body) ≡ none)
        × (log_journey child severity tags format args (parent ∷ hs) ≡ none)
  unfolding travel Option.bind
  log_journey_faults parent hs long =
      let packet = packet_of Forwarding.to_root Protobuf.log body in
      let full : length (take receive_buffer_size packet) ≡ receive_buffer_size = omega (
        arith,
        length-take receive_buffer_size packet,
        length-packet_of Forwarding.to_root Protobuf.log body,
      ) in
      let crash : read_packet parent packet ≡ none =
        receive_step_faults parent.env parent.incoming (take receive_buffer_size packet)
          parent.buffer parent.node (inl full) in
      (crash, log_leaves (parent ∷ hs) ∙ rw crash refl)
