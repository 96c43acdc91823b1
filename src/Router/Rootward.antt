-- ===== src/Router/Rootward.antt =====
-- Packets that a node originates: labelled, assembled in a buffer and sent towards the root.
use respir_mesh.Base.{
  ℕ, ◌+◌, ◌≤◌, ◌<◌, ◌^◌, ◌≡◌, ◌∙◌, ap, List, ◌++◌, true, arith, u8, length, overlay,
}
use respir_mesh.Wire.Header.{header_size, label}
use respir_mesh.Wire.Framing.{length-set_size}
use respir_mesh.Wire.Assembly.{packet_of, take-assembled, read-assembled, length-assembled}
use respir_mesh.Node.Env.{Env}
use respir_mesh.Node.State.{Node}
use respir_mesh.Channel.Delivery.{Untouched}
use respir_mesh.Router.Send.{send_packet, is_rootward}
use respir_mesh.Router.Selection.{deliveries, send_packet-deliveries, selects-rootward}

-- A packet labelled for the root, in a buffer with room for it, goes out on the channels connected
-- to the root.
pub rootward_deliveries :
    (env : Env) (forwarding protobuf : ℕ) (body buffer : List ℕ) (w : Node)
    → is_rootward (u8 forwarding) ≡ true
    → length body + header_size ≤ length buffer
    → length body + header_size < 2 ^ 16
    → let assembled = overlay header_size body (label forwarding protobuf buffer) in
      let r = send_packet env assembled (length body + header_size) w in
      (length r.0 ≡ length buffer)
      × (r.1.sent
          ≡ w.sent
            ++ deliveries
                (λ c. c.connected_to_root)
                w.objects
                (packet_of forwarding protobuf body)
                w.channels)
      × Untouched w r.1
rootward_deliveries env forwarding protobuf body buffer w up room small =
    let assembled = overlay header_size body (label forwarding protobuf buffer) in
    let size : ℕ = length body + header_size in
    let d = send_packet-deliveries env assembled size w in
    let labels = read-assembled forwarding protobuf body buffer (omega arith) in
    (
      ap length d.0
          ∙ length-set_size size assembled
          ∙ length-assembled forwarding protobuf body buffer,
      rw
          (
            ← selects-rootward (u8 forwarding) up,
            ← labels.0,
            ← take-assembled forwarding protobuf body buffer room small,
          )
          d.1,
      d.2,
    )
