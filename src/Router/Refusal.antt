-- ===== src/Router/Refusal.antt =====
-- Reports that `RemRouter::handle_mesh_topo` cannot use, and the length that it hands the decoder.
use respir_mesh.Base.{
  ℕ, ◌^◌, ◌≤◌, ◌<◌, ◌≡◌, refl, true, List, none, ◌↔◌, arith, take, drop, length, length-drop,
  overwrite, length-overwrite,
}
use respir_mesh.Wire.Protobuf
use respir_mesh.Wire.Header.{Field, header_size, read, set_size}
use respir_mesh.Wire.Framing.{read-set_size}
use respir_mesh.Node.Env.{Env}
use respir_mesh.Node.State.{Node}
use respir_mesh.Router.Topo.{
  packet_data_len, handle_mesh_topo, process_packet, route_packet, is_for_parent,
}

-- The length of the body that is handed to the decoder is the rest of the packet if and only if the
-- packet holds a header. For a shorter packet the 16-bit difference wraps, and the length passes the
-- end of every receive buffer of up to 65535 bytes.
pub packet_data_len_bounds :
    (size : ℕ) (buffer : List ℕ)
    → size ≤ length buffer
    → length buffer < 2 ^ 16
    → (packet_data_len size ≤ length (drop header_size buffer)) ↔ (header_size ≤ size)
packet_data_len_bounds size buffer fits small = (
  λ h. omega (arith, length-drop header_size buffer),
  λ h. omega (arith, length-drop header_size buffer),
)

module _ (env : Env) (buffer : List ℕ) (size : ℕ) (w : Node) where
  route_packet-handles :
      is_for_parent (read Field.forwarding_type buffer) ≡ true
      → read Field.protobuf_type buffer ≡ Protobuf.mesh_topology
      → (route_packet env buffer size w).1 ≡ handle_mesh_topo env (set_size size buffer) size w
  unfolding route_packet process_packet
  route_packet-handles up topo = ground (
    arith,
    read-set_size Field.forwarding_type size buffer (λ e. cc) (λ e. cc),
    read-set_size Field.protobuf_type size buffer (λ e. cc) (λ e. cc),
  )

  -- A topology packet for the parent that does not decode is dropped: nothing is sent, and only the
  -- header is left behind in `pb_buffer`, whose size stays.
  pub route_packet_undecodable :
      is_for_parent (read Field.forwarding_type buffer) ≡ true
      → read Field.protobuf_type buffer ≡ Protobuf.mesh_topology
      → let stamped = set_size size buffer in
        env.decode_info (drop header_size stamped) (packet_data_len size) ≡ none
        → let r = route_packet env buffer size w in
          (r.1 ≡ record w { router_buffer = overwrite (take header_size stamped) w.router_buffer })
          × (length r.1.router_buffer ≡ length w.router_buffer)
  unfolding handle_mesh_topo
  route_packet_undecodable up topo bad =
      rw (route_packet-handles up topo) (rw bad (refl, length-overwrite _ w.router_buffer))
