-- ===== src/EspOld/Report.antt =====
-- The topology report in the old sketch and in `RemRouter`.
use respir_mesh.EspOld.State.{Call, EspOld}
use respir_mesh.EspOld.Packets.{
  completed, data_recv, forward_topo, handle_mesh_topo, pb_buffer_size, print_loop,
}
use respir_mesh.Router.Topo.{internal_buffer_size, packet_data_len, route_packet}
use respir_mesh.Router.Report.{Sends, route_packet-Sends, topo_body}
use respir_mesh.Node.Env.{Encodes, Env}
use respir_mesh.Node.State.{Node}
use respir_mesh.Wire.Assembly.{packet_of, read-copied, read-packet_of, relabel}
use respir_mesh.Wire.Forwarding
use respir_mesh.Wire.Header.{Field, header_size, read, set_size}
use respir_mesh.Wire.Messages.{RespirMeshInfo}
use respir_mesh.Wire.Protobuf
use respir_mesh.Wire.Unsized.{set_size-unsized, unsized}
use respir_mesh.Base.{
  each-idle, ℕ, ◌+◌, ◌≤◌, ◌<◌, List, [], ◌∷◌, ◌++◌, none, some, ◌≡◌, refl, ◌∙◌, ap, arith, take,
  length, overwrite, for_u8-each, for_u8-never, length-overwrite,
}

print_loop-ends : (end : ℕ) (s : EspOld) → end ≤ 255 → print_loop end s ≡ some s
unfolding print_loop
print_loop-ends end s small =
    for_u8-each end 256 0 end (λ i s. s) s (omega arith) small (omega arith)
    ∙ ap some (each-idle 0 end s)

print_loop-hangs : (end : ℕ) (s : EspOld) → 255 < end → print_loop end s ≡ none
unfolding print_loop
print_loop-hangs end s large = for_u8-never 256 0 end (λ i s. s) s (omega arith) large

module _ (env : Env) (enc : Encodes env) where
  -- What is sent for a decoded report, once its header is in `pb_buffer`.
  forward_topo-writes :
      (m : RespirMeshInfo) (body rest : List ℕ) (s : EspOld)
      → length s.pb_buffer ≡ pb_buffer_size
      → let copied =
          overwrite
            (take header_size
              (packet_of Forwarding.to_parent_to_root Protobuf.mesh_topology body ++ rest))
            s.pb_buffer in
        (t : EspOld) × (forward_topo env m (record s { pb_buffer = copied }) ≡ some t)
        × (t.calls
            ≡ s.calls
              ++ Call.parent_write (
                  unsized Forwarding.to_root Protobuf.mesh_topology
                    (topo_body env (completed env m))
                    copied)
                ∷ [])
  unfolding forward_topo
  forward_topo-writes m body rest s sized =
      let good = enc.info_status (completed env m) 59 (omega arith) in
      let room : length (topo_body env (completed env m)) ≤ 59 =
        enc.info_room (completed env m) 59 in
      let again =
        relabel Forwarding.to_root Forwarding.to_parent_to_root Protobuf.mesh_topology body rest
          s.pb_buffer (omega (arith, sized)) in
      let ends = λ (t : EspOld).
        print_loop-ends (length (topo_body env (completed env m)) + header_size + 3) t
          (omega arith) in
      rw (good, again) (rw ends (_, refl, refl))

module _ (env : Env) (enc : Encodes env) (body rest : List ℕ) (m : RespirMeshInfo) (s : EspOld)
    (w : Node) (sized_s : length s.pb_buffer ≡ pb_buffer_size)
    (sized_w : length w.router_buffer ≡ internal_buffer_size) where
  handle_mesh_topo-forward :
      length body + header_size + 10 ≤ 255
      → env.decode_info (body ++ rest) (length body) ≡ some m
      → let report = packet_of Forwarding.to_parent_to_root Protobuf.mesh_topology body ++ rest in
        handle_mesh_topo env report (length body + header_size) s
        ≡ forward_topo env m
            (record s { pb_buffer = overwrite (take header_size report) s.pb_buffer })
  unfolding handle_mesh_topo
  handle_mesh_topo-forward short decoded =
      let parts = read-packet_of Forwarding.to_parent_to_root Protobuf.mesh_topology body rest in
      let whole : packet_data_len (length body + header_size) ≡ length body = omega arith in
      let kind =
        read-copied Forwarding.to_parent_to_root Protobuf.mesh_topology body rest s.pb_buffer
          (omega (arith, sized_s)) in
      let ends = λ (t : EspOld). print_loop-ends (length body + header_size + 10) t short in
      rw ends (rw ends (rw (parts.2, whole, decoded) (rw ends (rw kind refl))))

  -- A topology report for the parent that decodes and is short enough to be printed is answered by
  -- the old sketch with one packet for its own parent, which is that of `RemRouter::route_packet`
  -- but for its size, which the router stamps and the old sketch does not.
  pub handle_mesh_topo-agrees :
      length body + header_size + 10 ≤ 255
      → env.decode_info (body ++ rest) (length body) ≡ some m
      → let report = packet_of Forwarding.to_parent_to_root Protobuf.mesh_topology body ++ rest in
        let size = length body + header_size in
        (t : EspOld) × (p : List ℕ) × (handle_mesh_topo env report size s ≡ some t)
        × (t.calls ≡ s.calls ++ Call.parent_write p ∷ [])
        × Sends (set_size (length p) p) w (route_packet env report size w).1
  handle_mesh_topo-agrees short decoded =
      let report = packet_of Forwarding.to_parent_to_root Protobuf.mesh_topology body ++ rest in
      let copied = overwrite (take header_size report) s.pb_buffer in
      let answer = topo_body env (completed env m) in
      let written = forward_topo-writes env enc m body rest s sized_s in
      let room : length answer ≤ 59 = enc.info_room (completed env m) 59 in
      let stamped =
        set_size-unsized Forwarding.to_root Protobuf.mesh_topology answer copied
          (omega (arith, length-overwrite (take header_size report) s.pb_buffer)) (omega arith) in
      (
        written.0,
        unsized Forwarding.to_root Protobuf.mesh_topology answer copied,
        handle_mesh_topo-forward short decoded ∙ written.1,
        written.2,
        rw stamped (route_packet-Sends env enc body rest m w sized_w (omega arith) decoded).1,
      )

-- A topology report of more than 245 bytes hangs the old sketch: the index of the loop that prints it
-- cannot reach its end.
pub data_recv-hangs :
    (env : Env) (bytes : List ℕ) (len : ℕ) (s : EspOld)
    → read Field.forwarding_type bytes ≡ Forwarding.to_parent_to_root
    → read Field.protobuf_type bytes ≡ Protobuf.mesh_topology
    → 245 < len
    → data_recv env bytes len s ≡ none
unfolding data_recv handle_mesh_topo
data_recv-hangs env bytes len s parent topo long =
    rw (parent, topo, print_loop-hangs (len + 10) s (omega arith)) refl
