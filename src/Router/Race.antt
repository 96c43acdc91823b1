-- ===== src/Router/Race.antt =====
-- The main thread reports its topology while a reading thread answers the report of a child. Both put
-- their packets together in the one `pb_buffer` of the router.
use respir_mesh.Node.Env.{Encoded, Encodes, Env}
use respir_mesh.Node.State.{Node}
use respir_mesh.Router.Report.{copied, route_packet-Sends, route_packet-forward, topo_body}
use respir_mesh.Router.Selection.{deliveries, selects, selects-rootward, send_packet-deliveries}
use respir_mesh.Router.Send.{is_rootward}
use respir_mesh.Router.Topo.{
  forward_topo, internal_buffer_size, route_packet, send_buffer, send_mesh_topo, topo_of_child,
  topo_of_self,
}
use respir_mesh.Wire.Assembly.{
  take-assembled_short, length-assembled, packet_of, read-assembled, relabel,
}
use respir_mesh.Wire.Forwarding
use respir_mesh.Wire.Framing.{read-set_size}
use respir_mesh.Wire.Header.{Field, header_size, label, read, set_size}
use respir_mesh.Wire.Messages.{RespirMeshInfo}
use respir_mesh.Wire.Protobuf
use respir_mesh.Base.{
  ℕ, ◌+◌, ◌-◌, ◌≤◌, ◌<◌, ◌^◌, ◌≡◌, refl, ◌∙◌, ap, List, [], ◌∷◌, ◌++◌, some, true, arith, length,
  take, u16, overlay, length-overwrite,
}

-- `send_mesh_topo` up to its test of the encoder, and with what it has encoded.
abbrev pub self_encoded : Env → Encoded
self_encoded env = env.encode_info (topo_of_self env) (internal_buffer_size - header_size)

unfoldable pub write_mesh_topo : Env → Node → Node
write_mesh_topo env w = record w {
  router_buffer =
      overlay header_size (self_encoded env).bytes
        (label Forwarding.to_parent_to_root Protobuf.mesh_topology w.router_buffer);
}

send_mesh_topo-write_mesh_topo :
    (env : Env) (w : Node)
    → send_mesh_topo env w ≡ send_buffer env (self_encoded env) (write_mesh_topo env w)
unfolding send_mesh_topo write_mesh_topo
send_mesh_topo-write_mesh_topo env w = refl

set_size-set_size : (m n : ℕ) (buffer : List ℕ) → set_size m (set_size n buffer) ≡ set_size m buffer
unfolding set_size
set_size-set_size m n [] = refl
set_size-set_size m n (a ∷ []) = refl
set_size-set_size m n (a ∷ b ∷ rest) = refl

-- What `send_buffer` leaves in the buffer.
send_buffer-set_size :
    (env : Env) (encoded : Encoded) (w : Node)
    → encoded.status ≡ true
    → (send_buffer env encoded w).router_buffer
      ≡ set_size (u16 (length encoded.bytes + header_size)) w.router_buffer
unfolding send_buffer
send_buffer-set_size env encoded w good =
    rw good
      (send_packet-deliveries env w.router_buffer (u16 (length encoded.bytes + header_size)) w).0

module _ (env : Env) (encoded : Encoded) (answer buffer : List ℕ) (t : Node) where
  -- A sender that finds another packet in the buffer sends as much of that one as its own takes.
  sends_other :
      let size = length answer + header_size in
      encoded.status ≡ true
      → length encoded.bytes ≤ length answer
      → size ≤ internal_buffer_size
      → length buffer ≡ internal_buffer_size
      → t.router_buffer
        ≡ set_size size
            (overlay header_size answer (label Forwarding.to_root Protobuf.mesh_topology buffer))
      → (send_buffer env encoded t).sent
        ≡ t.sent
          ++ deliveries
              (λ c. c.connected_to_root)
              t.objects
              (packet_of Forwarding.to_root Protobuf.mesh_topology
                (take (length encoded.bytes) answer))
              t.channels
  unfolding send_buffer is_rootward
  sends_other good same room sized found =
      let size : ℕ = length answer + header_size in
      let own : ℕ = length encoded.bytes + header_size in
      let assembled =
        overlay header_size answer (label Forwarding.to_root Protobuf.mesh_topology buffer) in
      let whole : u16 (length encoded.bytes + header_size) ≡ own = omega arith in
      let labels =
        read-assembled Forwarding.to_root Protobuf.mesh_topology answer buffer (omega arith) in
      let kind : read Field.forwarding_type t.router_buffer ≡ Forwarding.to_root =
        ap (read Field.forwarding_type) found
        ∙ read-set_size Field.forwarding_type size assembled (λ e. cc) (λ e. cc)
        ∙ labels.0 in
      let packet : take own (set_size own t.router_buffer)
          ≡ packet_of Forwarding.to_root Protobuf.mesh_topology
              (take (length encoded.bytes) answer) =
        ap (λ b. take own (set_size own b)) found
        ∙ ap (take own) (set_size-set_size own size assembled)
        ∙ take-assembled_short Forwarding.to_root Protobuf.mesh_topology (length encoded.bytes)
            answer buffer same (omega arith) (omega arith) in
      rw (good, whole)
        ((send_packet-deliveries env t.router_buffer own t).1
          ∙ ap
              (λ sel.
                t.sent
                ++ deliveries sel t.objects (take own (set_size own t.router_buffer)) t.channels)
              (ap selects kind ∙ selects-rootward Forwarding.to_root refl)
          ∙ ap (λ b. t.sent ++ deliveries (λ c. c.connected_to_root) t.objects b t.channels) packet)

module _ (env : Env) (enc : Encodes env) (body rest : List ℕ) (m : RespirMeshInfo) (w : Node) where
  -- The reading thread answers the report of a child between the two halves of the report of its own
  -- node. If nanopb keeps its promises, the buffer of the router has its size, the report of the child
  -- decodes and the encoded report of the node is no longer than the encoded edge (it leaves out the
  -- target, which is 0), then each channel connected to the root gets the edge of the child, and then
  -- not the report of the node, but a packet for the root with the start of that edge, cut to the length
  -- of the report.
  pub racing_reports :
      let packet = packet_of Forwarding.to_parent_to_root Protobuf.mesh_topology body in
      let answer = topo_body env (topo_of_child env m) in
      let own = length (self_encoded env).bytes in
      let rootward = λ (bytes : List ℕ).
        deliveries
          (λ c. c.connected_to_root)
          w.objects
          (packet_of Forwarding.to_root Protobuf.mesh_topology bytes)
          w.channels in
      let t =
        (route_packet env (packet ++ rest) (length body + header_size) (write_mesh_topo env w)).1 in
      length w.router_buffer ≡ internal_buffer_size
      → length body + header_size < 2 ^ 16
      → env.decode_info (body ++ rest) (length body) ≡ some m
      → own ≤ length answer
      → (send_buffer env (self_encoded env) t).sent
        ≡ (w.sent ++ rootward answer) ++ rootward (take own answer)
  unfolding write_mesh_topo forward_topo
  racing_reports sized small decoded same =
      let v = write_mesh_topo env w in
      let encoded = env.encode_info (topo_of_child env m) (internal_buffer_size - header_size) in
      let answer = topo_body env (topo_of_child env m) in
      let room : length answer ≤ 59 = enc.info_room (topo_of_child env m) 59 in
      let size : length v.router_buffer ≡ internal_buffer_size =
        length-assembled Forwarding.to_parent_to_root Protobuf.mesh_topology
          (self_encoded env).bytes w.router_buffer
        ∙ sized in
      let (kept, (sent, reported)) = route_packet-Sends env enc body rest m v size small decoded in
      let (same_bytes, forwarded) = route_packet-forward env enc body rest m v size small decoded in
      let buffer = copied body rest v.router_buffer in
      let t =
        (route_packet env
          (packet_of Forwarding.to_parent_to_root Protobuf.mesh_topology body ++ rest)
          (length body + header_size) v).1 in
      let whole : u16 (length answer + header_size) ≡ length answer + header_size = omega arith in
      let label_again =
        relabel Forwarding.to_root Forwarding.to_parent_to_root Protobuf.mesh_topology body rest
          v.router_buffer (omega (arith, size)) in
      let answered = record v {
        router_buffer =
            overlay header_size answer (label Forwarding.to_root Protobuf.mesh_topology buffer);
      } in
      let step : t ≡ send_buffer env encoded answered = forwarded ∙ rw label_again refl in
      let found : t.router_buffer ≡ set_size (length answer + header_size) answered.router_buffer =
        ap (λ u. u.router_buffer) step
        ∙ send_buffer-set_size env encoded answered
            (enc.info_status (topo_of_child env m) 59 (omega arith))
        ∙ rw whole refl in
      sends_other env (self_encoded env) answer buffer t
        (enc.info_status (topo_of_self env) 59 (omega arith)) same (omega (arith, room))
        (length-overwrite _ v.router_buffer ∙ size) found
      ∙ rw (sent, reported.objects, reported.channels) refl
