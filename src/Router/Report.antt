-- ===== src/Router/Report.antt =====
-- The topology report: a child sends its id to its parent, which adds its own id and sends the edge
-- on towards the root.
use respir_mesh.Base.{
  length-overwrite, ℕ, ◌+◌, ◌-◌, ◌^◌, ◌≤◌, ◌<◌, ◌≡◌, refl, sym, ◌∙◌, true, List, ◌++◌, some, arith,
  take, u8, u16, length, overwrite, overlay,
}
use respir_mesh.Wire.Forwarding
use respir_mesh.Wire.Protobuf
use respir_mesh.Wire.Header.{header_size, label}
use respir_mesh.Wire.Assembly.{
  read-copied, packet_of, length-packet_of, set_size-packet_of, read-packet_of, relabel,
}
use respir_mesh.Wire.Messages.{RespirMeshInfo}
use respir_mesh.Node.Env.{Env, Encoded, Encodes}
use respir_mesh.Node.State.{Node}
use respir_mesh.Router.Send.{is_rootward}
use respir_mesh.Router.Selection.{deliveries}
use respir_mesh.Router.Rootward.{rootward_deliveries}
use respir_mesh.Router.Topo.{
  internal_buffer_size, send_buffer, topo_of_self, send_mesh_topo, topo_of_child, forward_topo,
  packet_data_len, handle_mesh_topo, process_packet, route_packet,
}

-- Sending a report leaves alone all but the transports and `pb_buffer`, which keeps its size.
pub record Reported (w v : Node) : Type 0 where
  pub objects : v.objects ≡ w.objects
  pub fresh : v.fresh ≡ w.fresh
  pub client_ids : v.client_ids ≡ w.client_ids
  pub server_ids : v.server_ids ≡ w.server_ids
  pub channels : v.channels ≡ w.channels
  pub mesh_topo_looper : v.mesh_topo_looper ≡ w.mesh_topo_looper
  pub log_buffer : v.log_buffer ≡ w.log_buffer
  pub log_packet : v.log_packet ≡ w.log_packet
  pub reads : v.reads ≡ w.reads
  pub router_size : length v.router_buffer ≡ length w.router_buffer

-- A node that has sent a packet once to each channel connected to the root.
abbrev pub Sends : List ℕ → Node → Node → Type 0
Sends packet w v =
    (v.sent ≡ w.sent ++ deliveries (λ c. c.connected_to_root) w.objects packet w.channels)
    × Reported w v

module _ (env : Env) (forwarding protobuf : ℕ) (encoded : Encoded) (buffer : List ℕ)
    (w : Node) where
  send_buffer-Sends :
      is_rootward (u8 forwarding) ≡ true
      → encoded.status ≡ true
      → length encoded.bytes + header_size ≤ internal_buffer_size
      → length buffer ≡ internal_buffer_size
      → length w.router_buffer ≡ internal_buffer_size
      → Sends (packet_of forwarding protobuf encoded.bytes) w (
          send_buffer env encoded (record w {
            router_buffer = overlay header_size encoded.bytes (label forwarding protobuf buffer);
          }))
  unfolding send_buffer
  send_buffer-Sends up good room sized before =
      let size : ℕ = length encoded.bytes + header_size in
      let whole : u16 (length encoded.bytes + header_size) ≡ size = omega arith in
      let d =
        rootward_deliveries env forwarding protobuf encoded.bytes buffer
          (record w {
            router_buffer = overlay header_size encoded.bytes (label forwarding protobuf buffer);
          })
          up (omega arith) (omega arith) in
      let kept = d.2 in
      rw (good, whole)
        (
          d.1,
          record {
            objects = kept.objects;
            fresh = kept.fresh;
            client_ids = kept.client_ids;
            server_ids = kept.server_ids;
            channels = kept.channels;
            mesh_topo_looper = kept.mesh_topo_looper;
            log_buffer = kept.log_buffer;
            log_packet = kept.log_packet;
            reads = kept.reads;
            router_size = d.0 ∙ sized ∙ sym before;
          },
        )

-- The encoded body of a report.
abbrev pub topo_body : Env → RespirMeshInfo → List ℕ
topo_body env m = (env.encode_info m (internal_buffer_size - header_size)).bytes

module _ (env : Env) (enc : Encodes env) (w : Node)
    (sized : length w.router_buffer ≡ internal_buffer_size) where
  -- If nanopb keeps its promises, `send_mesh_topo` sends one packet to each channel connected to the
  -- root: addressed to the parent for the root, with the id of the node as the source and 0 as the
  -- target of the topology message.
  pub send_mesh_topo-Sends :
      Sends
        (packet_of Forwarding.to_parent_to_root Protobuf.mesh_topology (
          topo_body env
            (record { target_id = 0; source_id = env.device_id; kind = Protobuf.mesh_topology })))
        w
        (send_mesh_topo env w)
  unfolding send_mesh_topo is_rootward
  send_mesh_topo-Sends =
      send_buffer-Sends env Forwarding.to_parent_to_root Protobuf.mesh_topology
        (env.encode_info (topo_of_self env) (internal_buffer_size - header_size)) w.router_buffer w
        refl (enc.info_status (topo_of_self env) 59 (omega arith))
        (omega (arith, enc.info_room (topo_of_self env) 59)) sized sized

-- The router's buffer after `memcpy` of the header of a received packet.
abbrev pub copied : List ℕ → List ℕ → List ℕ → List ℕ
copied body rest buffer =
    overwrite
      (take header_size
        (packet_of Forwarding.to_parent_to_root Protobuf.mesh_topology body ++ rest))
      buffer

module _ (env : Env) (body rest : List ℕ) (m : RespirMeshInfo) (w : Node) where
  handle_mesh_topo-forward :
      header_size ≤ length w.router_buffer
      → length body + header_size < 2 ^ 16
      → env.decode_info (body ++ rest) (length body) ≡ some m
      → handle_mesh_topo env
          (packet_of Forwarding.to_parent_to_root Protobuf.mesh_topology body ++ rest)
          (length body + header_size)
          w
        ≡ forward_topo env m (record w { router_buffer = copied body rest w.router_buffer })
  unfolding handle_mesh_topo
  handle_mesh_topo-forward room small decoded =
      let parts = read-packet_of Forwarding.to_parent_to_root Protobuf.mesh_topology body rest in
      let whole : packet_data_len (length body + header_size) ≡ length body = omega arith in
      let kind =
        read-copied Forwarding.to_parent_to_root Protobuf.mesh_topology body rest w.router_buffer
          room in
      rw (parts.2, whole, decoded) (rw kind refl)

module _ (env : Env) (enc : Encodes env) (body rest : List ℕ) (m : RespirMeshInfo) (w : Node)
    (sized : length w.router_buffer ≡ internal_buffer_size)
    (small : length body + header_size < 2 ^ 16) where
  -- Such a report is completed and sent on.
  pub route_packet-forward :
      env.decode_info (body ++ rest) (length body) ≡ some m
      → let packet = packet_of Forwarding.to_parent_to_root Protobuf.mesh_topology body in
        let r = route_packet env (packet ++ rest) (length body + header_size) w in
        (r.0 ≡ packet ++ rest)
        × (r.1 ≡ forward_topo env m (record w { router_buffer = copied body rest w.router_buffer }))
  unfolding route_packet process_packet
  route_packet-forward decoded =
      let parts = read-packet_of Forwarding.to_parent_to_root Protobuf.mesh_topology body rest in
      let stamp =
        set_size-packet_of Forwarding.to_parent_to_root Protobuf.mesh_topology body rest small in
      let forwarded = handle_mesh_topo-forward env body rest m w (omega arith) small decoded in
      rw (stamp, parts.0, parts.1, forwarded) (refl, refl)

  -- A topology report for the parent that decodes is answered by one packet towards the root, to
  -- each channel connected to it: the source of the report stays, the target is this node.
  pub route_packet-Sends :
      env.decode_info (body ++ rest) (length body) ≡ some m
      → let packet = packet_of Forwarding.to_parent_to_root Protobuf.mesh_topology body in
        let r = route_packet env (packet ++ rest) (length body + header_size) w in
        (r.0 ≡ packet ++ rest)
        × Sends
            (packet_of Forwarding.to_root Protobuf.mesh_topology (
              topo_body env (record {
                target_id = env.device_id;
                source_id = m.source_id;
                kind = Protobuf.mesh_topology;
              })))
            w
            r.1
  unfolding forward_topo is_rootward
  route_packet-Sends decoded =
      let (kept, forwarded) = route_packet-forward decoded in
      let buffer = copied body rest w.router_buffer in
      let label_again =
        relabel Forwarding.to_root Forwarding.to_parent_to_root Protobuf.mesh_topology body rest
          w.router_buffer (omega arith) in
      let encoded = env.encode_info (topo_of_child env m) (internal_buffer_size - header_size) in
      let sends =
        send_buffer-Sends env Forwarding.to_root Protobuf.mesh_topology encoded buffer w refl
          (enc.info_status (topo_of_child env m) 59 (omega arith))
          (omega (arith, enc.info_room (topo_of_child env m) 59))
          (length-overwrite _ w.router_buffer ∙ sized) sized in
      (kept, rw (forwarded, label_again) sends)

module _ (child parent : Env) (enc_child : Encodes child) (enc_parent : Encodes parent)
    (agree : (m : RespirMeshInfo) (rest : List ℕ)
      → parent.decode_info (topo_body child m ++ rest) (length (topo_body child m)) ≡ some m) where
  -- If the parent decodes what the child encodes, the report that a child sends, arriving whole at
  -- its parent with anything behind it in the receive buffer, makes the parent send towards the root
  -- one packet that names the child as the source and the parent as the target of the edge.
  pub report_names_edge :
      (w v : Node) (rest : List ℕ)
      → length w.router_buffer ≡ internal_buffer_size
      → length v.router_buffer ≡ internal_buffer_size
      → let report =
          packet_of Forwarding.to_parent_to_root Protobuf.mesh_topology
            (topo_body child (topo_of_self child)) in
        Sends report w (send_mesh_topo child w)
        × Sends
            (packet_of Forwarding.to_root Protobuf.mesh_topology (
              topo_body parent (record {
                target_id = parent.device_id;
                source_id = child.device_id;
                kind = Protobuf.mesh_topology;
              })))
            v
            (route_packet parent (report ++ rest) (length report) v).1
  report_names_edge w v rest sized_w sized_v =
      let body = topo_body child (topo_of_self child) in
      let size = length-packet_of Forwarding.to_parent_to_root Protobuf.mesh_topology body in
      let room : length body ≤ 59 = enc_child.info_room (topo_of_self child) 59 in
      (
        send_mesh_topo-Sends child enc_child w sized_w,
        rw size
            (route_packet-Sends parent enc_parent body rest (topo_of_self child) v sized_v
              (omega arith) (agree (topo_of_self child) rest)).1,
      )
