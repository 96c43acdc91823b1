-- ===== src/Router/Tests.antt =====
-- Packets that pass through a concrete node.
use respir_mesh.Node.Env.{Encodes, Env}
use respir_mesh.Wire.Messages.{RespirMeshInfo}
use respir_mesh.Router.Selection.{send_packet-deliveries}
use respir_mesh.Router.Periodic.{updates, update-begin_reports}
use respir_mesh.Channel.Delivery.{Untouched}
use respir_mesh.Router.Relay.{route_packet_merges}
use respir_mesh.Channel.{send}
use respir_mesh.Router.Send.{is_rootward, send_all, send_packet}
use respir_mesh.Wire.Header.{get_size, set_size, read}
use respir_mesh.Wire.Assembly.{packet_of}
use respir_mesh.Router.Race.{racing_reports, self_encoded, write_mesh_topo}
use respir_mesh.Router.Topo.{send_buffer, begin, update, route_packet}
use respir_mesh.Router.Send.{is_neighborly, is_rootward}
use respir_mesh.Base.{
  ltb, ◌==◌, if◌then◌else◌, ◌≤◌, take, ℕ, length, List, leb, length-take, refl, arith, ◌≢◌, ◌≡◌, [],
  ◌++◌, ◌∷◌,
}
use respir_mesh.Wire.Forwarding
use respir_mesh.Wire.Protobuf
use respir_mesh.Sample.{packet-kind, packet-IsFramed, env-Encodes, node, packet, env}

send_packet-deliveries_example :
    let r = send_packet (env 7) packet 7 node in
    (r.0 ≡ packet) × (r.1.sent ≡ [] ++ (0, packet) ∷ []) × Untouched node r.1
unfolding set_size read is_rootward
send_packet-deliveries_example = send_packet-deliveries (env 7) packet 7 node

-- For the neighbours, both clients transmit, and the server does not.
send_packet_neighbors :
    (send_packet (env 7) (7 ∷ 0 ∷ 6 ∷ 0 ∷ 9 ∷ 1 ∷ 2 ∷ []) 7 node).1.sent
    ≡ (0, 7 ∷ 0 ∷ 6 ∷ 0 ∷ 9 ∷ 1 ∷ 2 ∷ []) ∷ (1, 7 ∷ 0 ∷ 6 ∷ 0 ∷ 9 ∷ 1 ∷ 2 ∷ []) ∷ []
unfolding send_packet set_size read send_all send is_rootward is_neighborly
send_packet_neighbors = refl

route_packet_merges_example :
    let merged = set_size 14 (packet ++ packet) in
    ((route_packet (env 7) (packet ++ packet) 14 node).1.sent ≡ (0, merged) ∷ [])
    × (get_size merged ≡ 14)
    × (get_size merged ≢ get_size packet)
route_packet_merges_example =
    route_packet_merges (env 7) packet packet node packet-IsFramed (λ e. cc) (omega arith)
      packet-kind

-- An encoder that leaves out a target of 0, as proto3 does.
abbrev omitting : Env
omitting = record (env 7) {
  encode_info = λ m n. record {
    status = leb 14 n;
    bytes = take n (
        if m.target_id == 0
        then m.source_id ∷ m.kind ∷ []
        else m.target_id ∷ m.source_id ∷ m.kind ∷ []);
  };
}

abbrev fields : RespirMeshInfo → List ℕ
fields m =
    if m.target_id == 0 then m.source_id ∷ m.kind ∷ [] else m.target_id ∷ m.source_id ∷ m.kind ∷ []

length-fields : (m : RespirMeshInfo) → length (fields m) ≤ 3
length-fields m = ground arith

omitting-Encodes : Encodes omitting
omitting-Encodes =
    let e = env-Encodes 7 in
    record {
      info_room = λ m n. omega (arith, length-take n (fields m));
      log_room = e.log_room;
      info_size = λ m n. omega (arith, length-take n (fields m), length-fields m);
      info_status = λ m n h. ground arith;
      log_status = e.log_status;
    }

-- Nodes 7 and 9: the edge from 9 to 7 is sent, then its first two bytes of three, and no report of 7.
racing_reports_example :
    let report =
      packet_of Forwarding.to_parent_to_root Protobuf.mesh_topology
        (0 ∷ 9 ∷ Protobuf.mesh_topology ∷ []) in
    let edge =
      packet_of Forwarding.to_root Protobuf.mesh_topology (7 ∷ 9 ∷ Protobuf.mesh_topology ∷ []) in
    let cut = packet_of Forwarding.to_root Protobuf.mesh_topology (7 ∷ 9 ∷ []) in
    (send_buffer omitting
      (self_encoded omitting)
      (route_packet omitting (report ++ []) 8 (write_mesh_topo omitting node)).1).sent
    ≡ (0, edge) ∷ (0, cut) ∷ []
racing_reports_example =
    racing_reports omitting omitting-Encodes (0 ∷ 9 ∷ Protobuf.mesh_topology ∷ []) []
      (record { target_id = 0; source_id = 9; kind = Protobuf.mesh_topology }) node refl
      (omega arith) refl (omega arith)

-- A clock that shows 100 up to its fifth reading.
abbrev slow : Env
slow = record (env 7) { clock = λ n. if ltb n 5 then 100 else 101 }

slow-Encodes : Encodes slow
slow-Encodes =
    let e = env-Encodes 7 in
    record {
      info_room = e.info_room;
      log_room = e.log_room;
      info_size = e.info_size;
      info_status = e.info_status;
      log_status = e.log_status;
    }

-- Two updates wait, and the third one sends.
update-begin_reports_example :
    let v = updates slow 2 (begin slow node) in
    (v.sent ≡ [])
    × ((update slow v).sent
        ≡ (
          0,
          packet_of Forwarding.to_parent_to_root Protobuf.mesh_topology
              (0 ∷ 7 ∷ Protobuf.mesh_topology ∷ []),
        )
          ∷ [])
update-begin_reports_example =
    update-begin_reports slow slow-Encodes node refl 2 (omega arith) (λ k small. ground arith)
      (omega arith)
