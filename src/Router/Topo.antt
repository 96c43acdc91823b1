-- ===== src/Router/Topo.antt =====
-- The rest of RemCppCommon/RemRouter.cpp: what a node does with a packet that it receives, and the
-- topology report that it sends and passes on.
use respir_mesh.Base.{
  ℕ, ◌+◌, ◌-◌, ◌^◌, Bool, List, Option, none, some, ◌==◌, ◌||◌, ◌&&◌, ltb, if◌then◌else◌, u16, take,
  drop, length, overwrite, overlay,
}
use respir_mesh.Wire.Forwarding
use respir_mesh.Wire.Protobuf
use respir_mesh.Wire.Header.{Field, header_size, read, write, set_size, label}
use respir_mesh.Wire.Messages.{RespirMeshInfo, info_init_default}
use respir_mesh.Looper
use respir_mesh.Looper.{TaskLooper}
use respir_mesh.Node.Env.{Env, Encoded}
use respir_mesh.Node.State.{Node}
use respir_mesh.Router.Send.{send_packet, send_connected}

-- `INTERNAL_BUFFER_ZISE`, the size of `pb_buffer`.
abbrev pub internal_buffer_size : ℕ
internal_buffer_size = 64

abbrev pub is_for_parent : ℕ → Bool
is_for_parent kind =
    kind == Forwarding.parent_and_back
    || kind == Forwarding.to_parent
    || kind == Forwarding.to_parent_to_root

-- The length of the body is computed in 16 bits.
abbrev pub packet_data_len : ℕ → ℕ
packet_data_len size = u16 (size + 2 ^ 16 - header_size)

-- Whether a packet of this size in this buffer gets the decoder a length past the end of the buffer: a
-- topology packet of less than five bytes, whose length wraps around to about 64 KB.
abbrev pub overreads : List ℕ → ℕ → Bool
overreads buffer size =
    is_for_parent (read Field.forwarding_type buffer)
    && read Field.protobuf_type buffer == Protobuf.mesh_topology
    && ltb (length buffer) (header_size + packet_data_len size)

module _ (env : Env) where
  -- After `pb_encode` into `pb_buffer`: nothing more if it failed, else the packet is sent.
  unfoldable pub send_buffer : Encoded → Node → Node
  send_buffer encoded w =
      let size = u16 (length encoded.bytes + header_size) in
      let (buffer, v) = send_packet env w.router_buffer size w in
      if encoded.status then record v { router_buffer = buffer } else w

  abbrev pub topo_of_self : RespirMeshInfo
  topo_of_self = record info_init_default {
    source_id = env.device_id;
    kind = Protobuf.mesh_topology;
  }

  unfoldable pub send_mesh_topo : Node → Node
  unfolding send_buffer
  send_mesh_topo w =
      let encoded = env.encode_info topo_of_self (internal_buffer_size - header_size) in
      send_buffer encoded (record w {
        router_buffer =
            overlay header_size encoded.bytes
              (label Forwarding.to_parent_to_root Protobuf.mesh_topology w.router_buffer);
      })

  -- What the parent adds to the report of a child.
  abbrev pub topo_of_child : RespirMeshInfo → RespirMeshInfo
  topo_of_child mesh_topo = record mesh_topo {
    kind = Protobuf.mesh_topology;
    target_id = env.device_id;
  }

  unfoldable pub forward_topo : RespirMeshInfo → Node → Node
  unfolding send_buffer
  forward_topo mesh_topo w =
      let encoded =
        env.encode_info (topo_of_child mesh_topo) (internal_buffer_size - header_size) in
      send_buffer encoded (record w {
        router_buffer =
            overlay header_size encoded.bytes
              (write Field.forwarding_type Forwarding.to_root w.router_buffer);
      })

  abbrev pub after_decode : Option RespirMeshInfo → Node → Node
  after_decode none w = w
  after_decode (some mesh_topo) w =
      if read Field.forwarding_type w.router_buffer == Forwarding.to_parent_to_root
      then forward_topo mesh_topo w
      else w

  -- For a body that lies within the buffer; `receive_fn` of the orchestrator is undefined for others.
  unfoldable pub handle_mesh_topo : List ℕ → ℕ → Node → Node
  unfolding forward_topo
  handle_mesh_topo buffer size w =
      after_decode (env.decode_info (drop header_size buffer) (packet_data_len size))
        (record w { router_buffer = overwrite (take header_size buffer) w.router_buffer })

  unfoldable pub process_packet : List ℕ → ℕ → Node → Node
  process_packet buffer size w =
      if read Field.protobuf_type buffer == Protobuf.mesh_topology
      then handle_mesh_topo buffer size w
      else w

  abbrev pub route : ℕ → List ℕ → ℕ → Node → Node
  route kind buffer size w =
      if kind == Forwarding.to_root
      then send_connected env w.channels buffer size w
      else if is_for_parent kind
      then process_packet buffer size w
      else w

  -- The buffer belongs to the caller, who gets it back with the size in its header.
  unfoldable pub route_packet : List ℕ → ℕ → Node → List ℕ × Node
  route_packet buffer size w =
      let stamped = set_size size buffer in
      (stamped, route (read Field.forwarding_type stamped) stamped size w)

  -- The three calls on `mesh_topo_looper`.
  unfoldable pub begin : Node → Node
  begin w =
      let (started, r) = Looper.begin env.clock w.mesh_topo_looper w.reads in
      let (paced, s) = Looper.set_interval env.clock 8000 started r in
      let (due, t) = Looper.now env.clock paced s in record w { mesh_topo_looper = due; reads = t }

  unfoldable pub update : Node → Node
  update w =
      let (due, looper, reads) = Looper.check env.clock w.mesh_topo_looper w.reads in
      let v = record w { mesh_topo_looper = looper; reads = reads } in
      if due then send_mesh_topo v else v
