-- ===== src/Logger/Delivery.antt =====
-- A log line reaches the channels towards the root as one LOG packet.
use Prim.Native.String.{String}
use respir_mesh.Base.{
  ◌∙◌, ℕ, suc, ◌+◌, ◌-◌, ◌≤◌, ◌<◌, ◌^◌, ◌≡◌, refl, List, [], ◌∷◌, ◌++◌, some, true, arith, length,
  take, c_string, overlay,
}
use respir_mesh.Wire.Forwarding
use respir_mesh.Wire.Protobuf
use respir_mesh.Wire.Header.{header_size, label}
use respir_mesh.Wire.Assembly.{packet_of}
use respir_mesh.Wire.Messages.{Severity, message_size}
use respir_mesh.Node.Env.{Env, Encodes, Arg}
use respir_mesh.Node.State.{Node}
use respir_mesh.Router.Send.{send_packet, is_rootward}
use respir_mesh.Router.Selection.{deliveries}
use respir_mesh.Router.Rootward.{rootward_deliveries}
use respir_mesh.Node.Fault.{M}
use respir_mesh.Logger.{
  LogReturn, packet_size, log_string_buffer_size, log_packet_size, log_message, send_log_packet,
  logger,
}

-- The text of a log line as it stands in `message`.
abbrev pub log_text : Env → String → List Arg → List ℕ
log_text env format args = c_string (take (log_string_buffer_size - 1) (env.vsnprintf format args))

-- The encoded message of a log line.
abbrev pub log_body : Env → Severity → List ℕ → Node → List ℕ
log_body env severity text w =
    (env.encode_log (log_message env severity text w) (log_packet_size - header_size)).bytes

-- What logging leaves alone: all but the transports, the clock and the logger's own buffers.
pub record Logged (w v : Node) : Type 0 where
  pub objects : v.objects ≡ w.objects
  pub fresh : v.fresh ≡ w.fresh
  pub client_ids : v.client_ids ≡ w.client_ids
  pub server_ids : v.server_ids ≡ w.server_ids
  pub channels : v.channels ≡ w.channels
  pub router_buffer : v.router_buffer ≡ w.router_buffer
  pub mesh_topo_looper : v.mesh_topo_looper ≡ w.mesh_topo_looper
  pub log_size : length v.log_packet ≡ length w.log_packet

pub Logged-refl : (w : Node) → Logged w w
Logged-refl w = record {
  objects = refl;
  fresh = refl;
  client_ids = refl;
  server_ids = refl;
  channels = refl;
  router_buffer = refl;
  mesh_topo_looper = refl;
  log_size = refl;
}

pub Logged-trans : {u v w : Node} → Logged u v → Logged v w → Logged u w
Logged-trans a b = record {
  objects = b.objects ∙ a.objects;
  fresh = b.fresh ∙ a.fresh;
  client_ids = b.client_ids ∙ a.client_ids;
  server_ids = b.server_ids ∙ a.server_ids;
  channels = b.channels ∙ a.channels;
  router_buffer = b.router_buffer ∙ a.router_buffer;
  mesh_topo_looper = b.mesh_topo_looper ∙ a.mesh_topo_looper;
  log_size = b.log_size ∙ a.log_size;
}

module _ (env : Env) (error : M LogReturn) (severity : Severity) (message : List ℕ) (w : Node) where
  send_log_packet_encoded :
      let text = c_string message in
      let encoded =
        env.encode_log (log_message env severity text w) (log_packet_size - header_size) in
      let assembled =
        overlay header_size encoded.bytes (label Forwarding.to_root Protobuf.log w.log_packet) in
      let ready = record w { reads = w.reads + 1; log_packet = assembled } in
      let size = length encoded.bytes + header_size in
      let r = send_packet env assembled size ready in
      length text < message_size
      → encoded.status ≡ true
      → size < 2 ^ 16
      → send_log_packet env error severity message w
        ≡ some (packet_size size, record r.1 { log_packet = r.0 })
  unfolding send_log_packet
  send_log_packet_encoded short good small = ground arith

module _ (env : Env) (enc : Encodes env) (severity : Severity) (tags format : String)
    (args : List Arg) (w : Node) where
  -- If nanopb keeps its promises and the text, cut to `log_buffer`, is shorter than the message
  -- field, a logging call returns normally: it hands one LOG packet, addressed to the root and with
  -- the encoded message as its body, to each channel connected to the root in the order of the list,
  -- returns the size of that packet, and leaves the
  -- rest of the node alone but for one reading of the clock.
  pub logger_delivers :
      (depth : ℕ)
      → length w.log_packet ≡ log_packet_size
      → length (log_text env format args) < message_size
      → let body = log_body env severity (log_text env format args) w in
        (v : Node) × (logger env (suc depth) severity tags format args w
          ≡ some (packet_size (length body + header_size), v))
        × (v.sent
            ≡ w.sent
              ++ deliveries
                  (λ c. c.connected_to_root)
                  w.objects
                  (packet_of Forwarding.to_root Protobuf.log body)
                  w.channels)
        × Logged w v
        × (v.reads ≡ w.reads + 1)
  unfolding logger is_rootward
  logger_delivers depth sized short =
      let raw = take (log_string_buffer_size - 1) (env.vsnprintf format args) in
      let text = c_string raw in
      let m = log_message env severity text w in
      let body = log_body env severity text w in
      let room : length body ≤ 595 = enc.log_room m 595 in
      let assembled =
        overlay header_size body (label Forwarding.to_root Protobuf.log w.log_packet) in
      let ready = record w { log_buffer = raw; reads = w.reads + 1; log_packet = assembled } in
      let size : ℕ = length body + header_size in
      let r = send_packet env assembled size ready in
      let d =
        rootward_deliveries env Forwarding.to_root Protobuf.log body w.log_packet ready refl
          (omega arith) (omega arith) in
      let kept = d.2 in
      (
        record r.1 { log_packet = r.0 },
        send_log_packet_encoded env
            (logger env depth Severity.err "[ERR]" "Encoding Mesh Topology failed: %s\n"
              (Arg.text env.pb_error ∷ []))
            severity raw (record w { log_buffer = raw }) short
            (enc.log_status m 595 (omega arith) short) (omega arith),
        d.1,
        record {
          objects = kept.objects;
          fresh = kept.fresh;
          client_ids = kept.client_ids;
          server_ids = kept.server_ids;
          channels = kept.channels;
          router_buffer = kept.router_buffer;
          mesh_topo_looper = kept.mesh_topo_looper;
          log_size = d.0;
        },
        kept.reads,
      )
