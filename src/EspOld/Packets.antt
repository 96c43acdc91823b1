-- ===== src/EspOld/Packets.antt =====
-- RemClientCPP/ClientEsp_OLD/ClientEsp_OLD.ino: what is sent to the parent and what is done with the
-- packets that arrive. `bytes` is the memory from the pointer on, `len` the length that comes with it.
-- The loops that print run past the end of what they print, which is taken to be harmless.
use mathlib.Core.Option
use respir_mesh.EspOld.State.{
  Call, EspOld, Libraries, RespirMeshTimeSync, Task, and_then, calling, ping_med,
}
use respir_mesh.Node.Env.{Encoded, Env}
use respir_mesh.Router.Topo.{packet_data_len}
use respir_mesh.Wire.Forwarding
use respir_mesh.Wire.Header.{Field, header_size, label, read, write}
use respir_mesh.Wire.Messages.{RespirMeshInfo, info_init_default}
use respir_mesh.Wire.Protobuf
use respir_mesh.Base.{
  ℕ, ◌+◌, ◌-◌, ◌%◌, ◌^◌, List, [], ◌∷◌, Option, none, some, Bool, true, not, ◌&&◌, ◌||◌, ◌==◌, ltb,
  if◌then◌else◌, u16, u32, take, drop, length, overlay, overwrite, for_u8,
}

-- `sizeof(pb_buffer)`
abbrev pub pb_buffer_size : ℕ
pb_buffer_size = 64

-- `for (uint8_t i = 0; i < end; i++) Serial.printf(...)`
unfoldable pub print_loop : ℕ → EspOld → Option EspOld
print_loop end s = for_u8 256 0 end (λ i s. s) s

-- `parClient.write` of the first bytes of `pb_buffer`.
abbrev pub write_parent : ℕ → EspOld → EspOld
write_parent size s = calling (Call.parent_write (take size s.pb_buffer) ∷ []) s

-- After `pb_encode` into `pb_buffer` for a timer: nothing more if it failed.
abbrev pub write_encoded : Encoded → EspOld → EspOld
write_encoded encoded s =
    if encoded.status then write_parent (length encoded.bytes + header_size) s else s

module _ (lib : Libraries) where
  unfoldable pub ensure_parent_connected : EspOld → EspOld
  ensure_parent_connected s =
      if not lib.parent_connected && not lib.parent_connecting
      then calling (Call.parent_connect s.parent_server_ip ∷ []) s
      else s

-- The three times that an answer to a time request gives, each a difference in 32 bits.
pub record Durations : Type 0 where
  pub request_duration : ℕ
  pub response_duration : ℕ
  pub round_trip_duration : ℕ

abbrev pub minus : ℕ → ℕ → ℕ
minus a b = u32 (a + 2 ^ 32 - b)

module _ (lib : Libraries) where
  abbrev pub durations : RespirMeshTimeSync → Durations
  durations timesync =
      let request = minus (u32 lib.micros) timesync.request_sent_time in
      let response = minus timesync.response_sent_time timesync.response_arrive_time in
      record {
        request_duration = request;
        response_duration = response;
        round_trip_duration = minus request response;
      }

  -- They are printed and kept nowhere.
  unfoldable pub handle_time_sync : List ℕ → ℕ → Option Durations
  handle_time_sync bytes len = Option.map durations (lib.decode_time_sync bytes len)

module _ (lib : Libraries) where
  -- Every second run reports the topology, the others send a ping.
  abbrev pub is_topo_run : Bool
  is_topo_run = lib.run_counter % 2 == 1

  abbrev pub ping_forwarding : ℕ
  ping_forwarding = if is_topo_run then Forwarding.to_parent_to_root else Forwarding.to_root

  abbrev pub ping_protobuf : ℕ
  ping_protobuf = if is_topo_run then Protobuf.mesh_topology else Protobuf.ping

  abbrev pub slow_down : EspOld → EspOld
  slow_down s =
      if lib.run_counter == 10
      then calling (Call.set_interval Task.rem_ping_pong ping_med ∷ []) s
      else s

  abbrev pub want_access_point : EspOld → EspOld
  want_access_point s =
      if not s.access_point_crated && ltb 10 lib.run_counter
      then record s { need_to_create_access_point = true }
      else s

module _ (env : Env) (lib : Libraries) where
  abbrev pub time_request : RespirMeshTimeSync
  time_request = record {
    target_id = 0;
    source_id = env.device_id;
    kind = Protobuf.timesync;
    request_sent_time = u32 lib.micros;
    request_arrive_time = 0;
    response_sent_time = 0;
    response_arrive_time = 0;
    server_timestamp_unix = 0;
  }

  unfoldable pub rem_time_sync_callback : EspOld → EspOld
  unfolding ensure_parent_connected
  rem_time_sync_callback s =
      let s = ensure_parent_connected lib s in
      let encoded = lib.encode_time_sync time_request (pb_buffer_size - header_size) in
      write_encoded encoded (record s {
        pb_buffer =
            overlay header_size encoded.bytes
              (label Forwarding.to_root Protobuf.timesync s.pb_buffer);
      })

  unfoldable pub rem_ping_pong_callback : EspOld → EspOld
  unfolding ensure_parent_connected
  rem_ping_pong_callback s =
      let s = ensure_parent_connected lib s in
      let message = record info_init_default {
        source_id = env.device_id;
        kind = ping_protobuf lib;
      } in
      let encoded = env.encode_info message (pb_buffer_size - header_size) in
      let s = record s {
        pb_buffer =
            overlay header_size encoded.bytes
              (label (ping_forwarding lib) (ping_protobuf lib) s.pb_buffer);
      } in
      if encoded.status
      then want_access_point lib
          (slow_down lib (write_parent (length encoded.bytes + header_size) s))
      else s

module _ (env : Env) where
  abbrev pub count_pong : Option RespirMeshInfo → EspOld → EspOld
  count_pong none s = s
  count_pong (some pingpong) s =
      if pingpong.kind == Protobuf.pong
      then record s { succesfull_pong_from_server = u16 (s.succesfull_pong_from_server + 1) }
      else s

  unfoldable pub handle_ping_pong : List ℕ → ℕ → EspOld → EspOld
  handle_ping_pong bytes len s = count_pong (env.decode_info bytes len) s

  abbrev pub completed : RespirMeshInfo → RespirMeshInfo
  completed mesh_topo = record mesh_topo {
    kind = Protobuf.mesh_topology;
    target_id = env.device_id;
  }

  -- The block under the test of the forwarding type.
  unfoldable pub forward_topo : RespirMeshInfo → EspOld → Option EspOld
  unfolding print_loop
  forward_topo mesh_topo s =
      let encoded = env.encode_info (completed mesh_topo) (pb_buffer_size - header_size) in
      let s = record s {
        pb_buffer =
            overlay header_size encoded.bytes
              (write Field.forwarding_type Forwarding.to_root s.pb_buffer);
      } in
      if encoded.status
      then and_then (print_loop (length encoded.bytes + header_size + 3) s)
          (λ s. some (write_parent (length encoded.bytes + header_size) s))
      else some s

  abbrev pub after_decode : ℕ → Option RespirMeshInfo → EspOld → Option EspOld
  after_decode len none s = some s
  after_decode len (some mesh_topo) s = and_then (print_loop (len + 10) s) (λ s.
      if read Field.forwarding_type s.pb_buffer == Forwarding.to_parent_to_root
      then forward_topo mesh_topo s
      else some s)

  unfoldable pub handle_mesh_topo : List ℕ → ℕ → EspOld → Option EspOld
  unfolding print_loop forward_topo
  handle_mesh_topo bytes len s = and_then (print_loop (len + 10) s) (λ s.
      and_then (print_loop (len + 10) s) (λ s.
        after_decode len (env.decode_info (drop header_size bytes) (packet_data_len len))
          (record s { pb_buffer = overwrite (take header_size bytes) s.pb_buffer })))

  -- `handle_time_sync` leaves nothing behind.
  unfoldable pub data_recv : List ℕ → ℕ → EspOld → Option EspOld
  data_recv bytes len s =
      let forwarding = read Field.forwarding_type bytes in
      let protobuf = read Field.protobuf_type bytes in
      if forwarding == Forwarding.to_root
      then some (calling (Call.parent_write (take len bytes) ∷ []) s)
      else if forwarding == Forwarding.to_parent_to_root
      then (if protobuf == Protobuf.mesh_topology then handle_mesh_topo bytes len s else some s)
      else if protobuf == Protobuf.pong || protobuf == Protobuf.ping
      then some (handle_ping_pong (drop header_size bytes) (packet_data_len len) s)
      else some s
