-- ===== src/EspOld/State.antt =====
-- RemClientCPP/ClientEsp_OLD/ClientEsp_OLD.ino: the globals, and what the sketch calls of its
-- libraries. An address is the list of its four bytes, an interval counts in `TASK_SECOND`.
use respir_mesh.Base.{none, some, ℕ, Bool, false, List, [], ◌∷◌, ◌++◌, Option, replicate}
use respir_mesh.Node.Env.{Encoded}
use respir_mesh.Wifi.State.{ApConnData, max_indexed_scanned_ap}
use respir_mesh.Base.{ℤ}

-- The four tasks of the scheduler. `rem_packet_send_test` does nothing and is never enabled.
pub data Task : Type 0 where
  wifi_check rem_ping_pong rem_packet_send_test rem_time_sync : Task

-- The calls that change the hardware, the scheduler or a connection. Those that only say which
-- function is called back leave no trace, but for the two of an accepted child.
pub data Call : Type 0 where
  set_interval : Task → ℕ → Call
  enable restart disable force_next_iteration : Task → Call
  child_write : ℕ → List ℕ → Call
  child_on_data child_on_disconnect : ℕ → Call
  parent_connect : List ℕ → Call
  parent_write : List ℕ → Call
  mode : ℕ → Call
  wifi_disconnect enable_sta scan_networks soft_ap_disconnect begin_servers : Call
  soft_ap_config : List ℕ → List ℕ → Call
  connect : List ℕ → List ℕ → ℕ → Call
  soft_ap : List ℕ → List ℕ → ℕ → Call

-- `RespirMeshTimeSync` of protobuf/rem_nanopb_pb/mesh-packet.pb.h, with the fields of its `info`.
pub record RespirMeshTimeSync : Type 0 where
  pub target_id : ℕ
  pub source_id : ℕ
  pub kind : ℕ
  pub request_sent_time : ℕ
  pub request_arrive_time : ℕ
  pub response_sent_time : ℕ
  pub response_arrive_time : ℕ
  pub server_timestamp_unix : ℕ

-- What the libraries and the build give while one function of the sketch runs: whether a pointer is
-- that of a client equal to `parClient`, the state of that client and of the station, how often
-- `remPingPongTask` has run, the clock, two answers of `random(250)`, the macros `_SERVER_IP` and
-- `_GW_ROOT_0` to `_GW_ROOT_3`, and nanopb for the message that only this program sends.
pub record Libraries : Type 0 where
  pub is_parent : ℕ → Bool
  pub parent_connected : Bool
  pub parent_connecting : Bool
  pub wl_connected : Bool
  pub run_counter : ℕ
  pub micros : ℕ
  pub random : ℕ → ℕ
  pub server_ip : List ℕ
  pub gw_root : List ℕ
  pub encode_time_sync : RespirMeshTimeSync → ℕ → Encoded
  pub decode_time_sync : List ℕ → ℕ → Option RespirMeshTimeSync

-- `MAX_AP_CLIENTS`
abbrev pub max_ap_clients : ℕ
max_ap_clients = 6

-- `PING_SEND_INTERVAL_FAST` and `PING_SEND_INTERVAL_MED`, `WIFI_CHECK_INTERVAL_FAST` and
-- `WIFI_CHECK_INTERVAL_SLOW`.
abbrev pub ping_fast : ℕ
ping_fast = 1

abbrev pub ping_med : ℕ
ping_med = 2

abbrev pub check_fast : ℕ
check_fast = 10

abbrev pub check_slow : ℕ
check_slow = 60

-- The globals that change while the sketch runs, but for `conectedCClientsCnt`, which nothing uses;
-- `chClients` by pointers. `calls` lists the calls made so far, oldest first.
pub record EspOld : Type 0 where
  pub esp_host : List ℕ
  pub is_level_r1 : Bool
  pub gateway : List ℕ
  pub parent_server_ip : List ℕ
  pub ap_local_ip : List ℕ
  pub ap_gateway : List ℕ
  pub ch_clients : List ℕ
  pub ch_clients_cnt : ℕ
  pub pb_buffer : List ℕ
  pub need_to_connect_to_station : Bool
  pub need_to_create_access_point : Bool
  pub access_point_crated : Bool
  pub succesfull_pong_from_server : ℕ
  pub chip_wifi_channel : ℕ
  pub sorted_valid_aps : List ApConnData
  pub valid_aps_count : ℕ
  pub calls : List Call

-- The globals before `setup`, with 0 where there is no initialiser; "rspm-".
abbrev pub initial : EspOld
initial = record {
  esp_host = 114 ∷ 115 ∷ 112 ∷ 109 ∷ 45 ∷ replicate 5 0;
  is_level_r1 = false;
  gateway = replicate 4 0;
  parent_server_ip = replicate 4 0;
  ap_local_ip = 192 ∷ 168 ∷ 4 ∷ 22 ∷ [];
  ap_gateway = 192 ∷ 168 ∷ 4 ∷ 9 ∷ [];
  ch_clients = replicate max_ap_clients 0;
  ch_clients_cnt = 0;
  pb_buffer = replicate 64 0;
  need_to_connect_to_station = false;
  need_to_create_access_point = false;
  access_point_crated = false;
  succesfull_pong_from_server = 1;
  chip_wifi_channel = 0;
  sorted_valid_aps = replicate max_indexed_scanned_ap (record { net_index = 0; rssi = ℤ.pos 0 });
  valid_aps_count = 0;
  calls = [];
}

abbrev pub calling : List Call → EspOld → EspOld
calling cs s = record s { calls = s.calls ++ cs }

-- A step after another one, which may not have returned.
abbrev pub and_then : Option EspOld → (EspOld → Option EspOld) → Option EspOld
and_then none f = none
and_then (some s) f = f s
