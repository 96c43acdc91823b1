-- ===== src/EspOld/Tests.antt =====
-- A node that runs the old sketch, with a parent at the pointer 9.
use respir_mesh.EspOld.State.{Call, EspOld, Libraries, initial, max_ap_clients}
use respir_mesh.EspOld.Packets.{data_recv, handle_mesh_topo, pb_buffer_size, rem_ping_pong_callback}
use respir_mesh.EspOld.Station.{loop, setup, wifi_scan_callback}
use respir_mesh.EspOld.Registry.{
  Event, IsValid, children, run, run_list, run_refines, AreCallbacks, joined, left,
}
use respir_mesh.EspOld.Underflow.{disconnected_twice}
use respir_mesh.EspOld.Report.{data_recv-hangs, handle_mesh_topo-agrees}
use respir_mesh.EspOld.Timers.{connecting, packet_of_run, pacing, rem_ping_pong_callback-writes}
use respir_mesh.EspOld.Networks.{wifi_scan_callback-agrees}
use respir_mesh.EspOld.Lifetime.{Reachable, Reachable-soft_aps, Step}
use respir_mesh.EspOld.Quiet.{soft_aps}
use respir_mesh.Logger.Lines.{Fits}
use respir_mesh.Node.Env.{Arg}
use respir_mesh.Node.State.{Node}
use respir_mesh.Router.Report.{Sends}
use respir_mesh.Router.Topo.{route_packet}
use respir_mesh.Sample.{env, env-Encodes, node}
use respir_mesh.Wifi.Choice.{wifi_scan_done-Scanned}
use respir_mesh.Wifi.Scan.{rspm, wifi_scan_done}
use respir_mesh.Wifi.State.{SimpleWifiScanner, Wifi, new}
use respir_mesh.Wire.Assembly.{packet_of}
use respir_mesh.Wire.Forwarding
use respir_mesh.Wire.Header.{read, set_size}
use respir_mesh.Wire.Protobuf
use Prim.Native.String.{String}
use respir_mesh.Base.{
  if◌then◌else◌, ℕ, ℤ, ◌+◌, ◌≤◌, List, [], ◌∷◌, ◌++◌, none, some, true, false, not, ◌&&◌, ◌||◌,
  ◌==◌, ltb, ◌≡◌, ◌↔◌, refl, arith, c_string, length, map, set, replicate,
}

abbrev lib : Libraries
lib = record {
  is_parent = λ p. p == 9;
  parent_connected = false;
  parent_connecting = false;
  wl_connected = false;
  run_counter = 11;
  micros = 7;
  random = λ n. 100 + n;
  server_ip = 10 ∷ 0 ∷ 0 ∷ 1 ∷ [];
  gw_root = 10 ∷ 0 ∷ 0 ∷ 1 ∷ [];
  encode_time_sync = λ m n. record { status = true; bytes = 1 ∷ [] };
  decode_time_sync = λ bytes n. none;
}

abbrev wifi : Wifi
wifi = record {
  ssid = λ i. if i == 1 then 65 ∷ [] else rspm;
  rssi = λ i. ℤ.negsuc (30 + i);
  channel = λ i. i;
  sta_enabled = true;
  chip_id_hex = 97 ∷ 98 ∷ [];
  s_wifi_ssid = 104 ∷ [];
  s_wifi_pass = [];
}

initial-IsValid : IsValid lib initial
initial-IsValid = record {
  stored = refl;
  room = omega arith;
  no_parent = λ p pos parent. ground arith;
}

-- Two children and the parent connect, the first child leaves.
abbrev events : List Event
events =
    Event.connected 1
    ∷ Event.connected 9
    ∷ Event.connected 2
    ∷ Event.disconnected 1
    ∷ Event.disconnected 9
    ∷ []

events-AreCallbacks : AreCallbacks lib events []
unfolding AreCallbacks joined left
events-AreCallbacks = (omega arith, refl, (omega arith, refl, tt))

run_refines_example :
    (t : EspOld) × (run lib events initial ≡ some t)
    × IsValid lib t
    × (children lib t ≡ run_list lib events [])
run_refines_example = run_refines lib events initial initial-IsValid events-AreCallbacks

-- The child that has stayed is the only one.
one_left : run_list lib events [] ≡ 2 ∷ []
unfolding run_list joined left
one_left = refl

disconnected_twice_example :
    (t : EspOld) × (run lib
        (Event.connected 1
          ∷ Event.disconnected 1
          ∷ Event.disconnected 1
          ∷ map Event.connected (2 ∷ 3 ∷ []))
        initial
      ≡ some t)
    × (t.ch_clients ≡ set initial.ch_clients 0 1)
    × (t.ch_clients_cnt ≡ 255)
disconnected_twice_example =
    disconnected_twice lib 1 (2 ∷ 3 ∷ []) initial (omega arith) refl refl (omega arith)

handle_mesh_topo-agrees_example :
    let report =
      packet_of Forwarding.to_parent_to_root Protobuf.mesh_topology
        (0 ∷ 9 ∷ Protobuf.mesh_topology ∷ [])
      ++ 5 ∷ [] in
    (t : EspOld) × (p : List ℕ) × (handle_mesh_topo (env 7) report 8 initial ≡ some t)
    × (t.calls ≡ Call.parent_write p ∷ [])
    × Sends (set_size (length p) p) node (route_packet (env 7) report 8 node).1
handle_mesh_topo-agrees_example =
    handle_mesh_topo-agrees (env 7) (env-Encodes 7) (0 ∷ 9 ∷ Protobuf.mesh_topology ∷ []) (5 ∷ [])
      (record { target_id = 0; source_id = 9; kind = Protobuf.mesh_topology }) initial node refl
      refl (omega arith) refl

data_recv-hangs_example :
    data_recv
      (env 7)
      (0 ∷ 0 ∷ Forwarding.to_parent_to_root ∷ 1 ∷ Protobuf.mesh_topology ∷ replicate 250 1)
      255
      initial
    ≡ none
unfolding read
data_recv-hangs_example =
    data_recv-hangs (env 7)
      (0 ∷ 0 ∷ Forwarding.to_parent_to_root ∷ 1 ∷ Protobuf.mesh_topology ∷ replicate 250 1) 255
      initial refl refl (omega arith)

rem_ping_pong_callback-writes_example :
    let t = rem_ping_pong_callback (env 7) lib initial in
    (p : List ℕ) × (t.calls
      ≡ ((initial.calls ++ connecting lib initial) ++ Call.parent_write p ∷ []) ++ pacing lib)
    × (set_size (length p) p ≡ packet_of_run (env 7) lib.run_counter)
    × (t.need_to_create_access_point ≡ (
        initial.need_to_create_access_point
        || (not initial.access_point_crated && ltb 10 lib.run_counter)))
rem_ping_pong_callback-writes_example =
    rem_ping_pong_callback-writes (env 7) (env-Encodes 7) lib initial refl

short-Fits : (format : String) (args : List Arg) → Fits (env 7) format args
unfolding c_string
short-Fits format args = record { deep = omega arith; short = omega arith }

scan_returns :
    (after : SimpleWifiScanner) × (v : Node) × (wifi_scan_done (env 7) wifi 3 new node
      ≡ some (after, v))
scan_returns =
    let r =
      wifi_scan_done-Scanned (env 7) (env-Encodes 7) wifi (λ ap. short-Fits _ _) 3 new node
        (omega arith) refl in
    (r.0, r.1, r.2)

wifi_scan_callback-agrees_example :
    let after = scan_returns.0 in
    (t : EspOld) × (wifi_scan_callback lib wifi 3 initial ≡ some t)
    × (t.sorted_valid_aps ≡ after.sorted_valid_aps)
    × (t.valid_aps_count ≡ after.valid_aps_count)
    × (t.need_to_connect_to_station ≡ (false || (ltb 0 after.valid_aps_count && true)))
wifi_scan_callback-agrees_example =
    wifi_scan_callback-agrees (env 7) lib wifi 3 new scan_returns.0 node scan_returns.1 initial
      scan_returns.2

-- The eleventh run of the ping timer asks for the access point, and `loop` starts it.
abbrev grown : EspOld
grown = loop wifi (rem_ping_pong_callback (env 7) lib (setup wifi initial))

grown-Reachable : Reachable grown
grown-Reachable =
    Reachable.stepped
      (Reachable.stepped (Reachable.set_up wifi) (Step.pinged (env 7) lib (setup wifi initial)))
      (Step.looped wifi (rem_ping_pong_callback (env 7) lib (setup wifi initial)))

Reachable-soft_aps_example :
    (soft_aps grown.calls ≤ 1)
    × ((soft_aps grown.calls ≡ 1) ↔ (grown.access_point_crated ≡ true))
    × ((grown.access_point_crated && grown.need_to_create_access_point) ≡ false)
    × (length grown.pb_buffer ≡ pb_buffer_size)
    × (length grown.ch_clients ≡ max_ap_clients)
Reachable-soft_aps_example = Reachable-soft_aps grown grown-Reachable
