-- ===== src/Wifi/Tests.antt =====
-- A scan of four networks, and a scanner that starts its access point.
use respir_mesh.Wifi.Termination.{collect_loop-terminates}
use respir_mesh.Channel.{send}
use respir_mesh.Wire.Header.{read, set_size}
use respir_mesh.Router.Send.{is_rootward, send_connected, send_packet}
use respir_mesh.Wifi.Connection.{wifi_connect_beggin_strongest}
use respir_mesh.Wifi.Lifetime.{Step, Reachable}
use respir_mesh.Logger.Delivery.{Logged}
use respir_mesh.Logger.Lines.{Fits}
use respir_mesh.Node.Env.{Arg}
use respir_mesh.Sample.{env-Encodes, node, env}
use respir_mesh.Node.State.{Node}
use respir_mesh.Wifi.Choice.{wifi_scan_done-Scanned, Scanned, kept_aps}
use Prim.Native.String.{String}
use respir_mesh.Wifi.Sorting.{sort_rounds_lem}
use respir_mesh.Wifi.State.{ApConnData, WifiCall, new, WifiClientState, Wifi, SimpleWifiScanner}
use respir_mesh.Wifi.Scan.{
  collect_loop, is_candidate, ssid_to_pass, rspm, unset_ap, wifi_scan_done, pass, found_ap,
  sort_rounds, ap_valid_ssid,
}
use respir_mesh.Wifi.Station.{wifi_connect_beggin, begin, update, on_station_got_ip, call}
use respir_mesh.Looper
use respir_mesh.Logger
use respir_mesh.Wifi.Station.{ap_server_start}
use respir_mesh.Wire.Header.{label}
use respir_mesh.Base.{
  overlay, gtb, ◌<◌, true, u16, none, Option, false, ◌+◌, some, arith, ℤ, ◌==◌, ◌≡◌, replicate,
  List, if◌then◌else◌, c_string, ℕ, refl, [], ◌∷◌,
}
use mathlib.Core.List.{Mem}

-- The names are "rspm" but for the third network, which is of another mesh; the fourth is the
-- strongest of this mesh.
abbrev wifi : Wifi
wifi = record {
  ssid = λ i. if i == 2 then 65 ∷ [] else rspm;
  rssi = λ i. ℤ.negsuc (if i == 0 then 60 else if i == 1 then 89 else if i == 2 then 20 else 40);
  channel = λ i. i + 1;
  sta_enabled = false;
  chip_id_hex = 49 ∷ 50 ∷ 51 ∷ 52 ∷ 53 ∷ [];
  s_wifi_ssid = 104 ∷ 105 ∷ [];
  s_wifi_pass = 1 ∷ [];
}

-- The third network is not of this mesh, the second is too weak, the fourth is stronger than the
-- first.
kept_of_four : kept_aps wifi 4 ≡ found_ap wifi 0 ∷ found_ap wifi 3 ∷ []
unfolding ap_valid_ssid
kept_of_four = refl

sorted_of_four :
    sort_rounds 1 (found_ap wifi 0 ∷ found_ap wifi 3 ∷ []) ≡ found_ap wifi 3 ∷ found_ap wifi 0 ∷ []
unfolding sort_rounds pass
sorted_of_four = refl

short-Fits : (format : String) (args : List Arg) → Fits (env 7) format args
unfolding c_string
short-Fits format args = record { deep = omega arith; short = omega arith }

wifi_scan_done-Scanned_example :
    (after : SimpleWifiScanner) × (v : Node) × (wifi_scan_done (env 7) wifi 4 new node
      ≡ some (after, v))
    × Scanned wifi 4 after
    × Logged node v
wifi_scan_done-Scanned_example =
    wifi_scan_done-Scanned (env 7) (env-Encodes 7) wifi (λ ap. short-Fits _ _) 4 new node
      (omega arith) refl

-- A scanner after that scan.
abbrev scanned : SimpleWifiScanner
scanned = record new {
  sorted_valid_aps = found_ap wifi 3 ∷ found_ap wifi 0 ∷ replicate 13 unset_ap;
  valid_aps_count = 2;
  client_state = WifiClientState.selecting_ap;
}

scanned-Scanned : Scanned wifi 4 scanned
unfolding ap_valid_ssid sort_rounds pass
scanned-Scanned = record {
  same = (sort_rounds_lem (found_ap wifi 0 ∷ found_ap wifi 3 ∷ [])).0;
  ordered = (sort_rounds_lem (found_ap wifi 0 ∷ found_ap wifi 3 ∷ [])).1;
  count = refl;
  unused = refl;
  found = ((omega arith, refl, refl), ((omega arith, refl, refl), tt));
  stored = refl;
  state = refl;
}

-- It connects to the fourth network, on channel 4.
wifi_connect_beggin_strongest_example :
    (i : ℕ) × (v : Node) × (wifi_connect_beggin (env 7) wifi scanned node
      ≡ some (
        call
            (WifiCall.connect
              (wifi.ssid i)
              (ssid_to_pass wifi (wifi.ssid i))
              (u16 (wifi.channel i)))
            (record scanned {
              chip_wifi_channel = u16 (wifi.channel i);
              wifi_ap_connecting = true;
              client_state = WifiClientState.connecting_ap;
            }),
        v,
      ))
    × (i < 4)
    × (is_candidate wifi i ≡ true)
    × ((ap : ApConnData) → Mem ap (kept_aps wifi 4) → gtb ap.rssi (wifi.rssi i) ≡ false)
wifi_connect_beggin_strongest_example =
    wifi_connect_beggin_strongest (env 7) (env-Encodes 7) wifi 4 scanned node scanned-Scanned
      (omega arith) (omega arith) refl (short-Fits _ _)

-- What a call has returned, with the constructor's object in the place of a crash.
abbrev returned : Option (SimpleWifiScanner × Node) → SimpleWifiScanner × Node
returned none = (new, node)
returned (some r) = r

abbrev begun : SimpleWifiScanner × Node
begun = returned (begin (env 7) wifi new node)

-- The station gets its address, and the timer of the server is armed.
abbrev connected : SimpleWifiScanner × Node
connected = returned (on_station_got_ip (env 7) (λ info w. some (info, w)) 9 [] begun.0 begun.1)

-- Seconds later, at the next `update`.
abbrev serving : SimpleWifiScanner × Node
serving =
    returned (update (env 7) wifi (λ w. some (tt, w)) connected.0 (record node { reads = 20 }))

begun_runs : begin (env 7) wifi new node ≡ some begun
unfolding begin Looper.begin Looper.now Looper.stop Looper.set_norm Looper.start
begun_runs = refl

connected_runs :
    on_station_got_ip (env 7) (λ info w. some (info, w)) 9 [] begun.0 begun.1 ≡ some connected
unfolding on_station_got_ip Logger.notice Logger.logger Logger.send_log_packet c_string overlay
    send_packet set_size send_connected send is_rootward read begin
connected_runs = refl

serving_runs :
    update (env 7) wifi (λ w. some (tt, w)) connected.0 (record node { reads = 20 }) ≡ some serving
unfolding update ap_server_start Looper.check Looper.set_norm Looper.start Looper.stop
    on_station_got_ip Logger.notice Logger.logger Logger.send_log_packet c_string overlay
    send_packet set_size send_connected send is_rootward read begin Looper.set_interval Looper.begin
    Looper.now label
serving_runs = refl

serving-Reachable : Reachable (env 7) serving.0
serving-Reachable =
    Reachable.stepped
      (Reachable.stepped (Reachable.begun wifi node begun.1 begun_runs)
        (Step.station_got_ip (λ info w. some (info, w)) 9 [] begun.1 connected.1 connected_runs))
      (Step.updated wifi (λ w. some (tt, w)) (record node { reads = 20 }) serving.1 serving_runs)

-- One network more than the index can count.
collect_loop-terminates_example : collect_loop wifi 300 256 new ≡ none
collect_loop-terminates_example = collect_loop-terminates wifi 44 256 new
