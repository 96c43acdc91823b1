-- ===== src/Wifi/Station.antt =====
-- RemCppCommon/ESP8266/SimpleWiFiScanner.cpp: the connection to an access point, the access point of
-- the node itself, and `update`. Sleeping and the serial console leave no trace.
use respir_mesh.Wifi.Scan.{generic_pass, ssid_to_pass, unset_ap}
use respir_mesh.Node.Fault.{◌>>◌, ◌>>=◌, pure, ◌>>=◌, M}
use respir_mesh.Node.Env.{Arg, Env}
use respir_mesh.Wifi.State.{
  RemClientInfo, mode_ap_sta, mode_off, WifiServerState, server_code, WifiClientState,
  SimpleWifiScanner, Wifi, WifiCall,
}
use respir_mesh.Looper.{TaskLooper}
use respir_mesh.Looper
use respir_mesh.Logger
use respir_mesh.Base.{
  u16, set, ◌==◌, c_string, ◌-◌, not, get_or, ◌&&◌, false, [], ◌∷◌, ltb, true, Bool, some,
  if◌then◌else◌, length, ◌++◌, List, ℕ,
}

abbrev pub call : WifiCall → SimpleWifiScanner → SimpleWifiScanner
call c s = record s { calls = s.calls ++ c ∷ [] }

-- An operation on one of the two loopers, which reads the clock of the node.
abbrev rescan : (TaskLooper → ℕ → TaskLooper × ℕ) → SimpleWifiScanner → M SimpleWifiScanner
rescan f s w =
    let (l, reads) = f s.rescan_looper w.reads in
    some (record s { rescan_looper = l }, record w { reads = reads })

abbrev servap : (TaskLooper → ℕ → TaskLooper × ℕ) → SimpleWifiScanner → M SimpleWifiScanner
servap f s w =
    let (l, reads) = f s.servap_looper w.reads in
    some (record s { servap_looper = l }, record w { reads = reads })

-- `strcpy` of "rspm-", the last four digits of the chip id and a zero. Where there are fewer digits,
-- the index is negative, so that it passes the end as an unsigned number, and `charAt` gives 0.
unfoldable pub esp_set_host : Wifi → SimpleWifiScanner → SimpleWifiScanner
esp_set_host wifi s =
    let len = length wifi.chip_id_hex in
    let digit =
      λ (back : ℕ). if ltb back len then get_or wifi.chip_id_hex (len - 1 - back) 0 else 0 in
    record s {
      esp_host = 114 ∷ 115 ∷ 112 ∷ 109 ∷ 45 ∷ digit 3 ∷ digit 2 ∷ digit 1 ∷ digit 0 ∷ 0 ∷ [];
    }

-- What follows the log line of `wifi_connect_beggin`.
abbrev pub connect_selected : Wifi → SimpleWifiScanner → SimpleWifiScanner
connect_selected wifi s =
    let index = (get_or s.sorted_valid_aps 0 unset_ap).net_index in
    let channel = u16 (wifi.channel index) in
    if not (index == 255)
    then call (WifiCall.connect (wifi.ssid index) (ssid_to_pass wifi (wifi.ssid index)) channel)
        (record s {
          chip_wifi_channel = channel;
          wifi_ap_connecting = true;
          client_state = WifiClientState.connecting_ap;
        })
    else s

-- The host name has '_' in the place of '-' as the name of the access point.
unfoldable pub ap_server_start : M (Unit {0}) → SimpleWifiScanner → M SimpleWifiScanner
ap_server_start create_server s = do
  create_server
  pure (record s {
    calls =
        s.calls
        ++ WifiCall.soft_ap_config
          ∷ WifiCall.mode mode_ap_sta
          ∷ WifiCall.soft_ap (c_string (set s.esp_host 4 95)) generic_pass s.chip_wifi_channel
          ∷ WifiCall.create_server
          ∷ [];
    esp_host = set (set s.esp_host 4 95) 4 45;
    access_point_crated = true;
    server_state = WifiServerState.no_clients_ap;
    servap_looper = Looper.stop s.servap_looper;
  })

abbrev pub is_selecting : WifiClientState → Bool
is_selecting WifiClientState.selecting_ap = true
is_selecting _ = false

module _ (env : Env) where
  -- The arguments of the two log lines come from the event.
  unfoldable pub on_station_connected :
      List Arg → List Arg → SimpleWifiScanner → M SimpleWifiScanner
  on_station_connected station mac s = do
    Logger.notice env "onStationConnected ch:%u ssid:%s   " station
    Logger.notice env "mac_hex : %02x:%02x:%02x:%02x:%02x:%02x\n" mac
    pure (record s { client_state = WifiClientState.getting_ip_ap })

  -- With the function that the sketch installs for a new client, which may change `rcl_info`; the
  -- gateway of the event, and the arguments of its log line. 60 * 1000 fits 16 bits.
  unfoldable pub on_station_got_ip :
      (RemClientInfo → M RemClientInfo) → ℕ → List Arg → SimpleWifiScanner → M SimpleWifiScanner
  on_station_got_ip create_client gw addresses s = do
    info ← create_client (record s.rcl_info { connected_to_root = true; rem_server_ip = gw })
    Logger.notice env "onStationGotIP \n\t ip %s \n\t mask %s \n\t gw %s " addresses
    s ← rescan (Looper.set_interval env.clock 60000) (record s {
      rcl_info = info;
      client_state = WifiClientState.full_available;
      is_client_connected = true;
    })
    servap (Looper.set_interval env.clock 1000) s

  unfoldable pub on_station_disconnected : SimpleWifiScanner → M SimpleWifiScanner
  on_station_disconnected s = do
    Logger.info env "onStationDisconnected" []
    rescan (Looper.set_fast env.clock) (record s { is_client_connected = false })

  -- The second block; `client_status` only prints the stations.
  abbrev pub serve_when_due : M (Unit {0}) → SimpleWifiScanner → M SimpleWifiScanner
  serve_when_due create_server s w =
      let (due, l, reads) = Looper.check env.clock s.servap_looper w.reads in
      let s = record s { servap_looper = l } in
      let w = record w { reads = reads } in
      if due
      then (servap (Looper.set_norm env.clock) s >>= λ s.
            if ltb (server_code s.server_state) (server_code WifiServerState.starting_server_ap)
            then ap_server_start create_server s
            else pure s)
          w
      else some (s, w)

module _ (env : Env) (wifi : Wifi) where
  unfoldable pub begin : SimpleWifiScanner → M SimpleWifiScanner
  unfolding esp_set_host
  begin s = do
    s ← rescan (Looper.begin env.clock) (esp_set_host wifi s)
    s ← rescan (Looper.now env.clock) s
    s ← servap (Looper.begin env.clock) s
    pure (record s {
      servap_looper = Looper.stop s.servap_looper;
      calls =
          s.calls ++ WifiCall.persistent false ∷ WifiCall.mode mode_off ∷ WifiCall.disconnect ∷ [];
      client_state = WifiClientState.none_available;
      server_state = WifiServerState.server_off_ap;
    })

  unfoldable pub wifi_connect_beggin : SimpleWifiScanner → M SimpleWifiScanner
  wifi_connect_beggin s = do
    Logger.info env " SimpleWiFiScanner::wifi_connect_beggin   " []
    pure (connect_selected wifi s)

  unfoldable pub wifi_scan_beggin : SimpleWifiScanner → M SimpleWifiScanner
  wifi_scan_beggin s = do
    Logger.debug env "wifi_scan_beggin" []
    pure (
        call WifiCall.scan_networks
          (record (if wifi.sta_enabled then call WifiCall.enable_sta s else s) {
            client_state = WifiClientState.scanning;
          }))

  -- The first block of `update`.
  abbrev pub rescan_when_due : SimpleWifiScanner → M SimpleWifiScanner
  rescan_when_due s w =
      let (due, l, reads) = Looper.check env.clock s.rescan_looper w.reads in
      let s = record s { rescan_looper = l } in
      let w = record w { reads = reads } in if due then wifi_scan_beggin s w else some (s, w)

  unfoldable pub update : M (Unit {0}) → SimpleWifiScanner → M SimpleWifiScanner
  update create_server s = do
    s ← rescan_when_due s
    s ← serve_when_due env create_server s
    if is_selecting s.client_state && not s.is_client_connected
        then wifi_connect_beggin s
        else pure s
