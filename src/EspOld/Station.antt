-- ===== src/EspOld/Station.antt =====
-- RemClientCPP/ClientEsp_OLD/ClientEsp_OLD.ino: the Wi-Fi station and the access point, `setup` and
-- `loop`. A member of the list of networks is a field of `Wifi`.
use respir_mesh.EspOld.State.{
  and_then, Call, EspOld, Libraries, Task, calling, check_fast, check_slow, ping_fast,
}
use respir_mesh.Wifi.State.{
  Wifi, max_indexed_scanned_ap, minimum_valid_ap_rssi, mode_ap_sta, mode_off,
}
use respir_mesh.Wifi.Scan.{generic_pass, rspm, sort_rounds, starts_with, unset_ap}
use respir_mesh.Base.{
  ℕ, ◌+◌, ◌-◌, List, [], ◌∷◌, ◌++◌, Option, some, Bool, true, false, not, ◌&&◌, ◌||◌, ◌==◌, ltb,
  gtb, if◌then◌else◌, u16, u8, set, get_or, take, drop, length, replicate, c_string, for_u8,
}

-- The test of the gateway, byte by byte.
abbrev pub is_root_gateway : List ℕ → List ℕ → Bool
is_root_gateway gw root =
    get_or gw 0 0 == get_or root 0 0
    && get_or gw 1 0 == get_or root 1 0
    && get_or gw 2 0 == get_or root 2 0
    && get_or gw 3 0 == get_or root 3 0

module _ (lib : Libraries) where
  abbrev pub choose_gateway : List ℕ → EspOld → EspOld
  choose_gateway gw s =
      if is_root_gateway gw lib.gw_root
      then record s {
        gateway = lib.server_ip;
        parent_server_ip = lib.server_ip;
        is_level_r1 = true;
      }
      else record s { gateway = gw; parent_server_ip = gw }

  -- The own address, two bytes of it random, and the next one for the gateway.
  abbrev pub choose_address : EspOld → EspOld
  choose_address s =
      let ip = set (set s.ap_local_ip 3 (u8 (lib.random 0))) 2 (u8 (lib.random 1)) in
      record s { ap_local_ip = ip; ap_gateway = set ip 3 (u8 (get_or ip 3 0 + 1)) }

  -- With the gateway of the event.
  unfoldable pub on_station_got_ip : List ℕ → EspOld → EspOld
  on_station_got_ip gw s =
      calling
        (Call.set_interval Task.wifi_check check_slow
          ∷ Call.set_interval Task.rem_ping_pong ping_fast
          ∷ Call.enable Task.rem_ping_pong
          ∷ [])
        (record (choose_address (choose_gateway gw s)) { need_to_connect_to_station = false })

-- The variable that is set to true is a local one.
unfoldable pub on_station_disconnected : EspOld → EspOld
on_station_disconnected s =
    calling
      (Call.set_interval Task.wifi_check check_fast
        ∷ Call.force_next_iteration Task.wifi_check
        ∷ Call.disable Task.rem_packet_send_test
        ∷ Call.disable Task.rem_time_sync
        ∷ [])
      s

unfoldable pub reset_indexed_valid_aps : EspOld → EspOld
reset_indexed_valid_aps s = record s {
  valid_aps_count = 0;
  sorted_valid_aps = replicate max_indexed_scanned_ap unset_ap;
}

module _ (wifi : Wifi) where
  -- The four digits that take the place behind "rspm-", and the zero; a negative index is past the
  -- end of the string, where `charAt` gives 0.
  unfoldable pub esp_set_host : EspOld → EspOld
  esp_set_host s =
      let len = u8 (length wifi.chip_id_hex) in
      let digit =
        λ (back : ℕ). if ltb back len then get_or wifi.chip_id_hex (len - 1 - back) 0 else 0 in
      record s { esp_host = take 5 s.esp_host ++ digit 3 ∷ digit 2 ∷ digit 1 ∷ digit 0 ∷ 0 ∷ [] }

  unfoldable pub ssid_to_pass : List ℕ → List ℕ
  ssid_to_pass qssid = if starts_with qssid wifi.s_wifi_ssid then wifi.s_wifi_pass else generic_pass

  unfoldable pub ap_valid_ssid : List ℕ → Bool
  ap_valid_ssid qssid = if starts_with qssid wifi.s_wifi_ssid then true else starts_with qssid rspm

  -- The body of the loop over the networks.
  unfoldable pub collect_ap : ℕ → EspOld → EspOld
  unfolding ap_valid_ssid
  collect_ap i s =
      if ltb s.valid_aps_count max_indexed_scanned_ap
        && gtb (wifi.rssi i) minimum_valid_ap_rssi
        && ap_valid_ssid (wifi.ssid i)
      then record s {
        sorted_valid_aps =
            set s.sorted_valid_aps s.valid_aps_count (record { net_index = i; rssi = wifi.rssi i });
        valid_aps_count = s.valid_aps_count + 1;
      }
      else s

  -- The two loops that sort compare and swap as those of the scanner.
  abbrev pub sort_aps : EspOld → EspOld
  sort_aps s = record s {
    sorted_valid_aps =
        sort_rounds (s.valid_aps_count - 1) (take s.valid_aps_count s.sorted_valid_aps)
        ++ drop s.valid_aps_count s.sorted_valid_aps;
  }

  unfoldable pub setup : EspOld → EspOld
  unfolding esp_set_host
  setup s =
      calling
        (Call.mode mode_off
          ∷ Call.wifi_disconnect
          ∷ Call.begin_servers
          ∷ Call.enable Task.wifi_check
          ∷ [])
        (esp_set_host s)

module _ (lib : Libraries) (wifi : Wifi) where
  -- The block under `validAPsCount > 0`.
  abbrev pub after_loop : EspOld → EspOld
  after_loop s =
      if ltb 0 s.valid_aps_count
      then (if lib.wl_connected
          then sort_aps wifi s
          else record (sort_aps wifi s) { need_to_connect_to_station = true })
      else s

  -- The index of the loop has 8 bits, the count is an `int`; for a negative one no loop runs.
  unfoldable pub wifi_scan_callback : ℕ → EspOld → Option EspOld
  unfolding reset_indexed_valid_aps collect_ap
  wifi_scan_callback networks_count s =
      and_then (for_u8 256 0 networks_count (collect_ap wifi) (reset_indexed_valid_aps s))
        (λ s. some (after_loop s))

  unfoldable pub wifi_check_callback : EspOld → EspOld
  wifi_check_callback s =
      if not lib.wl_connected || (s.need_to_connect_to_station && lib.wl_connected)
      then calling
          ((if wifi.sta_enabled then Call.enable_sta ∷ [] else []) ++ Call.scan_networks ∷ []) s
      else s

-- The two blocks of `loop`, which follow the calls of the web server and of the scheduler.
unfoldable pub connect_when_needed : Wifi → EspOld → EspOld
unfolding ssid_to_pass
connect_when_needed wifi s =
    let index = (get_or s.sorted_valid_aps 0 unset_ap).net_index in
    let channel = u16 (wifi.channel index) in
    if s.need_to_connect_to_station && ltb 0 s.valid_aps_count && not (index == 255)
    then calling (Call.connect (wifi.ssid index) (ssid_to_pass wifi (wifi.ssid index)) channel ∷ [])
        (record s { chip_wifi_channel = channel; need_to_connect_to_station = false })
    else s

-- The host name has '_' in the place of '-' as the name of the access point.
unfoldable pub create_when_needed : EspOld → EspOld
create_when_needed s =
    if s.need_to_create_access_point
    then calling
        (Call.soft_ap_config s.ap_local_ip s.ap_gateway
          ∷ Call.mode mode_ap_sta
          ∷ Call.soft_ap (c_string (set s.esp_host 4 95)) generic_pass s.chip_wifi_channel
          ∷ [])
        (record s {
          need_to_create_access_point = false;
          esp_host = set (set s.esp_host 4 95) 4 45;
          access_point_crated = true;
        })
    else s

unfoldable pub loop : Wifi → EspOld → EspOld
unfolding connect_when_needed create_when_needed
loop wifi s = create_when_needed (connect_when_needed wifi s)
