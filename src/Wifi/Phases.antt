-- ===== src/Wifi/Phases.antt =====
-- How often the ESP8266 build starts its access point.
use respir_mesh.Wifi.Termination.{collect_loop-terminates}
use respir_mesh.Wifi.Scan.{
  sort_aps, log_aps, is_candidate, collect_ap, unset_ap, wifi_scan_done, collect_aps, generic_pass,
}
use respir_mesh.Node.Fault.{pure, M}
use respir_mesh.Node.Returns.{Returns-any, Returns->>=, Returns->>, Returns}
use respir_mesh.Wifi.Station.{
  is_selecting, rescan_when_due, serve_when_due, on_station_got_ip, on_station_disconnected, update,
  on_station_connected, call, wifi_scan_beggin, wifi_connect_beggin, ap_server_start,
}
use respir_mesh.Node.Env.{Arg, Env}
use respir_mesh.Wifi.State.{
  ApConnData, WifiServerState, max_indexed_scanned_ap, RemClientInfo, WifiClientState, mode_ap_sta,
  Wifi, server_code, WifiCall, SimpleWifiScanner,
}
use respir_mesh.Base.{
  leb, refl, not, take, zero, ◌&&◌, ◌==◌, ltb, replicate, get_or, set, c_string, inr, ◌∙◌, inl, ◌≤◌,
  [], Bool-cases, suc, arith, ◌⊎◌, ◌<◌, false, true, ◌+◌, if◌then◌else◌, ◌≡◌, ◌∷◌, Bool, ◌++◌, List,
  ℕ,
}
use respir_mesh.Looper
use respir_mesh.Logger

abbrev pub is_soft_ap : WifiCall → Bool
is_soft_ap (WifiCall.soft_ap host pass channel) = true
is_soft_ap _ = false

-- How often the access point has been started.
abbrev pub soft_aps : List WifiCall → ℕ
soft_aps [] = 0
soft_aps (c ∷ cs) = if is_soft_ap c then suc (soft_aps cs) else soft_aps cs

-- Before the server is started there was no access point, from then on there was one.
abbrev pub IsPhase : SimpleWifiScanner → Type 0
IsPhase s =
    (server_code s.server_state < 3 × soft_aps s.calls ≡ 0)
    ⊎ (3 ≤ server_code s.server_state × soft_aps s.calls ≡ 1)

soft_aps-append : (xs ys : List WifiCall) → soft_aps (xs ++ ys) ≡ soft_aps xs + soft_aps ys
soft_aps-append [] ys = omega arith
soft_aps-append (x ∷ xs) ys = elim (Bool-cases (is_soft_ap x)) [
  | inl starts ↦ rw starts (omega (arith, soft_aps-append xs ys))
  | inr other ↦ rw other (soft_aps-append xs ys)
]

-- A call that starts no access point leaves the phase.
call-IsPhase :
    (c : WifiCall) (s : SimpleWifiScanner) → is_soft_ap c ≡ false → IsPhase s → IsPhase (call c s)
call-IsPhase c s other phase =
    let kept : soft_aps (s.calls ++ c ∷ []) ≡ soft_aps s.calls =
      soft_aps-append s.calls (c ∷ []) ∙ rw other (omega arith) in
    rw kept phase

ap_server_start-IsPhase :
    (create_server : M (Unit {0})) (s : SimpleWifiScanner)
    → server_code s.server_state < 3
    → IsPhase s
    → Returns IsPhase (ap_server_start create_server s)
unfolding ap_server_start
ap_server_start-IsPhase create_server s early phase =
    let calls = λ (host : List ℕ).
      WifiCall.soft_ap_config
      ∷ WifiCall.mode mode_ap_sta
      ∷ WifiCall.soft_ap host generic_pass s.chip_wifi_channel
      ∷ WifiCall.create_server
      ∷ [] in
    let none_yet : soft_aps s.calls ≡ 0 = elim phase [
      | inl (before, e) ↦ e
      | inr (later, e) ↦ absurd (omega arith)
    ] in
    Returns->> IsPhase create_server _ (λ w. inr (
      omega arith,
      soft_aps-append s.calls (calls (c_string (set s.esp_host 4 95))) ∙ omega (arith, none_yet),
    ))

pub collect_aps-IsPhase :
    (wifi : Wifi) (rounds i : ℕ) (s : SimpleWifiScanner)
    → IsPhase s
    → IsPhase (collect_aps wifi rounds i s)
unfolding collect_aps
collect_aps-IsPhase wifi zero i s phase = phase
collect_aps-IsPhase wifi (suc rounds) i s phase =
    collect_aps-IsPhase wifi rounds (i + 1) (collect_ap wifi i s)
      (elim (Bool-cases (ltb s.valid_aps_count max_indexed_scanned_ap && is_candidate wifi i)) [
        | inl kept ↦ rw kept phase
        | inr dropped ↦ rw dropped phase
      ])

abbrev pub Keeps : (SimpleWifiScanner → M SimpleWifiScanner) → Type 0
Keeps op = (s : SimpleWifiScanner) → IsPhase s → Returns IsPhase (op s)

-- The scanner when the first loop of `wifi_scan_done` starts.
abbrev cleared : SimpleWifiScanner → SimpleWifiScanner
cleared s = record s {
  client_state = WifiClientState.filtering_aps;
  valid_aps_count = 0;
  sorted_valid_aps = replicate max_indexed_scanned_ap unset_ap;
}

abbrev used : SimpleWifiScanner → List ApConnData
used s = take s.valid_aps_count s.sorted_valid_aps

module _ (env : Env) where
  wifi_scan_beggin-Keeps : (wifi : Wifi) → Keeps (wifi_scan_beggin env wifi)
  unfolding wifi_scan_beggin
  wifi_scan_beggin-Keeps wifi s phase =
      let enabled : IsPhase (if wifi.sta_enabled then call WifiCall.enable_sta s else s) =
        elim (Bool-cases wifi.sta_enabled) [
          | inl on ↦ rw on (call-IsPhase WifiCall.enable_sta s refl phase)
          | inr off ↦ rw off phase
        ] in
      Returns->> IsPhase (Logger.debug env "wifi_scan_beggin" []) _ (λ w.
        call-IsPhase WifiCall.scan_networks
          (record (if wifi.sta_enabled then call WifiCall.enable_sta s else s) {
            client_state = WifiClientState.scanning;
          })
          refl enabled)

  wifi_connect_beggin-Keeps : (wifi : Wifi) → Keeps (wifi_connect_beggin env wifi)
  unfolding wifi_connect_beggin
  wifi_connect_beggin-Keeps wifi s phase =
      Returns->> IsPhase (Logger.info env " SimpleWiFiScanner::wifi_connect_beggin   " []) _ (λ w.
        elim (Bool-cases ((get_or s.sorted_valid_aps 0 unset_ap).net_index == 255)) [
          | inl unset ↦ rw unset phase
          | inr index ↦ rw index (call-IsPhase (WifiCall.connect _ _ _) s refl phase)
        ])

  pub wifi_scan_done-Keeps : (wifi : Wifi) (n : ℕ) → Keeps (wifi_scan_done env wifi n)
  unfolding wifi_scan_done
  wifi_scan_done-Keeps wifi n s phase =
      let looped = collect_loop-terminates wifi 0 n (cleared s) in
      let collected = collect_aps-IsPhase wifi n 0 (cleared s) phase in
      λ w. elim (Bool-cases (leb n 255)) [
        | inr many ↦ rw (looped, many) tt
        | inl few ↦
            rw (looped, few)
              (elim (Bool-cases (ltb 0 (collect_aps wifi n 0 (cleared s)).valid_aps_count)) [
                | inl some_ap ↦ rw some_ap (
                    Returns->> IsPhase
                      (log_aps env wifi (used (sort_aps wifi (collect_aps wifi n 0 (cleared s))))) _
                      (λ v. collected) w)
                | inr no_ap ↦ rw no_ap collected
              ])
      ]

  pub on_station_connected-Keeps :
      (station mac : List Arg) → Keeps (on_station_connected env station mac)
  unfolding on_station_connected
  on_station_connected-Keeps station mac s phase =
      Returns->> IsPhase (Logger.notice env "onStationConnected ch:%u ssid:%s   " station) _ (
        Returns->> IsPhase (Logger.notice env "mac_hex : %02x:%02x:%02x:%02x:%02x:%02x\n" mac) _
          (λ w. phase))

  pub on_station_got_ip-Keeps :
      (create_client : RemClientInfo → M RemClientInfo) (gw : ℕ) (addresses : List Arg)
      → Keeps (on_station_got_ip env create_client gw addresses)
  unfolding on_station_got_ip
  on_station_got_ip-Keeps create_client gw addresses s phase =
      let info = record s.rcl_info { connected_to_root = true; rem_server_ip = gw } in
      Returns->>= (λ _. Unit {0}) IsPhase (create_client info) _ (Returns-any (create_client info))
        (λ a h.
          Returns->> IsPhase
            (Logger.notice env "onStationGotIP \n\t ip %s \n\t mask %s \n\t gw %s " addresses) _
            (λ w. phase))

  pub on_station_disconnected-Keeps : Keeps (on_station_disconnected env)
  unfolding on_station_disconnected
  on_station_disconnected-Keeps s phase =
      Returns->> IsPhase (Logger.info env "onStationDisconnected" []) _ (λ w. phase)

  rescan_when_due-Keeps : (wifi : Wifi) → Keeps (rescan_when_due env wifi)
  rescan_when_due-Keeps wifi s phase w =
      let (due, l, reads) = Looper.check env.clock s.rescan_looper w.reads in
      elim (Bool-cases (Looper.check env.clock s.rescan_looper w.reads).0) [
        | inl now ↦ rw now (
            wifi_scan_beggin-Keeps wifi (record s { rescan_looper = l }) phase
              (record w { reads = reads }))
        | inr later ↦ rw later phase
      ]

  serve-Keeps :
      (create_server : M (Unit {0})) (s : SimpleWifiScanner)
      → IsPhase s
      → Returns IsPhase (
          if ltb (server_code s.server_state) (server_code WifiServerState.starting_server_ap)
          then ap_server_start create_server s
          else pure s)
  serve-Keeps create_server s phase w = elim (Bool-cases (ltb (server_code s.server_state) 3)) [
    | inl early ↦ rw early (ap_server_start-IsPhase create_server s (ground arith) phase w)
    | inr late ↦ rw late phase
  ]

  serve_when_due-Keeps : (create_server : M (Unit {0})) → Keeps (serve_when_due env create_server)
  serve_when_due-Keeps create_server s phase w =
      let (due, l, reads) = Looper.check env.clock s.servap_looper w.reads in
      let (paced, more) = Looper.set_norm env.clock l reads in
      elim (Bool-cases (Looper.check env.clock s.servap_looper w.reads).0) [
        | inl now ↦ rw now (
            serve-Keeps create_server (record s { servap_looper = paced }) phase
              (record w { reads = more }))
        | inr later ↦ rw later phase
      ]

  pub update-Keeps :
      (wifi : Wifi) (create_server : M (Unit {0})) → Keeps (update env wifi create_server)
  unfolding update
  update-Keeps wifi create_server s phase =
      Returns->>= IsPhase IsPhase (rescan_when_due env wifi s) _
        (rescan_when_due-Keeps wifi s phase)
        (λ t phase_t.
          Returns->>= IsPhase IsPhase (serve_when_due env create_server t) _
            (serve_when_due-Keeps create_server t phase_t)
            (λ u phase_u w.
              elim (Bool-cases (is_selecting u.client_state && not u.is_client_connected)) [
                | inl selecting ↦ rw selecting (wifi_connect_beggin-Keeps wifi u phase_u w)
                | inr other ↦ rw other phase_u
              ]))
