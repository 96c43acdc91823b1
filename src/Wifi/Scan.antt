-- ===== src/Wifi/Scan.antt =====
-- RemCppCommon/ESP8266/SimpleWiFiScanner.cpp: what becomes of the networks that a scan has found.
use respir_mesh.Node.Fault.{fault, ◌>>◌, pure, M}
use respir_mesh.Wifi.State.{
  minimum_valid_ap_rssi, max_indexed_scanned_ap, WifiClientState, ApConnData, Wifi,
  SimpleWifiScanner,
}
use respir_mesh.Node.Env.{Arg, Env}
use respir_mesh.Logger
use respir_mesh.Base.{
  for_u8, Option, none, some, zero, suc, drop, set, ◌==◌, ◌&&◌, ◌++◌, false, gtb, bits, true, ◌+◌,
  ltb, take, [], ◌∷◌, ◌-◌, suc, replicate, Bool, ℤ, if◌then◌else◌, List, ℕ,
}

abbrev pub starts_with : List ℕ → List ℕ → Bool
starts_with xs [] = true
starts_with [] (y ∷ ys) = false
starts_with (x ∷ xs) (y ∷ ys) = x == y && starts_with xs ys

-- "rspm"
abbrev pub rspm : List ℕ
rspm = 114 ∷ 115 ∷ 112 ∷ 109 ∷ []

-- "generic-pass"
abbrev pub generic_pass : List ℕ
generic_pass = 103 ∷ 101 ∷ 110 ∷ 101 ∷ 114 ∷ 105 ∷ 99 ∷ 45 ∷ 112 ∷ 97 ∷ 115 ∷ 115 ∷ []

abbrev pub unset_ap : ApConnData
unset_ap = record { net_index = 255; rssi = ℤ.pos 255 }

unfoldable pub reset_indexed_valid_aps : SimpleWifiScanner → SimpleWifiScanner
reset_indexed_valid_aps s = record s {
  valid_aps_count = 0;
  sorted_valid_aps = replicate max_indexed_scanned_ap unset_ap;
}

-- One step of the two loops that sort: the entry in front is compared with each that follows, and
-- the two change places when the one behind is stronger.
unfoldable pub pass : ApConnData → List ApConnData → ApConnData × List ApConnData
pass x [] = (x, [])
pass x (y ∷ ys) =
    let (front, behind) = pass (if gtb y.rssi x.rssi then y else x) ys in
    (front, (if gtb y.rssi x.rssi then x else y) ∷ behind)

-- The outer loop, so many rounds of it.
unfoldable pub sort_rounds : ℕ → List ApConnData → List ApConnData
sort_rounds zero xs = xs
sort_rounds (suc n) [] = []
sort_rounds (suc n) (x ∷ xs) = let (front, behind) = pass x xs in front ∷ sort_rounds n behind

module _ (wifi : Wifi) where
  unfoldable pub ap_valid_ssid : List ℕ → Bool
  ap_valid_ssid qssid = if starts_with qssid wifi.s_wifi_ssid then true else starts_with qssid rspm

  unfoldable pub ssid_to_pass : List ℕ → List ℕ
  ssid_to_pass qssid = if starts_with qssid wifi.s_wifi_ssid then wifi.s_wifi_pass else generic_pass

  -- The test of a network, but for the room in the array.
  abbrev pub is_candidate : ℕ → Bool
  is_candidate i = gtb (wifi.rssi i) minimum_valid_ap_rssi && ap_valid_ssid (wifi.ssid i)

  abbrev pub found_ap : ℕ → ApConnData
  found_ap i = record { net_index = i; rssi = wifi.rssi i }

  -- The body of the loop over the networks.
  abbrev pub collect_ap : ℕ → SimpleWifiScanner → SimpleWifiScanner
  collect_ap i s =
      if ltb s.valid_aps_count max_indexed_scanned_ap && is_candidate i
      then record s {
        sorted_valid_aps = set s.sorted_valid_aps s.valid_aps_count (found_ap i);
        valid_aps_count = s.valid_aps_count + 1;
      }
      else s

  -- So many rounds of that loop, from an index on.
  unfoldable pub collect_aps : ℕ → ℕ → SimpleWifiScanner → SimpleWifiScanner
  collect_aps zero i s = s
  collect_aps (suc rounds) i s = collect_aps rounds (i + 1) (collect_ap i s)

  -- The loop as it runs: its index has 8 bits, the count is an `int`.
  unfoldable pub collect_loop : ℕ → ℕ → SimpleWifiScanner → Option SimpleWifiScanner
  collect_loop fuel networks_count s = for_u8 fuel 0 networks_count collect_ap s

  -- The block under `validAPsCount > 0`, but for the log lines.
  abbrev pub sort_aps : SimpleWifiScanner → SimpleWifiScanner
  sort_aps s = record s {
    sorted_valid_aps =
        sort_rounds (s.valid_aps_count - 1) (take s.valid_aps_count s.sorted_valid_aps)
        ++ drop s.valid_aps_count s.sorted_valid_aps;
  }

  abbrev pub ap_args : ApConnData → List Arg
  ap_args ap = Arg.text (wifi.ssid ap.net_index) ∷ Arg.num (bits (wifi.rssi ap.net_index)) ∷ []

module _ (env : Env) (wifi : Wifi) where
  unfoldable pub log_aps : List ApConnData → M (Unit {0})
  log_aps [] = pure tt
  log_aps (ap ∷ aps) = Logger.notice env "AP: %s %ddBm" (ap_args wifi ap) >> log_aps aps

  abbrev pub select_ap : SimpleWifiScanner → M SimpleWifiScanner
  select_ap s =
      log_aps (take s.valid_aps_count s.sorted_valid_aps)
      >> pure (record s { client_state = WifiClientState.selecting_ap })

  -- What follows the loop over the networks, if it has ended.
  abbrev pub after_loop : Option SimpleWifiScanner → M SimpleWifiScanner
  after_loop none = fault
  after_loop (some s) = if ltb 0 s.valid_aps_count then select_ap (sort_aps wifi s) else pure s

  -- A failed scan has a negative count, for which no loop runs, as for 0.
  unfoldable pub wifi_scan_done : ℕ → SimpleWifiScanner → M SimpleWifiScanner
  unfolding reset_indexed_valid_aps
  wifi_scan_done networks_count s =
      let s = record (reset_indexed_valid_aps s) { client_state = WifiClientState.filtering_aps } in
      after_loop (collect_loop wifi 256 networks_count s)
