-- ===== src/EspOld/Networks.antt =====
-- The end of a scan in the old sketch and in `SimpleWiFiScanner`.
use respir_mesh.EspOld.State.{and_then, EspOld, Libraries}
use respir_mesh.EspOld.Station.{
  ap_valid_ssid, collect_ap, reset_indexed_valid_aps, wifi_scan_callback, after_loop,
}
use respir_mesh.Wifi.Scan.{collect_aps, unset_ap, wifi_scan_done, log_aps}
use respir_mesh.Wifi.Scan
use respir_mesh.Wifi.State.{
  SimpleWifiScanner, Wifi, WifiClientState, max_indexed_scanned_ap, minimum_valid_ap_rssi,
}
use respir_mesh.Wifi.Termination.{collect_loop-terminates, each-collect_aps}
use respir_mesh.Node.Env.{Env}
use respir_mesh.Node.State.{Node}
use mathlib.Core.Option.{none-ne-some}
use mathlib.Core.Path.{ap₂}
use respir_mesh.Node.Returns.{Returns, Returns->>, Returns-ran}
use respir_mesh.Base.{
  and_assoc, set, or-true, if-map, or-false, ℕ, ◌+◌, none, some, true, false, not, ◌&&◌, ◌||◌, ltb,
  leb, gtb, if◌then◌else◌, ◌≡◌, refl, ◌∙◌, ap, sym, arith, replicate, take, inl, inr, Bool-cases,
  each, for_u8, for_u8-each, each-map, each-idle,
}

-- A scanner with the networks of the sketch.
abbrev as_scanner : SimpleWifiScanner → EspOld → SimpleWifiScanner
as_scanner z s = record z {
  sorted_valid_aps = s.sorted_valid_aps;
  valid_aps_count = s.valid_aps_count;
}

-- The scanner when its loop starts.
abbrev cleared : SimpleWifiScanner → SimpleWifiScanner
cleared z = record z {
  client_state = WifiClientState.filtering_aps;
  valid_aps_count = 0;
  sorted_valid_aps = replicate max_indexed_scanned_ap unset_ap;
}

collect_ap-agrees :
    (wifi : Wifi) (z : SimpleWifiScanner) (i : ℕ) (s : EspOld)
    → as_scanner z (collect_ap wifi i s) ≡ Scan.collect_ap wifi i (as_scanner z s)
unfolding collect_ap ap_valid_ssid Scan.ap_valid_ssid
collect_ap-agrees wifi z i s =
    if-map (as_scanner z) _ _ s
    ∙ ap
        (λ b.
          if b
          then as_scanner z (record s {
            sorted_valid_aps = set s.sorted_valid_aps s.valid_aps_count (Scan.found_ap wifi i);
            valid_aps_count = s.valid_aps_count + 1;
          })
          else as_scanner z s)
        (and_assoc (ltb s.valid_aps_count max_indexed_scanned_ap)
          (gtb (wifi.rssi i) minimum_valid_ap_rssi) (ap_valid_ssid wifi (wifi.ssid i)))

collect_ap-need :
    (wifi : Wifi) (i : ℕ) (s : EspOld)
    → (collect_ap wifi i s).need_to_connect_to_station ≡ s.need_to_connect_to_station
unfolding collect_ap
collect_ap-need wifi i s =
    elim (Bool-cases (
      ltb s.valid_aps_count max_indexed_scanned_ap
      && gtb (wifi.rssi i) minimum_valid_ap_rssi
      && ap_valid_ssid wifi (wifi.ssid i))) [
        | inl kept ↦ rw kept refl
        | inr dropped ↦ rw dropped refl
      ]

-- What the scanner keeps, once it is sorted.
abbrev settled : Wifi → SimpleWifiScanner → SimpleWifiScanner
settled wifi c = if ltb 0 c.valid_aps_count then Scan.sort_aps wifi c else c

settled-count :
    (wifi : Wifi) (c : SimpleWifiScanner) → (settled wifi c).valid_aps_count ≡ c.valid_aps_count
settled-count wifi c = elim (Bool-cases (ltb 0 c.valid_aps_count)) [
  | inl some_ap ↦ rw some_ap refl
  | inr no_ap ↦ rw no_ap refl
]

abbrev Keeps : Wifi → SimpleWifiScanner → SimpleWifiScanner → Type 0
Keeps wifi c after =
    (after.sorted_valid_aps ≡ (settled wifi c).sorted_valid_aps)
    × (after.valid_aps_count ≡ c.valid_aps_count)

module _ (env : Env) (wifi : Wifi) (n : ℕ) (z : SimpleWifiScanner) where
  wifi_scan_done-Keeps :
      leb n 255 ≡ true
      → Returns (Keeps wifi (collect_aps wifi n 0 (cleared z))) (wifi_scan_done env wifi n z)
  unfolding wifi_scan_done
  wifi_scan_done-Keeps few =
      let c = collect_aps wifi n 0 (cleared z) in
      let looped = collect_loop-terminates wifi 0 n (cleared z) in
      λ w.
        rw (looped, few)
          (elim (Bool-cases (ltb 0 c.valid_aps_count)) [
            | inl some_ap ↦ rw some_ap (
                Returns->> (Keeps wifi c)
                  (log_aps env wifi
                    (take c.valid_aps_count (Scan.sort_aps wifi c).sorted_valid_aps))
                  _ (λ v. (rw some_ap refl, refl)) w)
            | inr no_ap ↦ rw no_ap (rw no_ap refl, refl)
          ])

module _ (env : Env) (lib : Libraries) (wifi : Wifi) (n : ℕ) (z : SimpleWifiScanner) where
  wifi_scan_done-many : leb n 255 ≡ false → (w : Node) → wifi_scan_done env wifi n z w ≡ none
  unfolding wifi_scan_done
  wifi_scan_done-many many w = rw (collect_loop-terminates wifi 0 n (cleared z), many) refl

  -- The loop of the sketch, which collects what that of the scanner does.
  collected :
      (s : EspOld)
      → leb n 255 ≡ true
      → (c : EspOld) × (for_u8 256 0 n (collect_ap wifi) (reset_indexed_valid_aps s) ≡ some c)
        × (as_scanner (cleared z) c ≡ collect_aps wifi n 0 (cleared z))
        × (c.need_to_connect_to_station ≡ s.need_to_connect_to_station)
  unfolding reset_indexed_valid_aps
  collected s few =
      let start = reset_indexed_valid_aps s in
      (
        each (collect_ap wifi) 0 n start,
        for_u8-each n 256 0 n (collect_ap wifi) start (omega arith) (ground arith) (ground arith),
        each-map (as_scanner (cleared z)) (collect_ap wifi) (Scan.collect_ap wifi)
              (collect_ap-agrees wifi (cleared z)) 0 n start
            ∙ each-collect_aps wifi n 0 (cleared z),
        each-map (λ (t : EspOld). t.need_to_connect_to_station) (collect_ap wifi) (λ i b. b)
              (collect_ap-need wifi) 0 n start
            ∙ each-idle 0 n s.need_to_connect_to_station,
      )

  -- The block behind the loop.
  after_loop-settled :
      (c : EspOld)
      → (as_scanner (cleared z) (after_loop lib wifi c) ≡ settled wifi (as_scanner (cleared z) c))
        × ((after_loop lib wifi c).need_to_connect_to_station
            ≡ (c.need_to_connect_to_station || (ltb 0 c.valid_aps_count && not lib.wl_connected)))
  after_loop-settled c = elim (Bool-cases (ltb 0 c.valid_aps_count)) [
    | inl some_ap ↦ elim (Bool-cases lib.wl_connected) [
      | inl up ↦ rw (some_ap, up) (refl, sym (or-false c.need_to_connect_to_station))
      | inr down ↦ rw (some_ap, down) (refl, sym (or-true c.need_to_connect_to_station))
    ]
    | inr no_ap ↦ rw no_ap (refl, sym (or-false c.need_to_connect_to_station))
  ]

-- Whatever `wifi_scan_done` of the scanner returns with, `wifiScanCallback` of the old sketch returns
-- on the same scan with the same array and the same count; it asks for a connection if there is a
-- network and the station is not connected.
pub wifi_scan_callback-agrees :
    (env : Env) (lib : Libraries) (wifi : Wifi) (networks_count : ℕ) (z after : SimpleWifiScanner)
    (w v : Node) (s : EspOld)
    → wifi_scan_done env wifi networks_count z w ≡ some (after, v)
    → (t : EspOld) × (wifi_scan_callback lib wifi networks_count s ≡ some t)
      × (t.sorted_valid_aps ≡ after.sorted_valid_aps)
      × (t.valid_aps_count ≡ after.valid_aps_count)
      × (t.need_to_connect_to_station
          ≡ (s.need_to_connect_to_station || (ltb 0 after.valid_aps_count && not lib.wl_connected)))
unfolding wifi_scan_callback
wifi_scan_callback-agrees env lib wifi n z after w v s ran = elim (Bool-cases (leb n 255)) [
  | inr many ↦
      absurd (none-ne-some (after, v) (sym (wifi_scan_done-many env lib wifi n z many w) ∙ ran))
  | inl few ↦
      let c = collected env lib wifi n z s few in
      let kept =
        Returns-ran (Keeps wifi (collect_aps wifi n 0 (cleared z))) (wifi_scan_done env wifi n z) w
          (wifi_scan_done-Keeps env wifi n z few) ran in
      let end = after_loop-settled env lib wifi n z c.0 in
      let same = end.0 ∙ ap (settled wifi) c.2 in
      (
        after_loop lib wifi c.0,
        ap (λ o. and_then o (λ t. some (after_loop lib wifi t))) c.1,
        ap (λ (a : SimpleWifiScanner). a.sorted_valid_aps) same ∙ sym kept.0,
        ap (λ (a : SimpleWifiScanner). a.valid_aps_count) same
            ∙ settled-count wifi (collect_aps wifi n 0 (cleared z))
            ∙ sym kept.1,
        end.1
            ∙ ap₂ (λ need count. need || (ltb 0 count && not lib.wl_connected)) c.3
                (ap (λ (a : SimpleWifiScanner). a.valid_aps_count) c.2 ∙ sym kept.1),
      )
]
