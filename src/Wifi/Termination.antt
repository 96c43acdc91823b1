-- ===== src/Wifi/Termination.antt =====
-- Whether the loop of `wifi_scan_done` over the networks ends.
use respir_mesh.Wifi.Scan.{collect_ap, collect_aps, collect_loop}
use respir_mesh.Wifi.State.{SimpleWifiScanner, Wifi}
use respir_mesh.Base.{
  ℕ, zero, suc, ◌+◌, ◌≤◌, ◌≡◌, refl, ◌∙◌, ap, arith, some, none, inl, inr, leb, if◌then◌else◌, each,
  for_u8-each, for_u8-never, Bool-cases,
}

pub each-collect_aps :
    (wifi : Wifi) (rounds i : ℕ) (s : SimpleWifiScanner)
    → each (collect_ap wifi) i rounds s ≡ collect_aps wifi rounds i s
unfolding each collect_aps
each-collect_aps wifi zero i s = refl
each-collect_aps wifi (suc rounds) i s = each-collect_aps wifi rounds (i + 1) (collect_ap wifi i s)

pub collect_loop-ends :
    (wifi : Wifi) (fuel networks_count : ℕ) (s : SimpleWifiScanner)
    → networks_count ≤ 255
    → collect_loop wifi (256 + fuel) networks_count s ≡ some (collect_aps wifi networks_count 0 s)
unfolding collect_loop
collect_loop-ends wifi fuel networks_count s few =
    for_u8-each networks_count (256 + fuel) 0 networks_count (collect_ap wifi) s (omega arith) few
      (omega arith)
    ∙ ap some (each-collect_aps wifi networks_count 0 s)

-- The loop over the networks ends if and only if the scan has found at most 255 of them: 256 rounds
-- then do what one round for each network does, and otherwise no number of rounds is enough, since
-- the index of 8 bits starts again at 0.
pub collect_loop-terminates :
    (wifi : Wifi) (fuel networks_count : ℕ) (s : SimpleWifiScanner)
    → collect_loop wifi (256 + fuel) networks_count s
      ≡ (if leb networks_count 255 then some (collect_aps wifi networks_count 0 s) else none)
unfolding collect_loop
collect_loop-terminates wifi fuel networks_count s = elim (Bool-cases (leb networks_count 255)) [
  | inl few ↦ rw few (collect_loop-ends wifi fuel networks_count s (ground arith))
  | inr many ↦
      rw many (
        for_u8-never (256 + fuel) 0 networks_count (collect_ap wifi) s (omega arith) (ground arith))
]
