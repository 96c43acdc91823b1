-- ===== src/Wifi/Choice.antt =====
-- The whole of `wifi_scan_done`, and which access point `wifi_connect_beggin` then connects to.
use respir_mesh.Node.Fault.{pure, ◌>>◌, >>-runs}
use respir_mesh.Wire.Messages.{Severity}
use respir_mesh.Logger.Delivery.{Logged-trans, Logged-refl, Logged}
use respir_mesh.Logger.{logger, log_packet_size}
use respir_mesh.Node.State.{Node}
use respir_mesh.Wifi.Termination.{collect_loop-ends}
use respir_mesh.Wifi.Collecting.{collect_aps-holding, holding, candidates}
use respir_mesh.Wifi.Scan.{
  is_candidate, sort_aps, select_ap, sort_rounds, collect_aps, unset_ap, log_aps, wifi_scan_done,
  ap_args,
}
use respir_mesh.Logger.Lines.{line, Fits}
use respir_mesh.Wifi.Sorting.{sort_rounds-All, sort_rounds_lem, length-sort_rounds, Descending}
use respir_mesh.Wifi.State.{
  WifiClientState, max_indexed_scanned_ap, ApConnData, SimpleWifiScanner, Wifi,
}
use respir_mesh.Node.Env.{Encodes, Env}
use mathlib.Core.Path.{ap₂, subst}
use respir_mesh.Wifi.Collecting.{collect_aps-holding}
use respir_mesh.Base.{
  All, length-replicate, length-take, length-append, zero, true, suc, ◌<◌, ◌+◌, inr, drop-append,
  ap, take-append, sym, ◌++◌, inl, Bool-cases, arith, ◌∙◌, ◌∙◌, ltb, some, if◌then◌else◌, ◌≤◌, ◌-◌,
  replicate, drop, length, take, ◌≡◌, List, ℕ, refl, [], ◌∷◌,
}
use mathlib.Core.List.{Perm}
use mathlib.Core.List.Perm
use respir_mesh.Logger

-- The networks that a scan keeps: the first fifteen that pass the test.
abbrev pub kept_aps : Wifi → ℕ → List ApConnData
kept_aps wifi networks_count = take max_indexed_scanned_ap (candidates wifi networks_count 0)

-- The entries of the array that are in use.
abbrev pub used_aps : SimpleWifiScanner → List ApConnData
used_aps s = take s.valid_aps_count s.sorted_valid_aps

-- An entry that stands for a network of the scan that passes the test.
abbrev pub IsFound : Wifi → ℕ → ApConnData → Type 0
IsFound wifi networks_count ap =
    (ap.net_index < networks_count)
    × (is_candidate wifi ap.net_index ≡ true)
    × (ap.rssi ≡ wifi.rssi ap.net_index)

candidates-All :
    (wifi : Wifi) (networks_count rounds i : ℕ)
    → i + rounds ≤ networks_count
    → All (IsFound wifi networks_count) (candidates wifi rounds i)
candidates-All wifi networks_count zero i h = tt
candidates-All wifi networks_count (suc rounds) i h =
    let later = candidates-All wifi networks_count rounds (i + 1) (omega arith) in
    elim (Bool-cases (is_candidate wifi i)) [
      | inl good ↦ rw good ((omega arith, good, refl), later)
      | inr bad ↦ rw bad later
    ]

All-take {ℓ} : {A : Type ℓ} (P : A → Type ℓ) (n : ℕ) (xs : List A) → All P xs → All P (take n xs)
All-take P zero xs h = tt
All-take P (suc n) [] h = tt
All-take P (suc n) (x ∷ xs) (p, h) = (p, All-take P n xs h)

empty-Descending : (xs : List ApConnData) → length xs ≡ 0 → Descending xs
empty-Descending [] h = tt
empty-Descending (x ∷ xs) h = absurd (omega arith)

length-stored :
    (aps : List ApConnData) (n : ℕ)
    → length aps ≡ n
    → n ≤ max_indexed_scanned_ap
    → length (aps ++ replicate (max_indexed_scanned_ap - n) unset_ap) ≡ max_indexed_scanned_ap
length-stored aps n size room = omega (
  arith,
  length-append aps (replicate (max_indexed_scanned_ap - n) unset_ap),
  length-replicate (max_indexed_scanned_ap - n) unset_ap,
)

-- What a scan leaves: the kept networks, the strongest first, nothing else in the array, and a
-- state that says whether there is one.
pub record Scanned (wifi : Wifi) (networks_count : ℕ) (after : SimpleWifiScanner) : Type 0 where
  pub same : Perm (kept_aps wifi networks_count) (used_aps after)
  pub ordered : Descending (used_aps after)
  pub count : after.valid_aps_count ≡ length (kept_aps wifi networks_count)
  pub unused :
      drop after.valid_aps_count after.sorted_valid_aps
      ≡ replicate (max_indexed_scanned_ap - after.valid_aps_count) unset_ap
  pub stored : length after.sorted_valid_aps ≡ max_indexed_scanned_ap
  pub state : after.client_state ≡ (
      if ltb 0 after.valid_aps_count
      then WifiClientState.selecting_ap
      else WifiClientState.filtering_aps)
  pub found : All (IsFound wifi networks_count) (used_aps after)

module _ (env : Env) (enc : Encodes env) (wifi : Wifi)
    (texts : (ap : ApConnData) → Fits env "AP: %s %ddBm" (ap_args wifi ap)) where
  log_aps-runs :
      (aps : List ApConnData) (w : Node)
      → length w.log_packet ≡ log_packet_size
      → (v : Node) × (log_aps env wifi aps w ≡ some (tt, v)) × Logged w v
  unfolding log_aps Logger.notice
  log_aps-runs [] w sized = (w, refl, Logged-refl w)
  log_aps-runs (ap ∷ aps) w sized =
      let l =
        line env enc Severity.notice "[NOTICE]" "AP: %s %ddBm" (ap_args wifi ap) w sized
          (texts ap) in
      let r = log_aps-runs aps l.after (l.kept.log_size ∙ sized) in
      (
        r.0,
        >>-runs (Logger.notice env "AP: %s %ddBm" (ap_args wifi ap)) (log_aps env wifi aps) w l.runs
            ∙ r.1,
        Logged-trans l.kept r.2,
      )

  -- The branch with at least one network, once the loop has stored what is kept.
  select_ap-runs :
      (kept : List ApConnData) (s : SimpleWifiScanner) (w : Node)
      → length w.log_packet ≡ log_packet_size
      → let sorted = sort_rounds (length kept - 1) kept in
        (v : Node) × (select_ap env wifi (sort_aps wifi (holding kept s)) w
          ≡ some (
            record s {
              sorted_valid_aps =
                  sorted ++ replicate (max_indexed_scanned_ap - length kept) unset_ap;
              valid_aps_count = length kept;
              client_state = WifiClientState.selecting_ap;
            },
            v,
          ))
        × Logged w v
  select_ap-runs kept s w sized =
      let sorted = sort_rounds (length kept - 1) kept in
      let behind = replicate (max_indexed_scanned_ap - length kept) unset_ap in
      let r = log_aps-runs sorted w sized in
      let used =
        take-append sorted behind (length kept) (sym (length-sort_rounds (length kept - 1) kept)) in
      let whole = record s { sorted_valid_aps = sorted ++ behind; valid_aps_count = length kept } in
      (
        r.0,
        ap (λ aps. select_ap env wifi (record (holding kept s) { sorted_valid_aps = aps }) w)
              (ap₂ (λ front back. sort_rounds (length kept - 1) front ++ back)
                (take-append kept behind (length kept) refl)
                (drop-append kept behind (length kept) refl))
            ∙ ap
                (λ aps.
                  (log_aps env wifi aps
                      >> pure (record whole { client_state = WifiClientState.selecting_ap }))
                    w)
                used
            ∙ >>-runs (log_aps env wifi sorted)
                (pure (record whole { client_state = WifiClientState.selecting_ap })) w r.1,
        r.2,
      )

  -- If nanopb keeps its promises and the texts fit, the end of a scan of at most 255 networks
  -- returns: the array starts with the first fifteen networks that are strong enough and whose name
  -- is of this mesh, in descending order of their strength, and is unset behind them; the scanner is
  -- ready to select one if there is one.
  pub wifi_scan_done-Scanned :
      (networks_count : ℕ) (s : SimpleWifiScanner) (w : Node)
      → networks_count ≤ 255
      → length w.log_packet ≡ log_packet_size
      → (after : SimpleWifiScanner) × (v : Node) × (wifi_scan_done env wifi networks_count s w
          ≡ some (after, v))
        × Scanned wifi networks_count after
        × Logged w v
  unfolding wifi_scan_done
  wifi_scan_done-Scanned networks_count s w few sized =
      let kept = kept_aps wifi networks_count in
      let start = record s { client_state = WifiClientState.filtering_aps } in
      let collected : collect_aps wifi networks_count 0 (holding [] start) ≡ holding kept start =
        collect_aps-holding wifi networks_count 0 [] start (omega arith) in
      let each : All (IsFound wifi networks_count) kept =
        All-take (IsFound wifi networks_count) max_indexed_scanned_ap
          (candidates wifi networks_count 0)
          (candidates-All wifi networks_count networks_count 0 (omega arith)) in
      let room : length kept ≤ max_indexed_scanned_ap =
        omega (arith, length-take max_indexed_scanned_ap (candidates wifi networks_count 0)) in
      let ends = collect_loop-ends wifi 0 networks_count (holding [] start) few in
      elim (Bool-cases (ltb 0 (length kept))) [
        | inl some_ap ↦
            let sorted = sort_rounds (length kept - 1) kept in
            let behind = replicate (max_indexed_scanned_ap - length kept) unset_ap in
            let r = select_ap-runs kept start w sized in
            let size = sym (length-sort_rounds (length kept - 1) kept) in
            let used = take-append sorted behind (length kept) size in
            (
              record start {
                sorted_valid_aps = sorted ++ behind;
                valid_aps_count = length kept;
                client_state = WifiClientState.selecting_ap;
              },
              r.0,
              rw (ends, collected, some_ap) r.1,
              record {
                same = subst (Perm kept) (sym used) (sort_rounds_lem kept).0;
                ordered = subst Descending (sym used) (sort_rounds_lem kept).1;
                count = refl;
                unused = drop-append sorted behind (length kept) size;
                stored = length-stored sorted (length kept) (sym size) room;
                state = rw some_ap refl;
                found =
                    subst (All (IsFound wifi networks_count)) (sym used)
                      (sort_rounds-All (IsFound wifi networks_count) (length kept - 1) kept each);
              },
              r.2,
            )
        | inr no_ap ↦
            let nothing : length kept ≡ 0 = ground arith in
            let used =
              take-append kept (replicate (max_indexed_scanned_ap - length kept) unset_ap)
                (length kept) refl in
            (
              holding kept start,
              w,
              rw (ends, collected, no_ap) refl,
              record {
                same = subst (Perm kept) (sym used) (Perm.refl kept);
                ordered = subst Descending (sym used) (empty-Descending kept nothing);
                count = refl;
                unused = drop-append kept _ (length kept) refl;
                stored = length-stored kept (length kept) refl room;
                state = rw no_ap refl;
                found = subst (All (IsFound wifi networks_count)) (sym used) each;
              },
              Logged-refl w,
            )
      ]
