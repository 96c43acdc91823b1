-- ===== src/Wifi/Collecting.antt =====
-- Which networks `wifi_scan_done` keeps, before it sorts them.
use respir_mesh.Wifi.Scan.{collect_ap, found_ap, is_candidate, unset_ap, collect_aps}
use respir_mesh.Wifi.State.{SimpleWifiScanner, ApConnData, max_indexed_scanned_ap, Wifi}
use native.Mathlib.Numerals.{towards_suc}
use mathlib.Core.Path.{ap₂}
use respir_mesh.Base.{
  inl, inr, false, Bool-cases, refl, take-all, append-nil, ◌&&◌, sym, length-append, ◌∙◌, ltb,
  arith, append_assoc, true, ◌+◌, ap, ◌≤◌, ◌≡◌, length, take, ◌-◌, if◌then◌else◌, replicate, ◌∷◌,
  [], set, ◌++◌, ◌<◌, List, ℕ, zero, suc,
}

-- The networks from an index on, for so many of them, that pass the test.
abbrev pub candidates : Wifi → ℕ → ℕ → List ApConnData
candidates wifi zero i = []
candidates wifi (suc rounds) i =
    if is_candidate wifi i
    then found_ap wifi i ∷ candidates wifi rounds (i + 1)
    else candidates wifi rounds (i + 1)

-- A scanner whose array starts with these entries and is unset behind them.
abbrev pub holding : List ApConnData → SimpleWifiScanner → SimpleWifiScanner
holding aps s = record s {
  sorted_valid_aps = aps ++ replicate (max_indexed_scanned_ap - length aps) unset_ap;
  valid_aps_count = length aps;
}

pub set-append {ℓ} :
    {A : Type ℓ} (xs ys : List A) (u v : A)
    → set (xs ++ u ∷ ys) (length xs) v ≡ (xs ++ v ∷ []) ++ ys
set-append [] ys u v = refl
set-append (x ∷ xs) ys u v = ap (◌∷◌ x) (set-append xs ys u v)

take-cons {ℓ} :
    {A : Type ℓ} (xs : List A) (v : A) (cs : List A) (n : ℕ)
    → (xs ++ v ∷ []) ++ take n cs ≡ xs ++ take (n + 1) (v ∷ cs)
take-cons xs v cs n = append_assoc xs (v ∷ []) (take n cs) ∙ simp towards_suc

-- Room for one more entry.
replicate_room :
    (n : ℕ)
    → n < max_indexed_scanned_ap
    → replicate (max_indexed_scanned_ap - n) unset_ap
      ≡ unset_ap ∷ replicate (max_indexed_scanned_ap - (n + 1)) unset_ap
replicate_room n h = ap (λ k. replicate k unset_ap) (room n h)
  where
    room : (n : ℕ) → n < 15 → 15 - n ≡ suc (15 - (n + 1))
    room n h = omega arith

module _ (wifi : Wifi) where
  collect_ap-holding :
      (aps : List ApConnData) (i : ℕ) (s : SimpleWifiScanner)
      → length aps < max_indexed_scanned_ap
      → is_candidate wifi i ≡ true
      → collect_ap wifi i (holding aps s) ≡ holding (aps ++ found_ap wifi i ∷ []) s
  collect_ap-holding aps i s room good =
      let longer : length (aps ++ found_ap wifi i ∷ []) ≡ length aps + 1 =
        length-append aps (found_ap wifi i ∷ []) in
      let both : (ltb (length aps) max_indexed_scanned_ap && is_candidate wifi i) ≡ true =
        ground arith in
      rw both (
        ap₂ (λ stored count. record s { sorted_valid_aps = stored; valid_aps_count = count })
          (ap (λ behind. set (aps ++ behind) (length aps) (found_ap wifi i))
              (replicate_room (length aps) room)
            ∙ set-append aps (replicate (max_indexed_scanned_ap - (length aps + 1)) unset_ap)
                unset_ap (found_ap wifi i)
            ∙ rw longer refl)
          (sym longer))

  collect_ap-full :
      (aps : List ApConnData) (i : ℕ) (s : SimpleWifiScanner)
      → length aps ≡ max_indexed_scanned_ap
      → collect_ap wifi i (holding aps s) ≡ holding aps s
  collect_ap-full aps i s full = ground arith

  collect_ap-skips :
      (aps : List ApConnData) (i : ℕ) (s : SimpleWifiScanner)
      → is_candidate wifi i ≡ false
      → collect_ap wifi i (holding aps s) ≡ holding aps s
  collect_ap-skips aps i s bad = ground arith

  -- The loop keeps the first candidates, as many as there is room for, and touches nothing else.
  pub collect_aps-holding :
      (rounds i : ℕ) (aps : List ApConnData) (s : SimpleWifiScanner)
      → length aps ≤ max_indexed_scanned_ap
      → collect_aps wifi rounds i (holding aps s)
        ≡ holding (aps ++ take (max_indexed_scanned_ap - length aps) (candidates wifi rounds i)) s
  unfolding collect_aps
  collect_aps-holding zero i aps s room =
      ap (λ found. holding found s)
        (sym (append-nil aps)
          ∙ ap (◌++◌ aps) (sym (take-all (max_indexed_scanned_ap - length aps) [] (omega arith))))
  collect_aps-holding (suc rounds) i aps s room =
      let later = candidates wifi rounds (i + 1) in
      let loop = collect_aps wifi rounds (i + 1) in
      elim (Bool-cases (is_candidate wifi i)) [
        | inr bad ↦
            ap loop (collect_ap-skips aps i s bad)
            ∙ collect_aps-holding rounds (i + 1) aps s room
            ∙ rw bad refl
        | inl good ↦ elim (Bool-cases (ltb (length aps) max_indexed_scanned_ap)) [
          | inl free ↦
              let small : length aps < max_indexed_scanned_ap = ground arith in
              let longer : length (aps ++ found_ap wifi i ∷ []) ≡ length aps + 1 =
                length-append aps (found_ap wifi i ∷ []) in
              ap loop (collect_ap-holding aps i s small good)
              ∙ collect_aps-holding rounds (i + 1) (aps ++ found_ap wifi i ∷ []) s
                  (omega (arith, longer))
              ∙ ap (λ found. holding found s)
                  (rw (good, longer)
                    (take-cons aps (found_ap wifi i) later
                        (max_indexed_scanned_ap - (length aps + 1))
                      ∙ ap (λ n. aps ++ take n (found_ap wifi i ∷ later)) (omega arith)))
          | inr taken ↦
              let full : length aps ≡ max_indexed_scanned_ap = ground arith in
              let none_left : max_indexed_scanned_ap - length aps ≡ 0 = omega arith in
              ap loop (collect_ap-full aps i s full)
              ∙ collect_aps-holding rounds (i + 1) aps s room
              ∙ ap (λ found. holding found s) (rw none_left refl)
        ]
      ]
