-- ===== src/Wifi/Sorting.antt =====
-- The sort of `wifi_scan_done`: its result is ordered, and keeps what it sorts.
use respir_mesh.Wifi.Scan.{sort_rounds, pass}
use respir_mesh.Wifi.State.{ApConnData}
use mathlib.Core.Path.{subst}
use respir_mesh.Base.{
  All, ◌∙◌, Bool, sym, refl, [], gtb_asymm, if◌then◌else◌, inr, gtb-false_trans, inl, false, arith,
  ap, ◌+◌, ◌≤◌, Bool-cases, ◌-◌, ◌≡◌, ◌∷◌, gtb-false_refl, gtb, length, List, ℕ, zero, suc,
}
use mathlib.Core.List.{Perm}
use mathlib.Core.List.Perm

-- No stronger than the given one.
abbrev pub NoStronger : ApConnData → ApConnData → Type 0
NoStronger x y = gtb y.rssi x.rssi ≡ false

-- The strongest come first.
abbrev pub Descending : List ApConnData → Type 0
Descending [] = Unit {0}
Descending (x ∷ xs) = All (NoStronger x) xs × Descending xs

pub pass-All :
    (P : ApConnData → Type 0) (x : ApConnData) (ys : List ApConnData)
    → P x
    → All P ys
    → P (pass x ys).0 × All P (pass x ys).1
unfolding pass
pass-All P x [] px pys = (px, tt)
pass-All P x (y ∷ ys) px (py, pys) = elim (Bool-cases (gtb y.rssi x.rssi)) [
  | inl stronger ↦
      rw stronger (let (front, behind) = pass-All P y ys py pys in (front, (px, behind)))
  | inr weaker ↦ rw weaker (let (front, behind) = pass-All P x ys px pys in (front, (py, behind)))
]

-- A pass once it is known which of the first two entries is the stronger.
abbrev compared : ApConnData → ApConnData → List ApConnData → Bool → ApConnData × List ApConnData
compared x y ys b =
    let (front, behind) = pass (if b then y else x) ys in (front, (if b then x else y) ∷ behind)

abbrev Front : ApConnData → ApConnData × List ApConnData → Type 0
Front x r = NoStronger r.0 x × All (NoStronger r.0) r.1

-- What comes to the front is at least as strong as the entry that stood there and as all others.
pass-Front : (x : ApConnData) (ys : List ApConnData) → Front x (pass x ys)
unfolding pass
pass-Front x [] = (gtb-false_refl x.rssi, tt)
pass-Front x (y ∷ ys) = elim (Bool-cases (gtb y.rssi x.rssi)) [
  | inl stronger ↦ subst (Front x) (sym (ap (compared x y ys) stronger)) (
      let (front, behind) = pass-Front y ys in
      let below =
        gtb-false_trans x.rssi y.rssi (pass y ys).0.rssi (gtb_asymm y.rssi x.rssi stronger) front in
      (below, (below, behind)))
  | inr weaker ↦ subst (Front x) (sym (ap (compared x y ys) weaker)) (
      let (front, behind) = pass-Front x ys in
      (front, (gtb-false_trans y.rssi x.rssi (pass x ys).0.rssi weaker front, behind)))
]

length-pass : (x : ApConnData) (ys : List ApConnData) → length (pass x ys).1 ≡ length ys
unfolding pass
length-pass x [] = refl
length-pass x (y ∷ ys) = ap suc (length-pass (if gtb y.rssi x.rssi then y else x) ys)

pass-Perm : (x : ApConnData) (ys : List ApConnData) → Perm (x ∷ ys) ((pass x ys).0 ∷ (pass x ys).1)
unfolding pass
pass-Perm x [] = Perm.refl _
pass-Perm x (y ∷ ys) = elim (Bool-cases (gtb y.rssi x.rssi)) [
  | inl stronger ↦ rw stronger (Perm.trans (Perm.cons x (pass-Perm y ys)) (Perm.swap _ _ _))
  | inr weaker ↦
      rw weaker
        (Perm.trans (Perm.swap _ _ _) (Perm.trans (Perm.cons y (pass-Perm x ys)) (Perm.swap _ _ _)))
]

pub sort_rounds-All :
    (P : ApConnData → Type 0) (n : ℕ) (xs : List ApConnData) → All P xs → All P (sort_rounds n xs)
unfolding sort_rounds
sort_rounds-All P zero xs h = h
sort_rounds-All P (suc n) [] h = tt
sort_rounds-All P (suc n) (x ∷ xs) (px, pxs) =
    let (front, behind) = pass-All P x xs px pxs in
    (front, sort_rounds-All P n (pass x xs).1 behind)

sort_rounds-Perm : (n : ℕ) (xs : List ApConnData) → Perm xs (sort_rounds n xs)
unfolding sort_rounds
sort_rounds-Perm zero xs = Perm.refl xs
sort_rounds-Perm (suc n) [] = Perm.refl []
sort_rounds-Perm (suc n) (x ∷ xs) =
    Perm.trans (pass-Perm x xs) (Perm.cons (pass x xs).0 (sort_rounds-Perm n (pass x xs).1))

pub length-sort_rounds : (n : ℕ) (xs : List ApConnData) → length (sort_rounds n xs) ≡ length xs
unfolding sort_rounds
length-sort_rounds zero xs = refl
length-sort_rounds (suc n) [] = refl
length-sort_rounds (suc n) (x ∷ xs) = ap suc (length-sort_rounds n (pass x xs).1 ∙ length-pass x xs)

sort_rounds-Descending :
    (n : ℕ) (xs : List ApConnData) → length xs ≤ n + 1 → Descending (sort_rounds n xs)
unfolding sort_rounds
sort_rounds-Descending zero [] h = tt
sort_rounds-Descending zero (x ∷ []) h = (tt, tt)
sort_rounds-Descending zero (x ∷ y ∷ ys) h = absurd (omega arith)
sort_rounds-Descending (suc n) [] h = tt
sort_rounds-Descending (suc n) (x ∷ xs) h = (
  sort_rounds-All (NoStronger (pass x xs).0) n (pass x xs).1 (pass-Front x xs).1,
  sort_rounds-Descending n (pass x xs).1 (omega (arith, length-pass x xs)),
)

-- One round less than there are entries sorts them: the result has the same entries, equally often,
-- and no entry is stronger than one that stands before it.
pub sort_rounds_lem :
    (xs : List ApConnData)
    → Perm xs (sort_rounds (length xs - 1) xs) × Descending (sort_rounds (length xs - 1) xs)
sort_rounds_lem xs =
    (sort_rounds-Perm (length xs - 1) xs, sort_rounds-Descending (length xs - 1) xs (omega arith))
