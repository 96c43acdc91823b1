-- ===== src/EspOld/Shifting.antt =====
-- The array of the children as a list: what the search finds and what the shift leaves.
use respir_mesh.EspOld.Children.{index_of, shift}
use respir_mesh.Base.{
  ℕ, zero, suc, ◌-◌, ◌≤◌, ◌<◌, List, [], ◌∷◌, ◌++◌, none, some, Bool, true, false, ◌≡◌, refl, ◌∙◌,
  ap, arith, ◌==◌, ◌||◌, if◌then◌else◌, set, get_or, take, length, inl, inr, Bool-cases, length-set,
}

-- The list without the first entry that is `c`.
abbrev pub remove : ℕ → List ℕ → List ℕ
remove c [] = []
remove c (x ∷ xs) = if x == c then xs else x ∷ remove c xs

abbrev pub contains : ℕ → List ℕ → Bool
contains c [] = false
contains c (x ∷ xs) = x == c || contains c xs

-- The shift does not touch what stands before its start.
shift_cons : (n i x : ℕ) (xs : List ℕ) → shift n (suc i) (x ∷ xs) ≡ x ∷ shift n i xs
unfolding shift
shift_cons zero i x xs = refl
shift_cons (suc n) i x xs = shift_cons n (suc i) x (set xs i (get_or xs (suc i) 0))

-- A shift from the front drops the first entry.
take-shift_front : (n x : ℕ) (xs : List ℕ) → n ≤ length xs → take n (shift n 0 (x ∷ xs)) ≡ take n xs
unfolding shift
take-shift_front zero x xs h = refl
take-shift_front (suc n) x [] h = absurd (omega arith)
take-shift_front (suc n) x (y ∷ ys) h =
    ap (take (suc n)) (shift_cons n 0 y (y ∷ ys))
    ∙ ap (◌∷◌ y) (take-shift_front n y ys (omega arith))

pub length-shift : (n i : ℕ) (xs : List ℕ) → length (shift n i xs) ≡ length xs
unfolding shift
length-shift zero i xs = refl
length-shift (suc n) i xs =
    length-shift n (suc i) (set xs i (get_or xs (suc i) 0)) ∙ length-set xs i (get_or xs (suc i) 0)

-- An entry in the part of the array that is in use is found there, and shifting from its place
-- removes it from that part.
pub index_of-contains :
    (c m : ℕ) (xs : List ℕ)
    → contains c (take (suc m) xs) ≡ true
    → suc m ≤ length xs
    → (i : ℕ) × (index_of c xs ≡ some i)
      × (take m (shift (m - i) i xs) ≡ remove c (take (suc m) xs))
unfolding index_of
index_of-contains c m [] h room = absurd (omega arith)
index_of-contains c zero (x ∷ xs) h room = elim (Bool-cases (x == c)) [
  | inl here ↦ (0, rw here refl, rw here refl)
  | inr elsewhere ↦ absurd (ground arith)
]
index_of-contains c (suc m) (x ∷ xs) h room = elim (Bool-cases (x == c)) [
  | inl here ↦
      let rounds : suc m - 0 ≡ suc m = omega arith in
      (0, rw here refl, rw (here, rounds) (take-shift_front (suc m) x xs (omega arith)))
  | inr elsewhere ↦
      let r = index_of-contains c m xs (ground arith) (omega arith) in
      let rounds : suc m - suc r.0 ≡ m - r.0 = omega arith in
      (
        suc r.0,
        rw (elsewhere, r.1) refl,
        rw (elsewhere, rounds) (ap (take (suc m)) (shift_cons (m - r.0) r.0 x xs) ∙ ap (◌∷◌ x) r.2),
      )
]

-- What the array does not hold is not found, and neither a write of something else nor the shift
-- brings it in.
pub index_of-absent : (c : ℕ) (xs : List ℕ) → contains c xs ≡ false → index_of c xs ≡ none
unfolding index_of
index_of-absent c [] h = refl
index_of-absent c (x ∷ xs) h =
    let first : (x == c) ≡ false = ground arith in
    rw (first, index_of-absent c xs (ground arith)) refl

pub contains-set :
    (c i v : ℕ) (xs : List ℕ)
    → (v == c) ≡ false
    → contains c xs ≡ false
    → contains c (set xs i v) ≡ false
contains-set c i v [] other h = refl
contains-set c zero v (x ∷ xs) other h = ground arith
contains-set c (suc i) v (x ∷ xs) other h = ground (arith, contains-set c i v xs other)

contains-get_or :
    (c i : ℕ) (xs : List ℕ) → 0 < c → contains c xs ≡ false → (get_or xs i 0 == c) ≡ false
contains-get_or c i [] pos h = ground arith
contains-get_or c zero (x ∷ xs) pos h = ground arith
contains-get_or c (suc i) (x ∷ xs) pos h = contains-get_or c i xs pos (ground arith)

pub contains-shift :
    (c n i : ℕ) (xs : List ℕ) → 0 < c → contains c xs ≡ false → contains c (shift n i xs) ≡ false
unfolding shift
contains-shift c zero i xs pos h = h
contains-shift c (suc n) i xs pos h =
    contains-shift c n (suc i) (set xs i (get_or xs (suc i) 0)) pos
      (contains-set c i (get_or xs (suc i) 0) xs (contains-get_or c (suc i) xs pos h) h)

-- Writing behind the part that is in use appends to it.
pub take-set :
    (n v : ℕ) (xs : List ℕ) → n < length xs → take (suc n) (set xs n v) ≡ take n xs ++ v ∷ []
take-set n v [] h = absurd (omega arith)
take-set zero v (x ∷ xs) h = refl
take-set (suc n) v (x ∷ xs) h = ap (◌∷◌ x) (take-set n v xs (omega arith))
