-- ===== src/Base/Lists.antt =====
-- Properties of all elements of a list, and membership.
use mathlib.Core.Path.{◌≡◌, sym, ap, subst}
use mathlib.Core.List.{List, [], ◌∷◌, ◌++◌, Memᴰ}

module _ {ℓ} {A : Type ℓ} where
  -- Each element of the list has the property.
  abbrev pub All : (A → Type ℓ) → List A → Type ℓ
  All P [] = Unit {ℓ}
  All P (x ∷ xs) = P x × All P xs

pub All-append {ℓ} :
    {A : Type ℓ} (P : A → Type ℓ) (xs : List A) (x : A) → All P xs → P x → All P (xs ++ x ∷ [])
All-append P [] x h p = (p, tt)
All-append P (y ∷ ys) x (q, h) p = (q, All-append P ys x h p)

pub All-map {ℓ} :
    {A : Type ℓ} {P Q : A → Type ℓ} (xs : List A) → ((x : A) → P x → Q x) → All P xs → All Q xs
All-map [] f h = tt
All-map (x ∷ xs) f (p, h) = (f x p, All-map xs f h)

pub All-both {ℓ} :
    {A : Type ℓ} (P : A → Type ℓ) (xs ys : List A) → All P xs → All P ys → All P (xs ++ ys)
All-both P [] ys h k = k
All-both P (x ∷ xs) ys (p, h) k = (p, All-both P xs ys h k)

pub All-taken {ℓ} :
    {A : Type ℓ} (P : A → Type ℓ) (before behind : List A) (x : A)
    → All P (before ++ x ∷ behind)
    → P x × All P (before ++ behind)
All-taken P [] behind x (p, h) = (p, h)
All-taken P (y ∷ before) behind x (q, h) =
    let (p, rest) = All-taken P before behind x h in (p, (q, rest))

pub All-Memᴰ {ℓ} : {A : Type ℓ} (P : A → Type ℓ) (xs : List A) (x : A) → All P xs → Memᴰ x xs → P x
All-Memᴰ P [] x h m = elim m [ ]
All-Memᴰ P (y ∷ ys) x (p, h) (Memᴰ.head e) = subst P (sym e) p
All-Memᴰ P (y ∷ ys) x (p, h) (Memᴰ.tail m) = All-Memᴰ P ys x h m

pub Memᴰ-append {ℓ} : {A : Type ℓ} (xs ys : List A) (x : A) → Memᴰ x ys → Memᴰ x (xs ++ ys)
Memᴰ-append [] ys x m = m
Memᴰ-append (y ∷ xs) ys x m = Memᴰ.tail (Memᴰ-append xs ys x m)

pub taken {ℓ} :
    {A : Type ℓ} (xs : List A) (x : A)
    → Memᴰ x xs
    → (before : List A) × (behind : List A) × (xs ≡ before ++ x ∷ behind)
taken [] x m = elim m [ ]
taken (y ∷ xs) x (Memᴰ.head e) = ([], xs, ap (λ z. z ∷ xs) (sym e))
taken (y ∷ xs) x (Memᴰ.tail m) =
    let (before, behind, e) = taken xs x m in (y ∷ before, behind, ap (◌∷◌ y) e)
