-- ===== src/Base/Loops.antt =====
-- The loops `for (uint8_t i = 0; i < end; i++)`.
use Prim.Native.Nat.{ℕ, zero, suc, ◌+◌, ◌≤◌, ◌<◌}
use mathlib.Core.Path.{◌≡◌, refl, ap, ◌∙◌}
use mathlib.Core.Bool.{true, false}
use mathlib.Core.Logic.{inl, inr}
use mathlib.Core.Option.{Option, none, some}
use native.Mathlib.Omega.{arith}
use respir_mesh.Base.Tests.{Bool-cases, ltb, leb, if◌then◌else◌}
use respir_mesh.Base.Words.{u8}

-- What the body makes of a state at each of so many indices, from one on.
unfoldable pub each {ℓ} : {S : Type ℓ} → (ℕ → S → S) → ℕ → ℕ → S → S
each body first zero state = state
each body first (suc count) state = each body (first + 1) count (body first state)

-- The loop as it runs: the index has 8 bits, the end may have more. Without fuel it has not ended.
unfoldable pub for_u8 {ℓ} : {S : Type ℓ} → ℕ → ℕ → ℕ → (ℕ → S → S) → S → Option S
for_u8 zero index end body state = none
for_u8 (suc fuel) index end body state =
    let next = for_u8 fuel (u8 (index + 1)) end body (body index state) in
    if ltb index end then next else some state

pub for_u8-each {ℓ} :
    {S : Type ℓ} (count fuel first end : ℕ) (body : ℕ → S → S) (state : S)
    → first + count ≡ end
    → end ≤ 255
    → count < fuel
    → for_u8 fuel first end body state ≡ some (each body first count state)
unfolding for_u8 each
for_u8-each count zero first end body state e small enough = absurd (omega arith)
for_u8-each zero (suc fuel) first end body state e small enough =
    let stops : ltb first end ≡ false = ground arith in rw stops refl
for_u8-each (suc count) (suc fuel) first end body state e small enough =
    let goes : ltb first end ≡ true = ground arith in
    let next : u8 (first + 1) ≡ first + 1 = omega arith in
    rw (goes, next)
      (for_u8-each count fuel (first + 1) end body (body first state) (omega arith) small
        (omega arith))

-- An end that the index cannot reach.
pub for_u8-never {ℓ} :
    {S : Type ℓ} (fuel index end : ℕ) (body : ℕ → S → S) (state : S)
    → index ≤ 255
    → 255 < end
    → for_u8 fuel index end body state ≡ none
unfolding for_u8
for_u8-never zero index end body state low high = refl
for_u8-never (suc fuel) index end body state low high =
    let goes : ltb index end ≡ true = ground arith in
    rw goes (for_u8-never fuel (u8 (index + 1)) end body (body index state) (omega arith) high)

-- Two loops whose bodies do the same to two views of a state end with the same views.
pub each-map {ℓ κ} :
    {S : Type ℓ} {T : Type κ} (f : S → T) (body : ℕ → S → S) (other : ℕ → T → T)
    → ((i : ℕ) (state : S) → f (body i state) ≡ other i (f state))
    → (first count : ℕ) (state : S)
    → f (each body first count state) ≡ each other first count (f state)
unfolding each
each-map f body other step first zero state = refl
each-map f body other step first (suc count) state =
    each-map f body other step (first + 1) count (body first state)
    ∙ ap (each other (first + 1) count) (step first state)

pub each-idle {ℓ} :
    {S : Type ℓ} (first count : ℕ) (state : S) → each (λ i s. s) first count state ≡ state
unfolding each
each-idle first zero state = refl
each-idle first (suc count) state = each-idle (first + 1) count state

-- Such a loop whose body does nothing to the state.
pub for_u8-idle {ℓ} :
    {S : Type ℓ} (end : ℕ) (state : S)
    → for_u8 256 0 end (λ i s. s) state ≡ (if leb end 255 then some state else none)
for_u8-idle end state = elim (Bool-cases (leb end 255)) [
  | inl small ↦ rw small (
      for_u8-each end 256 0 end (λ i s. s) state (omega arith) (ground arith) (ground arith)
      ∙ ap some (each-idle 0 end state))
  | inr large ↦ rw large (for_u8-never 256 0 end (λ i s. s) state (omega arith) (ground arith))
]
