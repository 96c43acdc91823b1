-- ===== src/Base/Ints.antt =====
-- The integers over the native numbers, as far as the program compares and prints them.
use Prim.Native.Nat.{ℕ, ◌-◌, ◌%◌, ◌^◌}
use mathlib.Core.Path.{◌≡◌}
use mathlib.Core.Bool.{Bool, true, false}
use native.Mathlib.Omega.{arith}
use respir_mesh.Base.Tests.{ltb}

-- `negsuc n` is - n - 1.
pub data ℤ : Type 0 where
  pos negsuc : ℕ → ℤ

-- `x > y`
abbrev pub gtb : ℤ → ℤ → Bool
gtb (pos a) (pos b) = ltb b a
gtb (pos a) (negsuc b) = true
gtb (negsuc a) (pos b) = false
gtb (negsuc a) (negsuc b) = ltb a b

-- An `int` as its 32 bits.
abbrev pub bits : ℤ → ℕ
bits (pos n) = n % 2 ^ 32
bits (negsuc n) = (2 ^ 32 - 1) - n % 2 ^ 32

pub gtb-false_trans : (x y z : ℤ) → gtb x y ≡ false → gtb y z ≡ false → gtb x z ≡ false
gtb-false_trans (pos a) (pos b) (pos c) h k = ground arith
gtb-false_trans (pos a) (pos b) (negsuc c) h k = ground arith
gtb-false_trans (pos a) (negsuc b) z h k = ground arith
gtb-false_trans (negsuc a) (pos b) (pos c) h k = ground arith
gtb-false_trans (negsuc a) (pos b) (negsuc c) h k = ground arith
gtb-false_trans (negsuc a) (negsuc b) (pos c) h k = ground arith
gtb-false_trans (negsuc a) (negsuc b) (negsuc c) h k = ground arith

pub gtb-false_refl : (x : ℤ) → gtb x x ≡ false
gtb-false_refl (pos a) = ground arith
gtb-false_refl (negsuc a) = ground arith

pub gtb_asymm : (x y : ℤ) → gtb x y ≡ true → gtb y x ≡ false
gtb_asymm (pos a) (pos b) h = ground arith
gtb_asymm (pos a) (negsuc b) h = ground arith
gtb_asymm (negsuc a) (pos b) h = ground arith
gtb_asymm (negsuc a) (negsuc b) h = ground arith
