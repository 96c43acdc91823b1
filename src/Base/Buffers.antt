-- ===== src/Base/Buffers.antt =====
-- Writes of several bytes into a buffer, and C strings.
use Prim.Native.Nat.{ℕ, zero, suc, ◌+◌, ◌≤◌}
use mathlib.Core.Path.{◌≡◌, refl, ap}
use mathlib.Core.List.{List, [], ◌∷◌, ◌++◌}
use native.Mathlib.Omega.{arith}
use respir_mesh.Base.Arrays.{length, take, get_or}
use respir_mesh.Base.Tests.{◌==◌, if◌then◌else◌}

-- The bytes up to the first zero, which is where `strcpy` and `%s` stop.
unfoldable pub c_string : List ℕ → List ℕ
c_string [] = []
c_string (c ∷ cs) = if c == 0 then [] else c ∷ c_string cs

pub length-c_string : (cs : List ℕ) → length (c_string cs) ≤ length cs
unfolding c_string
length-c_string [] = omega arith
length-c_string (c ∷ cs) = ground (arith, length-c_string cs)

-- The bytes written over the start of the buffer; what does not fit is dropped.
unfoldable pub overwrite : List ℕ → List ℕ → List ℕ
overwrite [] buffer = buffer
overwrite (b ∷ bytes) [] = []
overwrite (b ∷ bytes) (x ∷ buffer) = b ∷ overwrite bytes buffer

-- The bytes written from an offset on.
unfoldable pub overlay : ℕ → List ℕ → List ℕ → List ℕ
unfolding overwrite
overlay zero bytes buffer = overwrite bytes buffer
overlay (suc n) bytes [] = []
overlay (suc n) bytes (x ∷ buffer) = x ∷ overlay n bytes buffer

pub length-overwrite : (bytes buffer : List ℕ) → length (overwrite bytes buffer) ≡ length buffer
unfolding overwrite
length-overwrite [] buffer = refl
length-overwrite (b ∷ bytes) [] = refl
length-overwrite (b ∷ bytes) (x ∷ buffer) = ap suc (length-overwrite bytes buffer)

pub length-overlay :
    (n : ℕ) (bytes buffer : List ℕ) → length (overlay n bytes buffer) ≡ length buffer
unfolding overlay
length-overlay zero bytes buffer = length-overwrite bytes buffer
length-overlay (suc n) bytes [] = refl
length-overlay (suc n) bytes (x ∷ buffer) = ap suc (length-overlay n bytes buffer)

-- What stands before the offset stays.
pub get_or-overlay :
    (n : ℕ) (bytes buffer : List ℕ) (i d : ℕ)
    → suc i ≤ n
    → get_or (overlay n bytes buffer) i d ≡ get_or buffer i d
unfolding overlay
get_or-overlay zero bytes buffer i d h = elim h [ ]
get_or-overlay (suc n) bytes [] i d h = refl
get_or-overlay (suc n) bytes (x ∷ buffer) zero d h = refl
get_or-overlay (suc n) bytes (x ∷ buffer) (suc i) d h =
    get_or-overlay n bytes buffer i d (omega arith)

pub take-overwrite :
    (bytes buffer : List ℕ)
    → length bytes ≤ length buffer
    → take (length bytes) (overwrite bytes buffer) ≡ bytes
unfolding overwrite
take-overwrite [] buffer h = refl
take-overwrite (b ∷ bytes) [] h = elim h [ ]
take-overwrite (b ∷ bytes) (x ∷ buffer) h = ap (◌∷◌ b) (take-overwrite bytes buffer (omega arith))

-- The first of the bytes are found again, too.
pub take-overwrite_short :
    (n : ℕ) (bytes buffer : List ℕ)
    → n ≤ length bytes
    → length bytes ≤ length buffer
    → take n (overwrite bytes buffer) ≡ take n bytes
unfolding overwrite
take-overwrite_short zero bytes buffer short h = refl
take-overwrite_short (suc n) [] buffer short h = absurd (omega arith)
take-overwrite_short (suc n) (b ∷ bytes) [] short h = absurd (omega arith)
take-overwrite_short (suc n) (b ∷ bytes) (x ∷ buffer) short h =
    ap (◌∷◌ b) (take-overwrite_short n bytes buffer (omega arith) (omega arith))

-- The bytes are found again behind the offset.
pub take-overlay :
    (n m : ℕ) (bytes buffer : List ℕ)
    → m ≡ n + length bytes
    → m ≤ length buffer
    → take m (overlay n bytes buffer) ≡ take n buffer ++ bytes
unfolding overlay
take-overlay zero m bytes buffer e h =
    let same : m ≡ length bytes = omega arith in rw same (take-overwrite bytes buffer (omega arith))
take-overlay (suc n) m bytes [] e h = absurd (omega arith)
take-overlay (suc n) zero bytes (x ∷ buffer) e h = absurd (omega arith)
take-overlay (suc n) (suc m) bytes (x ∷ buffer) e h =
    ap (◌∷◌ x) (take-overlay n m bytes buffer (omega arith) (omega arith))
