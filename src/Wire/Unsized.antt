-- ===== src/Wire/Unsized.antt =====
-- Packets that go out without the size in their header, as the older clients send them.
use respir_mesh.Wire.Assembly.{length-assembled, packet_of, take-assembled}
use respir_mesh.Wire.Header.{header_size, label, set_size, write}
use respir_mesh.Base.{
  ℕ, zero, suc, ◌+◌, ◌^◌, ◌≤◌, ◌<◌, List, [], ◌∷◌, ◌≡◌, refl, ◌∙◌, ap, arith, take, set, length,
  overlay, length-take,
}

-- The start of a buffer in which a packet has been put together, but for its size.
abbrev pub unsized : ℕ → ℕ → List ℕ → List ℕ → List ℕ
unsized forwarding protobuf body buffer =
    take (length body + header_size) (overlay header_size body (label forwarding protobuf buffer))

set-take {ℓ} :
    {A : Type ℓ} (n i : ℕ) (v : A) (xs : List A) → set (take n xs) i v ≡ take n (set xs i v)
set-take zero i v xs = refl
set-take (suc n) i v [] = refl
set-take (suc n) zero v (x ∷ xs) = refl
set-take (suc n) (suc i) v (x ∷ xs) = ap (◌∷◌ x) (set-take n i v xs)

set_size-take : (n size : ℕ) (xs : List ℕ) → set_size size (take n xs) ≡ take n (set_size size xs)
unfolding set_size write
set_size-take n size xs = rw (set-take, set-take) refl

-- Stamped with its size, such a packet is the one that the router would send.
pub set_size-unsized :
    (forwarding protobuf : ℕ) (body buffer : List ℕ)
    → length body + header_size ≤ length buffer
    → length body + header_size < 2 ^ 16
    → let p = unsized forwarding protobuf body buffer in
      set_size (length p) p ≡ packet_of forwarding protobuf body
set_size-unsized forwarding protobuf body buffer room small =
    let whole = overlay header_size body (label forwarding protobuf buffer) in
    let size : length (unsized forwarding protobuf body buffer) ≡ length body + header_size =
      omega (
        arith,
        length-take (length body + header_size) whole,
        length-assembled forwarding protobuf body buffer,
      ) in
    rw size (
      set_size-take (length body + header_size) (length body + header_size) whole
      ∙ take-assembled forwarding protobuf body buffer room small)
