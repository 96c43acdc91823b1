-- ===== src/Wire/Assembly.antt =====
-- How a packet is put together in a send buffer: header labels, the encoded body behind them, and
-- the size last.
use native.Mathlib.Numerals.{towards_suc}
use respir_mesh.Base.{
  take-overwrite_short, length-take, drop, ◌++◌, length-set, length-overlay, take-overwrite, ◌∙◌, ℕ,
  ◌+◌, ◌/◌, ◌%◌, ◌^◌, ◌≤◌, ◌<◌, ◌≡◌, refl, List, [], ◌∷◌, arith, take, length, u8, overlay,
  overwrite,
}
use mathlib.Core.Path.{ap₂}
use respir_mesh.Wire.Protobuf
use respir_mesh.Wire.Header.{Field, read, write, header_size, set_size, label}

-- A packet written out: its length in two bytes, the lower one first, three labels and the body.
unfoldable pub packet_of : ℕ → ℕ → List ℕ → List ℕ
packet_of forwarding protobuf body =
    (size % 256) ∷ (size / 256) ∷ u8 forwarding ∷ Protobuf.header_basic ∷ u8 protobuf ∷ body
  where
    size : ℕ
    size = length body + header_size

take_header :
    (n a b c d e : ℕ) (xs : List ℕ)
    → take (n + header_size) (a ∷ b ∷ c ∷ d ∷ e ∷ xs) ≡ a ∷ b ∷ c ∷ d ∷ e ∷ take n xs
take_header n a b c d e xs = simp towards_suc

ap₃ {ℓ} :
    {A B C : Type 0} {D : Type ℓ} (f : A → B → C → D) {a a' : A} {b b' : B} {c c' : C}
    → a ≡ a'
    → b ≡ b'
    → c ≡ c'
    → f a b c ≡ f a' b' c'
ap₃ f p q r = λ i. f (p i) (q i) (r i)

-- What the senders leave in a buffer that is long enough starts with exactly that packet, whatever
-- the buffer held before.
pub take-assembled :
    (forwarding protobuf : ℕ) (body buffer : List ℕ)
    → length body + header_size ≤ length buffer
    → length body + header_size < 2 ^ 16
    → take (length body + header_size) (
        set_size
          (length body + header_size)
          (overlay header_size body (label forwarding protobuf buffer)))
      ≡ packet_of forwarding protobuf body
unfolding set_size overlay label packet_of
take-assembled forwarding protobuf body [] room small = absurd (omega arith)
take-assembled forwarding protobuf body (_ ∷ []) room small = absurd (omega arith)
take-assembled forwarding protobuf body (_ ∷ _ ∷ []) room small = absurd (omega arith)
take-assembled forwarding protobuf body (_ ∷ _ ∷ _ ∷ []) room small = absurd (omega arith)
take-assembled forwarding protobuf body (_ ∷ _ ∷ _ ∷ _ ∷ []) room small = absurd (omega arith)
take-assembled forwarding protobuf body (_ ∷ _ ∷ _ ∷ _ ∷ _ ∷ rest) room small =
    take_header (length body) _ _ _ _ _ (overwrite body rest)
    ∙ ap₃ (λ a b r. a ∷ b ∷ u8 forwarding ∷ Protobuf.header_basic ∷ u8 protobuf ∷ r) (omega arith)
        (omega arith) (take-overwrite body rest (omega arith))

-- A sender that takes less than the body that it finds sends a packet with the start of it.
pub take-assembled_short :
    (forwarding protobuf n : ℕ) (body buffer : List ℕ)
    → n ≤ length body
    → length body + header_size ≤ length buffer
    → n + header_size < 2 ^ 16
    → take
        (n + header_size)
        (set_size (n + header_size) (overlay header_size body (label forwarding protobuf buffer)))
      ≡ packet_of forwarding protobuf (take n body)
unfolding set_size overlay label packet_of
take-assembled_short forwarding protobuf n body [] short room small = absurd (omega arith)
take-assembled_short forwarding protobuf n body (_ ∷ []) short room small = absurd (omega arith)
take-assembled_short forwarding protobuf n body (_ ∷ _ ∷ []) short room small = absurd (omega arith)
take-assembled_short forwarding protobuf n body (_ ∷ _ ∷ _ ∷ []) short room small =
    absurd (omega arith)
take-assembled_short forwarding protobuf n body (_ ∷ _ ∷ _ ∷ _ ∷ []) short room small =
    absurd (omega arith)
take-assembled_short forwarding protobuf n body (_ ∷ _ ∷ _ ∷ _ ∷ _ ∷ rest) short room small =
    let cut : length (take n body) ≡ n = omega (arith, length-take n body) in
    take_header n _ _ _ _ _ (overwrite body rest)
    ∙ ap₃ (λ a b r. a ∷ b ∷ u8 forwarding ∷ Protobuf.header_basic ∷ u8 protobuf ∷ r)
        (omega (arith, cut)) (omega (arith, cut))
        (take-overwrite_short n body rest short (omega arith))

-- The labels are read back from the buffer, also once the body is in place.
pub read-assembled :
    (forwarding protobuf : ℕ) (body buffer : List ℕ)
    → header_size ≤ length buffer
    → let assembled = overlay header_size body (label forwarding protobuf buffer) in
      (read Field.forwarding_type assembled ≡ u8 forwarding)
      × (read Field.protobuf_type assembled ≡ u8 protobuf)
unfolding read overlay label
read-assembled forwarding protobuf body [] room = absurd (omega arith)
read-assembled forwarding protobuf body (_ ∷ []) room = absurd (omega arith)
read-assembled forwarding protobuf body (_ ∷ _ ∷ []) room = absurd (omega arith)
read-assembled forwarding protobuf body (_ ∷ _ ∷ _ ∷ []) room = absurd (omega arith)
read-assembled forwarding protobuf body (_ ∷ _ ∷ _ ∷ _ ∷ []) room = absurd (omega arith)
read-assembled forwarding protobuf body (_ ∷ _ ∷ _ ∷ _ ∷ _ ∷ rest) room = (refl, refl)

pub length-assembled :
    (forwarding protobuf : ℕ) (body buffer : List ℕ)
    → length (overlay header_size body (label forwarding protobuf buffer)) ≡ length buffer
unfolding label write
length-assembled forwarding protobuf body buffer =
    length-overlay _ _ _ ∙ length-set _ _ _ ∙ length-set _ _ _ ∙ length-set _ _ _

pub length-packet_of :
    (forwarding protobuf : ℕ) (body : List ℕ)
    → length (packet_of forwarding protobuf body) ≡ length body + header_size
unfolding packet_of
length-packet_of forwarding protobuf body = omega arith

-- A written-out packet is what its size says: stamping it again changes nothing.
pub set_size-packet_of :
    (forwarding protobuf : ℕ) (body rest : List ℕ)
    → length body + header_size < 2 ^ 16
    → set_size (length body + header_size) (packet_of forwarding protobuf body ++ rest)
      ≡ packet_of forwarding protobuf body ++ rest
unfolding set_size packet_of
set_size-packet_of forwarding protobuf body rest small =
    ap₂ (λ a b. a ∷ b ∷ u8 forwarding ∷ Protobuf.header_basic ∷ u8 protobuf ∷ (body ++ rest))
      (omega arith) (omega arith)

-- The parts of a written-out packet.
pub read-packet_of :
    (forwarding protobuf : ℕ) (body rest : List ℕ)
    → (read Field.forwarding_type (packet_of forwarding protobuf body ++ rest) ≡ u8 forwarding)
      × (read Field.protobuf_type (packet_of forwarding protobuf body ++ rest) ≡ u8 protobuf)
      × (drop header_size (packet_of forwarding protobuf body ++ rest) ≡ body ++ rest)
unfolding read packet_of
read-packet_of forwarding protobuf body rest = (refl, refl, refl)

-- Copying the header of a packet over a buffer and changing its forwarding type labels the buffer
-- as a sender would.
pub relabel :
    (forwarding before protobuf : ℕ) (body rest buffer : List ℕ)
    → header_size ≤ length buffer
    → let copied = overwrite (take header_size (packet_of before protobuf body ++ rest)) buffer in
      write Field.forwarding_type forwarding copied ≡ label forwarding protobuf copied
unfolding write label packet_of overwrite
relabel forwarding before protobuf body rest [] room = absurd (omega arith)
relabel forwarding before protobuf body rest (_ ∷ []) room = absurd (omega arith)
relabel forwarding before protobuf body rest (_ ∷ _ ∷ []) room = absurd (omega arith)
relabel forwarding before protobuf body rest (_ ∷ _ ∷ _ ∷ []) room = absurd (omega arith)
relabel forwarding before protobuf body rest (_ ∷ _ ∷ _ ∷ _ ∷ []) room = absurd (omega arith)
relabel forwarding before protobuf body rest (_ ∷ _ ∷ _ ∷ _ ∷ _ ∷ more) room = refl

pub read-copied :
    (forwarding protobuf : ℕ) (body rest buffer : List ℕ)
    → header_size ≤ length buffer
    → read Field.forwarding_type
        (overwrite (take header_size (packet_of forwarding protobuf body ++ rest)) buffer)
      ≡ u8 forwarding
unfolding read packet_of overwrite
read-copied forwarding protobuf body rest [] room = absurd (omega arith)
read-copied forwarding protobuf body rest (_ ∷ []) room = absurd (omega arith)
read-copied forwarding protobuf body rest (_ ∷ _ ∷ []) room = absurd (omega arith)
read-copied forwarding protobuf body rest (_ ∷ _ ∷ _ ∷ []) room = absurd (omega arith)
read-copied forwarding protobuf body rest (_ ∷ _ ∷ _ ∷ _ ∷ []) room = absurd (omega arith)
read-copied forwarding protobuf body rest (_ ∷ _ ∷ _ ∷ _ ∷ _ ∷ more) room = refl
