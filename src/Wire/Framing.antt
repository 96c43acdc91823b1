-- ===== src/Wire/Framing.antt =====
-- A packet says its own length: `set_size` and `get_size` are inverse, on the wire too.
use respir_mesh.Base.{
  get_or-append_left, ◌++◌, ◌>>>◌, u8, ℕ, ◌+◌, ◌*◌, ◌%◌, ◌^◌, ◌≤◌, ◌<◌, ◌≡◌, refl, sym, ◌∙◌, ◌≢◌,
  List, [], ◌∷◌, arith, take, length, length-set, or_shifted, get_or-take, length-take,
}
use mathlib.Core.Path.{ap₂}
use respir_mesh.Wire.Header.{Field, header_size, read, write, set_size, get_size}

-- What `set_size` writes, `get_size` reads, for every size that fits the two bytes and every buffer
-- that holds the header.
pub get_size-set_size :
    (size : ℕ) (buffer : List ℕ)
    → header_size ≤ length buffer
    → size < 2 ^ 16
    → get_size (set_size size buffer) ≡ size
unfolding get_size set_size
get_size-set_size size [] room h = absurd (omega arith)
get_size-set_size size (a ∷ []) room h = absurd (omega arith)
get_size-set_size size (a ∷ b ∷ rest) room h =
    omega (arith, or_shifted 8 (u8 ((size >>> 0) % 256)) (u8 ((size >>> 8) % 256)) (omega arith))

-- No other field of the header changes.
pub read-set_size :
    (f : Field) (size : ℕ) (buffer : List ℕ)
    → f ≢ Field.p_size_000
    → f ≢ Field.p_size_256
    → read f (set_size size buffer) ≡ read f buffer
unfolding read set_size
read-set_size Field.p_size_000 size buffer a b = absurd (a refl)
read-set_size Field.p_size_256 size buffer a b = absurd (b refl)
read-set_size Field.forwarding_type size [] a b = refl
read-set_size Field.forwarding_type size (x ∷ []) a b = refl
read-set_size Field.forwarding_type size (x ∷ y ∷ rest) a b = refl
read-set_size Field.header_type size [] a b = refl
read-set_size Field.header_type size (x ∷ []) a b = refl
read-set_size Field.header_type size (x ∷ y ∷ rest) a b = refl
read-set_size Field.protobuf_type size [] a b = refl
read-set_size Field.protobuf_type size (x ∷ []) a b = refl
read-set_size Field.protobuf_type size (x ∷ y ∷ rest) a b = refl

pub length-set_size : (size : ℕ) (buffer : List ℕ) → length (set_size size buffer) ≡ length buffer
unfolding set_size
length-set_size size buffer = length-set _ _ _ ∙ length-set _ _ _

pub length-write : (f : Field) (v : ℕ) (buffer : List ℕ) → length (write f v buffer) ≡ length buffer
unfolding write
length-write f v buffer = length-set _ _ _

-- Every number of the list is a byte.
abbrev pub AreBytes : List ℕ → Type 0
AreBytes [] = Unit {0}
AreBytes (x ∷ xs) = (x < 256) × AreBytes xs

-- A packet that holds a header and whose size field is its length.
pub record IsFramed (packet : List ℕ) : Type 0 where
  pub holds_header : header_size ≤ length packet
  pub says_size : get_size packet ≡ length packet

get_size-take : (n : ℕ) (buffer : List ℕ) → 2 ≤ n → get_size (take n buffer) ≡ get_size buffer
unfolding get_size
get_size-take n buffer h =
    simp (get_or-take n buffer 0 0 (omega arith), get_or-take n buffer 1 0 (omega arith))

-- If a size of at least the 5 bytes of a header and below 2^16 is stamped into a buffer that is as long,
-- then the first bytes of the buffer, so many, hold a header whose size field reads back as their number.
pub take-set_size-IsFramed :
    (size : ℕ) (buffer : List ℕ)
    → header_size ≤ size
    → size ≤ length buffer
    → size < 2 ^ 16
    → IsFramed (take size (set_size size buffer))
take-set_size-IsFramed size buffer low fits small = record {
  holds_header = omega (arith, long);
  says_size =
      get_size-take size (set_size size buffer) (omega arith)
      ∙ get_size-set_size size buffer (omega arith) small
      ∙ sym long;
}
  where
    long : length (take size (set_size size buffer)) ≡ size
    long = omega (arith, length-take size (set_size size buffer), length-set_size size buffer)

-- Stamping a packet that is framed already writes the bytes that are there, whatever follows it in
-- the buffer.
pub set_size-of_IsFramed :
    (packet rest : List ℕ)
    → AreBytes packet
    → IsFramed packet
    → set_size (length packet) (packet ++ rest) ≡ packet ++ rest
unfolding set_size get_size
set_size-of_IsFramed [] rest bytes framed = absurd (omega (arith, framed.holds_header))
set_size-of_IsFramed (a ∷ []) rest bytes framed = absurd (omega (arith, framed.holds_header))
set_size-of_IsFramed (a ∷ b ∷ body) rest bytes framed =
    let whole : a + b * 256 ≡ length (a ∷ b ∷ body) =
      omega (arith, framed.says_size, or_shifted 8 a b (omega arith)) in
    ap₂ (λ x y. x ∷ y ∷ (body ++ rest)) (omega (arith, whole)) (omega (arith, whole))

-- The header of a packet is read from the buffer that it starts.
pub read-append :
    (f : Field) (packet rest : List ℕ)
    → header_size ≤ length packet
    → read f (packet ++ rest) ≡ read f packet
unfolding read
read-append Field.p_size_000 packet rest h = get_or-append_left packet rest 0 0 (omega arith)
read-append Field.p_size_256 packet rest h = get_or-append_left packet rest 1 0 (omega arith)
read-append Field.forwarding_type packet rest h = get_or-append_left packet rest 2 0 (omega arith)
read-append Field.header_type packet rest h = get_or-append_left packet rest 3 0 (omega arith)
read-append Field.protobuf_type packet rest h = get_or-append_left packet rest 4 0 (omega arith)
