-- ===== src/Wire/Header.antt =====
-- `RemBasicHeader` of RemCppCommon/RemHeaderTypes.hpp, five bytes laid over the start of a buffer.
use respir_mesh.Base.{ℕ, ◌%◌, List, get_or, set, u8, u16, ◌<<<◌, ◌>>>◌, bit_or}
use respir_mesh.Wire.Protobuf

pub data Field : Type 0 where
  p_size_000 p_size_256 forwarding_type header_type protobuf_type : Field

unfoldable pub offset : Field → ℕ
offset Field.p_size_000 = 0
offset Field.p_size_256 = 1
offset Field.forwarding_type = 2
offset Field.header_type = 3
offset Field.protobuf_type = 4

-- `sizeof(RemBasicHeader)`
abbrev pub header_size : ℕ
header_size = 5

-- `((RemBasicHeader *)buffer)->field`, and an assignment to it.
unfoldable pub read : Field → List ℕ → ℕ
unfolding offset
read f buffer = get_or buffer (offset f) 0

unfoldable pub write : Field → ℕ → List ℕ → List ℕ
unfolding offset
write f v buffer = set buffer (offset f) (u8 v)

-- `x & 0xff` is the remainder by 256.
unfoldable pub set_size : ℕ → List ℕ → List ℕ
unfolding write
set_size size buffer =
    write Field.p_size_256 ((size >>> 8) % 256) (write Field.p_size_000 ((size >>> 0) % 256) buffer)

unfoldable pub get_size : List ℕ → ℕ
unfolding read
get_size buffer = u16 (bit_or (read Field.p_size_000 buffer) (read Field.p_size_256 buffer <<< 8))

-- The three assignments by which both senders label a packet, in their order.
unfoldable pub label : ℕ → ℕ → List ℕ → List ℕ
unfolding write
label forwarding protobuf buffer =
    write Field.protobuf_type protobuf (
      write Field.header_type Protobuf.header_basic (write Field.forwarding_type forwarding buffer))
