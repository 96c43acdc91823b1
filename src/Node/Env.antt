-- ===== src/Node/Env.antt =====
-- What the program calls and does not implement: the hardware clock, the sockets, nanopb and
-- vsnprintf. Each is a parameter; calls whose answers differ from time to time are numbered.
use Prim.Native.String.{String}
use respir_mesh.Base.{ℕ, ◌≤◌, ◌<◌, ◌≡◌, Bool, true, List, Option, length}
use respir_mesh.Wire.Messages.{RespirMeshInfo, RespirMeshLog, message_size}

-- What `inet_stream::snd` does: it throws, or returns a negative or a non-negative count.
pub data SndResult : Type 0 where
  threw negative : SndResult
  wrote : ℕ → SndResult

-- An argument of a printf-like call.
pub data Arg : Type 0 where
  num : ℕ → Arg
  text : List ℕ → Arg

-- What `pb_encode` into a buffer leaves: its status and the bytes that it has written.
pub record Encoded : Type 0 where
  pub status : Bool
  pub bytes : List ℕ

pub record Env : Type 0 where
  -- the n-th `time_milis()`, before it is cut to 32 bits
  pub clock : ℕ → ℕ
  -- `device_id()`
  pub device_id : ℕ
  -- the n-th call of the socket library: `snd`, `connect` (true if it does not throw), `fcntl`
  -- (true if it finds the descriptor open), `setup` of a listening socket
  pub snd : ℕ → SndResult
  pub connects : ℕ → Bool
  pub fd_open : ℕ → Bool
  pub sets_up : ℕ → Bool
  -- `shutdown` of a stream and `destroy` of a listening socket: true if it does not throw
  pub shuts_down : ℕ → Bool
  -- `AsyncClient::write`, the number of bytes it takes, and `AsyncClient::connected`
  pub write : ℕ → ℕ → ℕ
  pub connected : ℕ → Bool
  -- nanopb: a message and the room in the buffer; the memory from a pointer on and a length
  pub encode_info : RespirMeshInfo → ℕ → Encoded
  pub encode_log : RespirMeshLog → ℕ → Encoded
  pub decode_info : List ℕ → ℕ → Option RespirMeshInfo
  pub pb_error : List ℕ
  -- the whole text of a format and its arguments, before `vsnprintf` cuts it
  pub vsnprintf : String → List Arg → List ℕ
  -- how many calls of the logger fit on the stack, one inside the other
  pub log_depth : ℕ

-- What nanopb documents of its encoder: it stays within the buffer, and it fails only for want of
-- room (a RespirMeshInfo takes 14 bytes at most, a RespirMeshLog 267).
pub record Encodes (env : Env) : Type 0 where
  pub info_room : (m : RespirMeshInfo) (n : ℕ) → length (env.encode_info m n).bytes ≤ n
  pub log_room : (m : RespirMeshLog) (n : ℕ) → length (env.encode_log m n).bytes ≤ n
  pub info_size : (m : RespirMeshInfo) (n : ℕ) → length (env.encode_info m n).bytes ≤ 14
  pub info_status : (m : RespirMeshInfo) (n : ℕ) → 14 ≤ n → (env.encode_info m n).status ≡ true
  pub log_status :
      (m : RespirMeshLog) (n : ℕ)
      → 267 ≤ n
      → length m.message < message_size
      → (env.encode_log m n).status ≡ true
