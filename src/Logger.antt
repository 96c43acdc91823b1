-- ===== src/Logger.antt =====
-- RemCppCommon/RemLogger.hpp and RemLogger.cpp: every log line goes to the root as a packet.
pub mod Delivery
pub mod Failure
pub mod Lines
mod Tests
use Prim.Native.String.{String}
use respir_mesh.Base.{
  ◌-◌, ℕ, zero, suc, ◌+◌, Bool, true, false, List, [], ◌∷◌, Option, none, some, u16, u32, leb,
  length, take, c_string, overlay, if◌then◌else◌,
}
use respir_mesh.Wire.Forwarding
use respir_mesh.Wire.Protobuf
use respir_mesh.Wire.Header.{header_size, label}
use respir_mesh.Wire.Messages.{Severity, RespirMeshLog, message_size}
use respir_mesh.Node.Env.{Env, Arg, Encoded}
use respir_mesh.Node.State.{Node}
use respir_mesh.Node.Fault.{M, fault, ◌>>=◌}
use respir_mesh.Router.Send.{send_packet}

-- `REM_LOG_STRING_BUFFER_SIZE`, the size of `log_buffer`; `pb_buffer` is twice as long.
abbrev pub log_string_buffer_size : ℕ
log_string_buffer_size = 300

abbrev pub log_packet_size : ℕ
log_packet_size = 600

-- The `int` that the logging functions return: -1, or the size of the packet.
pub data LogReturn : Type 0 where
  minus_one : LogReturn
  packet_size : ℕ → LogReturn

module _ (env : Env) where
  -- The message struct, once the clock has been read.
  abbrev pub log_message : Severity → List ℕ → Node → RespirMeshLog
  log_message severity message w = record {
    source_timestamp = u32 (env.clock w.reads);
    source_id = env.device_id;
    severity = severity;
    message = message;
  }

  -- After `pb_encode`: the packet goes to the router, or `error` is called.
  abbrev pub send_encoded : M LogReturn → Encoded → Node → Option (LogReturn × Node)
  send_encoded error encoded w =
      if encoded.status
      then (let size = u16 (length encoded.bytes + header_size) in
          let (buffer, v) = send_packet env w.log_packet size w in
          some (packet_size size, record v { log_packet = buffer }))
      else (error >>= (λ _ v. some (minus_one, v))) w

  -- `send_log_packet`, with the call of `logs->error` that it makes when the encoder fails as an
  -- argument. `strcpy` into `message` writes out of bounds from 250 characters on.
  unfoldable pub send_log_packet : M LogReturn → Severity → List ℕ → M LogReturn
  send_log_packet error severity message w =
      let text = c_string message in
      let encoded = env.encode_log (log_message severity text w) (log_packet_size - header_size) in
      if leb message_size (length text)
      then none
      else send_encoded error encoded (record w {
        reads = w.reads + 1;
        log_packet =
            overlay header_size encoded.bytes (label Forwarding.to_root Protobuf.log w.log_packet);
      })

  -- `logger`, for a stack with room for so many calls of it inside one another.
  unfoldable pub logger : ℕ → Severity → String → String → List Arg → M LogReturn
  unfolding send_log_packet
  logger zero severity tags format args w = none
  logger (suc depth) severity tags format args w =
      let text = take (log_string_buffer_size - 1) (env.vsnprintf format args) in
      send_log_packet
        (logger depth Severity.err "[ERR]" "Encoding Mesh Topology failed: %s\n"
          (Arg.text env.pb_error ∷ []))
        severity text (record w { log_buffer = text })

  unfoldable pub emerg : String → List Arg → M LogReturn
  emerg = logger env.log_depth Severity.emerg "[EMERG]"

  unfoldable pub alert : String → List Arg → M LogReturn
  alert = logger env.log_depth Severity.alert "[ALERT]"

  unfoldable pub crit : String → List Arg → M LogReturn
  crit = logger env.log_depth Severity.crit "[CRIT]"

  unfoldable pub error : String → List Arg → M LogReturn
  error = logger env.log_depth Severity.err "[ERR]"

  unfoldable pub warn : String → List Arg → M LogReturn
  warn = logger env.log_depth Severity.warning "[WARN]"

  unfoldable pub notice : String → List Arg → M LogReturn
  notice = logger env.log_depth Severity.notice "[NOTICE]"

  unfoldable pub info : String → List Arg → M LogReturn
  info = logger env.log_depth Severity.info "[INFO]"

  unfoldable pub debug : String → List Arg → M LogReturn
  debug = logger env.log_depth Severity.debug "[DEBUG]"
