-- ===== src/Linux/Logging.antt =====
-- Logging on a Linux node neither lists a channel nor takes a receiver away.
use respir_mesh.Linux.Steady.{send_packet-Steady}
use respir_mesh.Linux.Wired.{IsSteady, IsSteady->>=, Steady, Steady-trans}
use respir_mesh.Logger
use respir_mesh.Logger.{
  minus_one, log_string_buffer_size, LogReturn, log_message, log_packet_size, logger, send_encoded,
  send_log_packet,
}
use respir_mesh.Node.Env.{Arg, Env}
use respir_mesh.Node.Fault.{M}
use respir_mesh.Router.Send.{send_packet}
use respir_mesh.Wire.Assembly.{length-assembled}
use respir_mesh.Wire.Forwarding
use respir_mesh.Wire.Framing.{length-set_size}
use respir_mesh.Wire.Header.{header_size, label, set_size}
use respir_mesh.Wire.Messages.{Severity, message_size}
use respir_mesh.Wire.Protobuf
use Prim.Native.String.{String}
use respir_mesh.Base.{
  ◌-◌, ℕ, zero, suc, ◌+◌, List, [], ◌∷◌, some, ◌∙◌, length, u16, take, c_string, overlay, leb, inl,
  inr, Bool-cases,
}

module _ (env : Env) where
  -- Logging, whatever the encoder and the recursion on its failure do.
  send_log_packet-Steady :
      (error : M LogReturn) (severity : Severity) (message : List ℕ)
      → IsSteady error
      → IsSteady (send_log_packet env error severity message)
  unfolding send_log_packet send_packet
  send_log_packet-Steady error severity message recursive u w s =
      let text = c_string message in
      let encoded =
        env.encode_log (log_message env severity text w) (log_packet_size - header_size) in
      let assembled =
        overlay header_size encoded.bytes (label Forwarding.to_root Protobuf.log w.log_packet) in
      let v = record w { reads = w.reads + 1; log_packet = assembled } in
      let size = u16 (length encoded.bytes + header_size) in
      let packed = length-assembled Forwarding.to_root Protobuf.log encoded.bytes w.log_packet in
      let ready : Steady u v = record {
        fresh = s.fresh;
        channels = s.channels;
        receivers = s.receivers;
        router = s.router;
        logs = packed ∙ s.logs;
      } in
      let sending = Steady-trans ready (send_packet-Steady env assembled size v) in
      let sent : Steady u
          (record (send_packet env assembled size v).1 { log_packet = set_size size assembled }) =
        record {
          fresh = sending.fresh;
          channels = sending.channels;
          receivers = sending.receivers;
          router = sending.router;
          logs = length-set_size size assembled ∙ packed ∙ s.logs;
        } in
      elim (Bool-cases (leb message_size (length text))) [
        | inl long ↦ rw long tt
        | inr fits ↦ elim (Bool-cases encoded.status) [
          | inl good ↦ rw (fits, good) sent
          | inr bad ↦
              rw (fits, bad)
                (IsSteady->>= error (λ _ t. some (minus_one, t)) recursive (λ a u t q. q) u v ready)
        ]
      ]

  logger-Steady :
      (depth : ℕ) (severity : Severity) (tags format : String) (args : List Arg)
      → IsSteady (logger env depth severity tags format args)
  unfolding logger
  logger-Steady zero severity tags format args u w s = tt
  logger-Steady (suc depth) severity tags format args u w s =
      let text = take (log_string_buffer_size - 1) (env.vsnprintf format args) in
      send_log_packet-Steady
        (logger env depth Severity.err "[ERR]" "Encoding Mesh Topology failed: %s\n"
          (Arg.text env.pb_error ∷ []))
        severity text
        (logger-Steady depth Severity.err "[ERR]" "Encoding Mesh Topology failed: %s\n"
          (Arg.text env.pb_error ∷ []))
        u (record w { log_buffer = text })
        (record {
          fresh = s.fresh;
          channels = s.channels;
          receivers = s.receivers;
          router = s.router;
          logs = s.logs;
        })

  pub info-Steady : (format : String) (args : List Arg) → IsSteady (Logger.info env format args)
  unfolding Logger.info
  info-Steady format args = logger-Steady env.log_depth Severity.info "[INFO]" format args

  pub error-Steady : (format : String) (args : List Arg) → IsSteady (Logger.error env format args)
  unfolding Logger.error
  error-Steady format args = logger-Steady env.log_depth Severity.err "[ERR]" format args
