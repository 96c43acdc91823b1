-- ===== src/Mesh/Logging.antt =====
-- What a node hands to its channels when it logs a line.
use respir_mesh.Logger.Failure.{logger_overflow}
use respir_mesh.Logger.Delivery.{log_body, logger_delivers, log_text}
use respir_mesh.Mesh.Hands.{Hands-map, Gives-Hands, Gives, Hands}
use respir_mesh.Wire.Messages.{message_size, Severity}
use respir_mesh.Node.State.{Node}
use respir_mesh.Wire.Assembly.{packet_of}
use respir_mesh.Node.Env.{Encodes, Arg, Env}
use respir_mesh.Logger.{log_packet_size, LogReturn, logger}
use mathlib.Core.Path.{subst}
use mathlib.Core.Option
use Prim.Native.String.{String}
use respir_mesh.Wire.Forwarding
use respir_mesh.Wire.Protobuf
use respir_mesh.Base.{
  ℕ, ◌<◌, ◌≡◌, ◌∙◌, ap, sym, List, some, zero, suc, ltb, length, arith, inl, inr, Bool-cases,
}

-- The packet of a log line, whatever its message.
abbrev pub IsLog : List ℕ → Type 0
IsLog packet = (body : List ℕ) × (packet ≡ packet_of Forwarding.to_root Protobuf.log body)

logger-Hands_at :
    (env : Env) (severity : Severity) (tags format : String) (args : List Arg) (result : LogReturn)
    (w v : Node) (depth : ℕ)
    → Encodes env
    → length w.log_packet ≡ log_packet_size
    → logger env depth severity tags format args w ≡ some (result, v)
    → Hands IsLog w v
unfolding logger
logger-Hands_at env severity tags format args result w v zero enc sized e =
    absurd (Option.none-ne-some _ e)
logger-Hands_at env severity tags format args result w v (suc depth) enc sized e =
    elim (Bool-cases (ltb (length (log_text env format args)) message_size)) [
      | inl fits ↦
          let short : length (log_text env format args) < message_size = ground arith in
          let (u, runs, sent, kept, clock) =
            logger_delivers env enc severity tags format args w depth sized short in
          let body = log_body env severity (log_text env format args) w in
          let given : Gives (packet_of Forwarding.to_root Protobuf.log body) w u = record {
            sent = sent;
            objects = kept.objects;
            channels = kept.channels;
            size = ap length kept.router_buffer;
            log_size = kept.log_size;
          } in
          subst (Hands IsLog w) (ap (λ r. r.1) (Option.some-injective _ _ (sym runs ∙ e)))
            (Hands-map _ IsLog (λ b is. (body, is)) (Gives-Hands given))
      | inr long ↦ absurd (
          Option.none-ne-some _
            (sym (logger_overflow env severity tags format args (suc depth) w (ground arith)) ∙ e))
    ]

-- A line that is logged without a crash is handed on in such a packet.
pub logger-Hands :
    (env : Env) (severity : Severity) (tags format : String) (args : List Arg) (result : LogReturn)
    (w v : Node)
    → Encodes env
    → length w.log_packet ≡ log_packet_size
    → logger env env.log_depth severity tags format args w ≡ some (result, v)
    → Hands IsLog w v
logger-Hands env severity tags format args result w v enc sized e =
    logger-Hands_at env severity tags format args result w v env.log_depth enc sized e
