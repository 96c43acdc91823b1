-- ===== src/Logger/Lines.antt =====
-- One log line by any of the named functions, as a step that the components above build on.
use Prim.Native.String.{String}
use respir_mesh.Base.{zero, suc, ℕ, suc, ◌≤◌, ◌<◌, ◌≡◌, List, ◌++◌, some, arith, length}
use respir_mesh.Wire.Forwarding
use respir_mesh.Wire.Protobuf
use respir_mesh.Wire.Assembly.{packet_of}
use respir_mesh.Wire.Messages.{Severity, message_size}
use respir_mesh.Node.Env.{Env, Encodes, Arg}
use respir_mesh.Node.State.{Node}
use respir_mesh.Router.Selection.{deliveries}
use respir_mesh.Logger.{LogReturn, log_packet_size, logger}
use respir_mesh.Logger.Delivery.{log_text, log_body, Logged, logger_delivers}

-- The packet of a log line.
abbrev pub log_packet_of : Env → Severity → String → List Arg → Node → List ℕ
log_packet_of env severity format args w =
    packet_of Forwarding.to_root Protobuf.log (log_body env severity (log_text env format args) w)

-- What a line needs to be logged: room for one call, and a text that fits the message.
pub record Fits (env : Env) (format : String) (args : List Arg) : Type 0 where
  pub deep : 1 ≤ env.log_depth
  pub short : length (log_text env format args) < message_size

-- A line that has been logged, with so much room on the stack.
pub record Line (env : Env) (depth : ℕ) (severity : Severity) (tags format : String)
    (args : List Arg) (w : Node) : Type 0 where
  pub result : LogReturn
  pub after : Node
  pub runs : logger env depth severity tags format args w ≡ some (result, after)
  pub sent :
      after.sent
      ≡ w.sent
        ++ deliveries
            (λ c. c.connected_to_root)
            w.objects
            (log_packet_of env severity format args w)
            w.channels
  pub kept : Logged w after

module _ (env : Env) (enc : Encodes env) (severity : Severity) (tags format : String)
    (args : List Arg) (w : Node) where
  Line-at :
      (depth : ℕ)
      → 1 ≤ depth
      → length w.log_packet ≡ log_packet_size
      → length (log_text env format args) < message_size
      → Line env depth severity tags format args w
  Line-at zero deep sized short = absurd (omega arith)
  Line-at (suc depth) deep sized short =
      let d = logger_delivers env enc severity tags format args w depth sized short in
      record { result = _; after = d.0; runs = d.1; sent = d.2; kept = d.3 }

  pub line :
      length w.log_packet ≡ log_packet_size
      → Fits env format args
      → Line env env.log_depth severity tags format args w
  line sized fits = Line-at env.log_depth fits.deep sized fits.short
