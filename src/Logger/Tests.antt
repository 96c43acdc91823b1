-- ===== src/Logger/Tests.antt =====
-- Log lines of concrete nodes.
use respir_mesh.Logger.Delivery.{logger_delivers, Logged}
use respir_mesh.Wire.Assembly.{packet_of}
use respir_mesh.Wire.Messages.{Severity}
use respir_mesh.Sample.{env-Encodes, node, env}
use respir_mesh.Logger.{packet_size, Severity, logger}
use respir_mesh.Node.State.{Node}
use respir_mesh.Base.{c_string, refl, ◌∷◌, arith, some, ◌≡◌, []}
use respir_mesh.Wire.Forwarding
use respir_mesh.Wire.Protobuf

logger_delivers_example :
    (v : Node) × (logger (env 7) 2 Severity.info "[INFO]" "hello" [] node ≡ some (packet_size 7, v))
    × (v.sent ≡ (0, packet_of Forwarding.to_root Protobuf.log (79 ∷ 75 ∷ [])) ∷ [])
    × Logged node v
    × (v.reads ≡ 1)
unfolding c_string
logger_delivers_example =
    logger_delivers (env 7) (env-Encodes 7) Severity.info "[INFO]" "hello" [] node 1 refl
      (omega arith)
