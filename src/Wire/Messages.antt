-- ===== src/Wire/Messages.antt =====
-- The message structs and `enum Severity` of protobuf/rem_nanopb_pb/mesh-packet.pb.h.
use respir_mesh.Base.{ℕ, List, []}
use respir_mesh.Wire.Protobuf

pub data Severity : Type 0 where
  emerg alert crit err warning notice info debug : Severity

unfoldable pub severity_code : Severity → ℕ
severity_code Severity.emerg = 0
severity_code Severity.alert = 1
severity_code Severity.crit = 2
severity_code Severity.err = 3
severity_code Severity.warning = 4
severity_code Severity.notice = 5
severity_code Severity.info = 6
severity_code Severity.debug = 7

pub record RespirMeshInfo : Type 0 where
  pub target_id : ℕ
  pub source_id : ℕ
  pub kind : ℕ

-- `type` is a reserved word of the source's own field names here: `kind` is its `type`.
abbrev pub info_init_default : RespirMeshInfo
info_init_default = record { target_id = 0; source_id = 0; kind = Protobuf.no_protobuf }

-- `message` is the text of the `char[250]`, without the terminating zero.
pub record RespirMeshLog : Type 0 where
  pub source_timestamp : ℕ
  pub source_id : ℕ
  pub severity : Severity
  pub message : List ℕ

-- The size of `message`, from protobuf/mesh-packet.options.
abbrev pub message_size : ℕ
message_size = 250

abbrev pub log_init_default : RespirMeshLog
log_init_default = record {
  source_timestamp = 0;
  source_id = 0;
  severity = Severity.emerg;
  message = [];
}
