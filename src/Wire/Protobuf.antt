-- ===== src/Wire/Protobuf.antt =====
-- `enum HeaderType` and `enum ProtobufType` of protobuf/rem_nanopb_pb/mesh-packet.pb.h: the values
-- that the program uses.
use respir_mesh.Base.{ℕ}

-- HeaderType_BASIC
abbrev pub header_basic : ℕ
header_basic = 1

abbrev pub no_protobuf : ℕ
no_protobuf = 0

abbrev pub ping : ℕ
ping = 1

abbrev pub timesync : ℕ
timesync = 2

abbrev pub pong : ℕ
pong = 3

abbrev pub mesh_topology : ℕ
mesh_topology = 4

abbrev pub info : ℕ
info = 5

abbrev pub log : ℕ
log = 6
