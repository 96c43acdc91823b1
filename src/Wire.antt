-- ===== src/Wire.antt =====
-- What travels between the nodes: RemCppCommon/RemHeaderTypes.hpp and the enumerations and
-- messages of protobuf/rem_nanopb_pb/mesh-packet.pb.h.
pub mod Forwarding
pub mod Protobuf
pub mod Header
pub mod Framing
pub mod Assembly
pub mod Unsized
pub mod Messages
mod Tests
