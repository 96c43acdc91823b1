-- ===== src/Wire/Forwarding.antt =====
-- `enum ForwardingType` of protobuf/rem_nanopb_pb/mesh-packet.pb.h: how far a packet goes.
-- The header keeps the value in a byte, so the constants are numbers.
use respir_mesh.Base.{ℕ}

abbrev pub no_forward : ℕ
no_forward = 0

abbrev pub to_root : ℕ
to_root = 1

abbrev pub rtn_header_queue : ℕ
rtn_header_queue = 2

abbrev pub to_parent_to_root : ℕ
to_parent_to_root = 3

abbrev pub to_parent : ℕ
to_parent = 4

abbrev pub to_child : ℕ
to_child = 5

abbrev pub to_neighbors : ℕ
to_neighbors = 6

abbrev pub to_node : ℕ
to_node = 7

abbrev pub neighbor_stop : ℕ
neighbor_stop = 10

abbrev pub neighbor_to_root : ℕ
neighbor_to_root = 11

abbrev pub neighbor_and_back : ℕ
neighbor_and_back = 12

abbrev pub parent_and_back : ℕ
parent_and_back = 22
