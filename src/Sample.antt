-- ===== src/Sample.antt =====
-- A concrete world for the tests: a node with one client towards the root and one server for its
-- children, and a library whose encoder writes three numbers for a topology message and the text
-- for a log message.
use Prim.Native.Nat.{ℕ}
use respir_mesh.Base.{c_string, replicate, ◌≡◌, none, Option, ◌∷◌, List, ℕ}
use respir_mesh.Base.{
  ℕ, ◌+◌, ◌*◌, List, [], ◌∷◌, Option, some, none, true, false, refl, arith, take, length-take, leb,
  ◌==◌, if◌then◌else◌,
}
use respir_mesh.Wire.Forwarding
use respir_mesh.Logger.Lines.{Fits}
use Prim.Native.String.{String}
use respir_mesh.Node.Env.{Arg}
use respir_mesh.Wire.Header.{Field, read, get_size}
use respir_mesh.Wire.Framing.{AreBytes, IsFramed}
use respir_mesh.Wire.Messages.{RespirMeshInfo, RespirMeshLog}
use respir_mesh.Node.Env.{Env, Encoded, Encodes, SndResult}
use respir_mesh.Node.State.{Node, Channel, ChannelKind}

abbrev pub encode_info : RespirMeshInfo → ℕ → Encoded
encode_info m n = record {
  status = leb 14 n;
  bytes = take n (m.target_id ∷ m.source_id ∷ m.kind ∷ []);
}

abbrev pub encode_log : RespirMeshLog → ℕ → Encoded
encode_log m n = record { status = leb 267 n; bytes = take n m.message }

abbrev pub decode_info : List ℕ → ℕ → Option RespirMeshInfo
decode_info (target ∷ source ∷ kind ∷ rest) n =
    some (record { target_id = target; source_id = source; kind = kind })
decode_info _ n = none

-- The clock of the node with this id shows half a second more at each reading, and every text is
-- the same line of two characters.
abbrev pub env : ℕ → Env
env id = record {
  clock = λ n. 100 + n * 500;
  device_id = id;
  snd = λ n. SndResult.wrote 9;
  connects = λ n. true;
  fd_open = λ n. true;
  sets_up = λ n. true;
  shuts_down = λ n. true;
  write = λ n size. size;
  connected = λ n. true;
  encode_info = encode_info;
  encode_log = encode_log;
  decode_info = decode_info;
  pb_error = [];
  vsnprintf = λ format args. 79 ∷ 75 ∷ [];
  log_depth = 2;
}

-- The documented behaviour that the theorems ask for is there.
pub env-Encodes : (id : ℕ) → Encodes (env id)
env-Encodes id = record {
  info_room = λ m n. omega (arith, length-take n (m.target_id ∷ m.source_id ∷ m.kind ∷ []));
  log_room = λ m n. omega (arith, length-take n m.message);
  info_size = λ m n. omega (arith, length-take n (m.target_id ∷ m.source_id ∷ m.kind ∷ []));
  info_status = λ m n h. ground arith;
  log_status = λ m n h short. ground arith;
}

pub texts-Fits : (format : String) (args : List Arg) → Fits (env 7) format args
unfolding c_string
texts-Fits format args = record { deep = omega arith; short = omega arith }

-- Channel 0 is a client that is connected to the root, channel 1 a client that is not, and any
-- other a server.
abbrev pub channel : ℕ → Channel
channel n = record {
  kind = if leb n 1 then ChannelKind.x86_client else ChannelKind.x86_server;
  connected_to_root = n == 0;
  is_client = leb n 1;
  is_server = leb 2 n;
  is_connected = true;
  has_listener = false;
  has_receiver = leb n 1;
  shut = false;
  id = n;
}

abbrev pub node : Node
node = record {
  reads = 0;
  calls = 0;
  objects = channel;
  managed_to_send = λ p. true;
  fresh = 3;
  client_ids = 2;
  server_ids = 1;
  esp_ids = 0;
  channels = 0 ∷ 1 ∷ 2 ∷ [];
  sent = [];
  router_buffer = replicate 64 0;
  mesh_topo_looper = record { has_hw = true; next_ts = 0; tl_interval = 0 };
  log_buffer = [];
  log_packet = replicate 600 0;
}

-- A packet for the root with two bytes of body.
abbrev pub packet : List ℕ
packet = 7 ∷ 0 ∷ Forwarding.to_root ∷ 1 ∷ 9 ∷ 1 ∷ 2 ∷ []

pub packet-IsFramed : IsFramed packet
unfolding get_size
packet-IsFramed = record { holds_header = omega arith; says_size = refl }

pub packet-AreBytes : AreBytes packet
packet-AreBytes = (
  omega arith,
  (omega arith, (omega arith, (omega arith, (omega arith, (omega arith, (omega arith, tt)))))),
)

pub packet-kind : read Field.forwarding_type packet ≡ Forwarding.to_root
unfolding read
packet-kind = refl
