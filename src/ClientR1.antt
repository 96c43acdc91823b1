-- ===== src/ClientR1.antt =====
-- RemClientCPP/client_r1/client_r1.cpp: a Linux node between its parent and its children, before the
-- router was a class. The TCP library is a parameter: what `tcpParent.Send` is given is listed, and a
-- message of `tcpServer` comes with its length.
pub mod Agreement
pub mod Reporting
mod Tests
use mathlib.Core.Option
use respir_mesh.Node.Env.{Encoded, Env}
use respir_mesh.Router.Topo.{packet_data_len}
use respir_mesh.Wire.Forwarding
use respir_mesh.Wire.Header.{Field, header_size, label, read, write}
use respir_mesh.Wire.Messages.{RespirMeshInfo, info_init_default}
use respir_mesh.Wire.Protobuf
use respir_mesh.Base.{
  ℕ, zero, suc, ◌+◌, ◌-◌, ◌%◌, ◌^◌, List, [], ◌∷◌, ◌++◌, Option, none, some, ◌==◌, ltb,
  if◌then◌else◌, take, drop, length, overlay, overwrite, replicate, for_u8,
}

-- The globals, and the packets that have gone to the parent.
pub record ClientR1 : Type 0 where
  pub action_counter : ℕ
  pub pb_buffer : List ℕ
  pub sent : List (List ℕ)

abbrev pub initial : ClientR1
initial = record { action_counter = 0; pb_buffer = replicate 64 0; sent = [] }

-- `tcpParent.Send` of so many bytes from a pointer on.
abbrev pub send : ℕ → List ℕ → ClientR1 → ClientR1
send size bytes c = record c { sent = c.sent ++ take size bytes ∷ [] }

-- `for (uint8_t i = 0; i < end; i++) printf(...)`. What is printed behind an array is taken to do no
-- harm.
unfoldable pub print_loop : ℕ → ClientR1 → Option ClientR1
print_loop end c = for_u8 256 0 end (λ i c. c) c

-- What follows `pb_encode`, where the loop prints so many bytes more than the packet has.
unfoldable pub send_encoded : ℕ → Encoded → ClientR1 → Option ClientR1
send_encoded more encoded c =
    let size = length encoded.bytes + header_size in
    if encoded.status
    then Option.map (λ c. send size c.pb_buffer c) (print_loop (size + more) c)
    else some c

module _ (env : Env) where
  abbrev pub topo_of_self : RespirMeshInfo
  topo_of_self = record info_init_default {
    source_id = env.device_id;
    kind = Protobuf.mesh_topology;
  }

  unfoldable pub send_mesh_topo : ClientR1 → Option ClientR1
  send_mesh_topo c =
      let encoded = env.encode_info topo_of_self (64 - header_size) in
      send_encoded 0 encoded (record c {
        pb_buffer =
            overlay header_size encoded.bytes
              (label Forwarding.to_parent_to_root Protobuf.mesh_topology c.pb_buffer);
      })

  -- What the parent adds to the report of a child.
  abbrev pub completed : RespirMeshInfo → RespirMeshInfo
  completed mesh_topo = record mesh_topo {
    kind = Protobuf.mesh_topology;
    target_id = env.device_id;
  }

  unfoldable pub forward_topo : RespirMeshInfo → ClientR1 → Option ClientR1
  forward_topo mesh_topo c =
      let encoded = env.encode_info (completed mesh_topo) (64 - header_size) in
      send_encoded 3 encoded (record c {
        pb_buffer =
            overlay header_size encoded.bytes
              (write Field.forwarding_type Forwarding.to_root c.pb_buffer);
      })

  abbrev pub after_decode : ℕ → Option RespirMeshInfo → ClientR1 → Option ClientR1
  after_decode len none c = some c
  after_decode len (some mesh_topo) c = Option.bind (print_loop (len + 10) c) (λ c.
      if read Field.forwarding_type c.pb_buffer == Forwarding.to_parent_to_root
      then forward_topo mesh_topo c
      else some c)

  unfoldable pub handle_mesh_topo : List ℕ → ℕ → ClientR1 → Option ClientR1
  handle_mesh_topo bytes len c = Option.bind (print_loop (len + 10) c) (λ c.
      Option.bind (print_loop (len + 10) c) (λ c.
        after_decode len (env.decode_info (drop header_size bytes) (packet_data_len len))
          (record c { pb_buffer = overwrite (take header_size bytes) c.pb_buffer })))

  -- What the forwarding type of a message asks for.
  abbrev pub route : List ℕ → ℕ → ClientR1 → Option ClientR1
  route bytes len c =
      let forwarding = read Field.forwarding_type bytes in
      if forwarding == Forwarding.to_root
      then some (send len bytes c)
      else if forwarding == Forwarding.to_parent_to_root
      then (if read Field.protobuf_type bytes == Protobuf.mesh_topology
          then handle_mesh_topo bytes len c
          else some c)
      else some c

  -- A round of `loop`: a message, with the memory from its first byte on, is routed and then printed.
  unfoldable pub loop_round : List ℕ → ℕ → ClientR1 → Option ClientR1
  loop_round bytes len c =
      if ltb 0 len then Option.bind (route bytes len c) (print_loop len) else some c

  -- A round of the loop of `main`. An overflow of the counter, a signed integer of 32 bits, is
  -- undefined.
  unfoldable pub main_round : ClientR1 → Option ClientR1
  main_round c =
      let next = c.action_counter + 1 in
      let c = record c { action_counter = next } in
      if ltb next (2 ^ 31) then (if next % 2 == 1 then send_mesh_topo c else some c) else none

  -- The loop of `main` for so many rounds.
  unfoldable pub main_rounds : ℕ → ClientR1 → Option ClientR1
  main_rounds zero c = some c
  main_rounds (suc n) c = Option.bind (main_round c) (main_rounds n)
