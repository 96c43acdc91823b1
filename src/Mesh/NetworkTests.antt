-- ===== src/Mesh/NetworkTests.antt =====
-- A report that passes through a network of nodes in a row.
use respir_mesh.Mesh.Answers.{report_of, edge_from}
use respir_mesh.Mesh.Network.{after, World, Net, Later, Reachable, Step}
use respir_mesh.Wire.Protobuf
use respir_mesh.Mesh.Truth.{Agrees, IsTrue, IsTrueTo}
use respir_mesh.Mesh.Edges.{Reachable-IsTrue}
use respir_mesh.X86.Client.{Received, receive_step}
use respir_mesh.Node.State.{Node}
use respir_mesh.Orchestrator.{receive_fn}
use respir_mesh.Router.Topo
use respir_mesh.Router.Send.{send_packet, send_connected, is_rootward}
use respir_mesh.Channel.{send}
use respir_mesh.Looper
use respir_mesh.Wire.Header.{set_size, label, read, write, offset}
use respir_mesh.Wire.Assembly.{packet_of}
use respir_mesh.Sample.{env, env-Encodes, node}
use respir_mesh.Base.{
  All, ◌-◌, ◌==◌, if◌then◌else◌, Option, none, List, ℕ, [], ◌∷◌, some, ◌≡◌, refl, replicate,
  overlay, overwrite, length,
}

-- Nodes 0, 1, 2, …, each with the node before it in front; node 0 has the server in front. Their
-- timers are due.
abbrev row : World
row = record {
  env = env;
  wire = λ i p. if p == 0 then (if i == 0 then none else some (i - 1)) else none;
}

abbrev row-Agrees : Agrees row
row-Agrees = record { encodes = env-Encodes; decodes = λ i j rest. refl }

abbrev due : ℕ → Node
due i = Topo.begin (env i) node

due_sized : (i : ℕ) → length (due i).router_buffer ≡ 64
unfolding Topo.begin
due_sized i = refl

due_logs : (i : ℕ) → length (due i).log_packet ≡ 600
unfolding Topo.begin
due_logs i = refl

abbrev v2 : Node
v2 = Topo.update (env 2) (due 2)

abbrev net1 : Net
net1 = after row 2 v2 (record { nodes = due; flying = []; out = [] })

abbrev node_left : Option (Option (List ℕ) × Node) → Node
node_left none = node
node_left (some (left, v)) = v

abbrev v1 : Node
v1 =
    node_left
      (receive_step (env 1) 1 (Received.chunk (report_of (env 2))) (replicate 64 0) (net1.nodes 1))

abbrev net2 : Net
net2 = after row 1 v1 (record net1 { flying = [] })

abbrev v0 : Node
v0 =
    node_left (
      receive_step (env 0) 1 (Received.chunk (edge_from (env 1) 2)) (replicate 64 0) (net2.nodes 0))

abbrev net3 : Net
net3 = after row 0 v0 (record net2 { flying = [] })

-- The server hears of the edge from 2 to 1.
net3_out : net3.out ≡ edge_from (env 1) 2 ∷ []
unfolding after Topo.update Topo.begin receive_step receive_fn Topo.route_packet Topo.process_packet
    Topo.handle_mesh_topo Topo.forward_topo Topo.send_mesh_topo Topo.send_buffer send_packet
    send_connected send is_rootward set_size label read write offset overlay overwrite packet_of
    Looper.check Looper.now Looper.set_interval Looper.begin Looper.set_norm Looper.start
    Looper.stop
net3_out = refl

net3-Reachable : Reachable row due net3
unfolding after Topo.update Topo.begin receive_step receive_fn Topo.route_packet Topo.process_packet
    Topo.handle_mesh_topo Topo.forward_topo Topo.send_mesh_topo Topo.send_buffer send_packet
    send_connected send is_rootward set_size label read write offset overlay overwrite packet_of
    Looper.check Looper.now Looper.set_interval Looper.begin Looper.set_norm Looper.start
    Looper.stop
net3-Reachable =
    let n1 : Reachable row due net1 =
      Later.goes Later.stays (Step.updates 2 (record { nodes = due; flying = []; out = [] })) in
    let n2 : Reachable row due net2 =
      Later.goes n1
        (Step.arrives 1 1 (replicate 64 0) (report_of (env 2)) [] [] net1 refl refl refl) in
    Later.goes n2
      (Step.arrives 0 1 (replicate 64 0) (edge_from (env 1) 2) [] [] net2 refl refl refl)

Reachable-IsTrue_example :
    All (IsTrue row due) net3.out × All (λ d. IsTrueTo row due d.0 d.1) net3.flying
Reachable-IsTrue_example =
    Reachable-IsTrue row due row-Agrees net3 due_sized due_logs net3-Reachable

-- Two nodes that are each in front of the other; node 0 has sent its report, which node 1 has answered.
abbrev ring : World
ring = record { env = env; wire = λ i p. if p == 0 then some (1 - i) else none }

abbrev ring1 : Net
ring1 = after ring 0 (Topo.update (env 0) (due 0)) (record { nodes = due; flying = []; out = [] })

abbrev answered : Node
answered =
    node_left
      (receive_step (env 1) 1 (Received.chunk (report_of (env 0))) (replicate 64 0) (ring1.nodes 1))

abbrev ring2 : Net
ring2 = after ring 1 answered (record ring1 { flying = [] })
