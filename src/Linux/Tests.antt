-- ===== src/Linux/Tests.antt =====
-- A node that starts with one server and one client on its command line.
use respir_mesh.Router.Topo.{route_packet}
use respir_mesh.Orchestrator
use respir_mesh.Router.Topo
use respir_mesh.Logger
use respir_mesh.X86.ListController
use respir_mesh.Router.Send
use respir_mesh.Wire.Header
use respir_mesh.Wire.Protobuf
use respir_mesh.Wire.Forwarding
use respir_mesh.X86.Opening.{opened_from, flag_after}
use respir_mesh.Linux.Wired.{IsListed, Distinct}
use respir_mesh.Linux.Opening.{round_opens}
use respir_mesh.Logger.{log_packet_size}
use respir_mesh.Looper.{TaskLooper}
use respir_mesh.Sample.{packet, texts-Fits, env-Encodes, env}
use respir_mesh.Looper
use respir_mesh.Linux.{ChannelKind, add_clients, Program, memory, new, round, start}
use respir_mesh.Linux.Exit.{sig_exit_stops_all}
use respir_mesh.Linux.{sig_exit}
use respir_mesh.Orchestrator.Stopping.{AllStopped, StopTexts}
use respir_mesh.Linux.Lifetime.{Reachable, Reachable-IsListed, Reachable-receives}
use mathlib.Core.Path.{subst}
use mathlib.Core.List.{Memᴰ}
use respir_mesh.Orchestrator.{receive_fn}
use respir_mesh.X86.Client.{Received, receive_step}
use respir_mesh.Node.State.{ChannelKind, Node}
use respir_mesh.Base.{
  overwrite, All, c_string, ◌+◌, ◌++◌, ◌∙◌, arith, sym, overlay, replicate, set, true, false, ℕ,
  List, [], ◌∷◌, Option, none, some, ◌≡◌, refl, length,
}

abbrev arguments : List (List ℕ)
arguments = (1 ∷ []) ∷ (2 ∷ []) ∷ (3 ∷ []) ∷ (4 ∷ []) ∷ (5 ∷ []) ∷ []

-- What a run leaves that returns.
abbrev left_by : Option (Program × Node) → Program × Node
left_by none = (new, memory)
left_by (some s) = s

abbrev begun : Program × Node
begun = left_by (start (env 7) arguments new memory)

-- With what the first round needs.
begun_lem :
    Reachable (env 7) begun.0 begun.1
    × (length begun.1.log_packet ≡ log_packet_size)
    × (begun.0.parent_scanner.is_client_connected ≡ false)
    × (begun.0.parent_scanner.is_server_started ≡ false)
    × ((Looper.check (env 7).clock begun.0.update_looper begun.1.reads).0 ≡ true)
    × (begun.1.channels ≡ [])
    × (begun.1.fresh ≡ 0)
    × (length begun.0.parent_scanner.clients_list ≡ 1)
    × (length begun.0.parent_scanner.servers_list ≡ 1)
unfolding start Logger.info Logger.logger c_string add_clients ListController.add_client_host
    Orchestrator.begin ListController.add_server_host new ListController.new Looper.new Looper.begin
    Looper.set_interval Looper.start Looper.set_norm Looper.check Topo.begin Send.send_packet
    Header.set_size overlay Header.label Looper.now Send.is_rootward Header.read Send.send_connected
begun_lem = (Reachable.started arguments refl, refl, refl, refl, refl, refl, refl, refl, refl)

round_opens_example :
    let clients = length begun.0.parent_scanner.clients_list in
    let servers = length begun.0.parent_scanner.servers_list in
    (looper : TaskLooper) × (v : Node) × (round (env 7) begun.0 begun.1
      ≡ some (
        record {
          parent_scanner = record begun.0.parent_scanner {
            is_client_connected = flag_after true clients false;
            is_server_started = flag_after true servers false;
          };
          update_looper = looper;
        },
        v,
      ))
    × (v.channels
        ≡ begun.1.channels
          ++ opened_from true begun.1.fresh clients
          ++ opened_from true (begun.1.fresh + clients) servers)
    × All
        (λ p. (v.objects p).kind ≡ ChannelKind.x86_client)
        (opened_from true begun.1.fresh clients)
    × All
        (λ p. (v.objects p).kind ≡ ChannelKind.x86_server)
        (opened_from true (begun.1.fresh + clients) servers)
round_opens_example =
    round_opens (env 7) (env-Encodes 7) texts-Fits (λ n. refl) true (λ n. refl) begun.0 begun.1
      begun_lem.1 begun_lem.2 begun_lem.3 begun_lem.4

-- The first round connects to the client and opens the server.
opened : (program : Program) × (w : Node) × Reachable (env 7) program w × (w.channels ≡ 0 ∷ 1 ∷ [])
opened =
    let (reached, sized, unconnected, unstarted, due, empty, fresh, one, single) = begun_lem in
    let (looper, v, ran, channels, clients, servers) =
      round_opens (env 7) (env-Encodes 7) texts-Fits (λ n. refl) true (λ n. refl) begun.0 begun.1
        sized unconnected unstarted due in
    (_, v, Reachable.rounded reached ran, channels ∙ rw (empty, fresh, one, single) refl)

Reachable-IsListed_example :
    Distinct opened.1.channels
    × All (IsListed opened.1) opened.1.channels
    × (length opened.1.router_buffer ≡ 64)
    × (length opened.1.log_packet ≡ 600)
Reachable-IsListed_example = Reachable-IsListed (env 7) opened.0 opened.1 opened.2

abbrev arrived : List ℕ
arrived = set (overlay 0 packet (replicate 64 0)) (length packet) 0

Reachable-receives_example :
    receive_step (env 7) 0 (Received.chunk packet) (replicate 64 0) opened.1
    ≡ some (
      some (route_packet (env 7) arrived (length packet) opened.1).0,
      (route_packet (env 7) arrived (length packet) opened.1).1,
    )
Reachable-receives_example =
    Reachable-receives (env 7) opened.0 opened.1 0 packet (replicate 64 0) opened.2
      (subst (Memᴰ 0) (sym opened.3) (Memᴰ.head refl)) refl (omega arith)

-- Three bytes in front of what an earlier topology packet has left in the buffer.
abbrev stale : List ℕ
stale = 0 ∷ 0 ∷ 0 ∷ 0 ∷ Protobuf.mesh_topology ∷ replicate 59 0

cut_report_crashes :
    receive_step (env 7) 0 (Received.chunk (0 ∷ 0 ∷ Forwarding.to_parent ∷ [])) stale opened.1
    ≡ none
unfolding overlay overwrite Header.set_size Header.read Header.write Header.offset
cut_report_crashes =
    Reachable-receives (env 7) opened.0 opened.1 0 (0 ∷ 0 ∷ Forwarding.to_parent ∷ []) stale
      opened.2 (subst (Memᴰ 0) (sym opened.3) (Memᴰ.head refl)) refl (omega arith)

stop_texts : StopTexts (env 7)
stop_texts = record {
  first = texts-Fits _ _;
  each = λ n. texts-Fits _ _;
  x86_client = texts-Fits _ _;
  x86_server = texts-Fits _ _;
  esp = texts-Fits _ _;
}

sig_exit_stops_all_example :
    (v : Node) × (sig_exit (env 7) opened.1 ≡ some (tt, v))
    × AllStopped v.objects opened.1.channels
    × (v.channels ≡ opened.1.channels)
    × Distinct v.channels
sig_exit_stops_all_example =
    sig_exit_stops_all (env 7) opened.0 opened.1 (env-Encodes 7) stop_texts (λ n. refl) opened.2
