-- ===== src/Linux/Opening.antt =====
-- The first round of a Linux node.
use respir_mesh.Linux.{ChannelKind, Program, round}
use respir_mesh.Linux.Steady.{objects-update, update-Steady}
use respir_mesh.X86.Opening.{flag_after, opened_from}
use respir_mesh.X86.Serving.{update_opens}
use respir_mesh.Orchestrator
use respir_mesh.Router.Topo
use respir_mesh.Looper
use respir_mesh.Looper.{TaskLooper}
use respir_mesh.Logger.{log_packet_size}
use respir_mesh.Logger.Lines.{Fits}
use respir_mesh.Node.Fault.{◌>>=◌}
use respir_mesh.Node.State.{ChannelKind, Node}
use respir_mesh.Node.Env.{Arg, Encodes, Env}
use Prim.Native.String.{String}
use respir_mesh.Base.{All, ◌++◌, ◌+◌, false, true, Bool, some, List, length, ◌≡◌, ℕ, refl, ◌∙◌}

module _ (env : Env) (enc : Encodes env)
    (short : (format : String) (args : List Arg) → Fits env format args)
    (listens : (n : ℕ) → env.sets_up n ≡ true) where
  -- If nanopb keeps its promises, the texts fit, the network gives every `connect` the same answer,
  -- and every listening socket can be set up, then the first round of `main` at which the timer is
  -- due returns. Behind the old channels stand new channels: for the hosts on the command line, if they
  -- answer, one each of the class of the X86_64 clients, and then one of the class of the X86_64 servers
  -- for each listed server. The controller remembers which lists gave a channel.
  pub round_opens :
      (up : Bool)
      → ((n : ℕ) → env.connects n ≡ up)
      → (program : Program) (w : Node) → length w.log_packet ≡ log_packet_size
      → program.parent_scanner.is_client_connected ≡ false
      → program.parent_scanner.is_server_started ≡ false
      → (Looper.check env.clock program.update_looper w.reads).0 ≡ true
      → let c = program.parent_scanner in
        let clients = length c.clients_list in
        let servers = length c.servers_list in
        (looper : TaskLooper) × (v : Node) × (round env program w
          ≡ some (
            record {
              parent_scanner = record c {
                is_client_connected = flag_after up clients false;
                is_server_started = flag_after true servers false;
              };
              update_looper = looper;
            },
            v,
          ))
        × (v.channels
            ≡ w.channels
              ++ opened_from up w.fresh clients
              ++ opened_from true (w.fresh + clients) servers)
        × All (λ p. (v.objects p).kind ≡ ChannelKind.x86_client) (opened_from up w.fresh clients)
        × All
            (λ p. (v.objects p).kind ≡ ChannelKind.x86_server)
            (opened_from true (w.fresh + clients) servers)
  unfolding round Orchestrator.update_all
  round_opens up network program w sized unconnected unstarted due =
      let (is_due, looper, reads) = Looper.check env.clock program.update_looper w.reads in
      let t = record w { reads = reads } in
      let (u, ran, added, clients, servers) =
        update_opens env enc short listens up network program.parent_scanner t sized unconnected
          unstarted in
      let same = objects-update env u in
      (
        looper,
        Topo.update env u,
        rw (due, ran, ◌>>=◌) refl,
        (update-Steady env u).channels ∙ added,
        rw same clients,
        rw same servers,
      )
