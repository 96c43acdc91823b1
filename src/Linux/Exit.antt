-- ===== src/Linux/Exit.antt =====
-- The signal handler of RemClientCPP/client_libsocket/client_libsocket.cpp.
use respir_mesh.Node.Env.{Encodes, Env}
use respir_mesh.Node.State.{Node}
use respir_mesh.Linux.{Program, sig_exit}
use respir_mesh.Linux.Wired.{Distinct}
use respir_mesh.Linux.Lifetime.{Reachable, Reachable-IsListed}
use respir_mesh.Orchestrator.Stopping.{AllStopped, StopTexts, stop_stops_all}
use respir_mesh.Base.{true, ℕ, ◌≡◌, some}

-- Whenever SIGINT comes between two operations of a Linux node, whatever the arguments and the network
-- were and in whatever order its threads have taken turns: if nanopb keeps its promises, the texts that
-- are logged on the way fit the message, and no `shutdown` and no `destroy` of a socket throws, then the
-- handler returns, and every channel of the list is stopped: each connected client and each server has
-- its socket shut. The list keeps its channels, none of them twice.
pub sig_exit_stops_all :
    (env : Env) (program : Program) (w : Node)
    → Encodes env
    → StopTexts env
    → ((n : ℕ) → env.shuts_down n ≡ true)
    → Reachable env program w
    → (v : Node) × (sig_exit env w ≡ some (tt, v))
      × AllStopped v.objects w.channels
      × (v.channels ≡ w.channels)
      × Distinct v.channels
unfolding sig_exit
sig_exit_stops_all env program w enc texts shuts reached =
    let (distinct, listed, router, logs) = Reachable-IsListed env program w reached in
    let (v, ran, stopped, same) = stop_stops_all env enc texts shuts w logs in
    (v, ran, stopped, same, rw same distinct)
