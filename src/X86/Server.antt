-- ===== src/X86/Server.antt =====
-- RemCppCommon/X86_64/X86LinuxServerChannel.hpp and X86LinuxServerChannel.cpp.
use respir_mesh.Base.{ℕ, ◌+◌, Bool, true, false, List, [], ◌∷◌, some, u16, if◌then◌else◌}
use respir_mesh.Node.Env.{Env, Arg}
use respir_mesh.Node.State.{Node, ChannelKind, update}
use respir_mesh.Node.Fault.{M, pure, fault, ◌>>=◌, ◌>>◌, modify, total}
use respir_mesh.Logger
use respir_mesh.Orchestrator.{set_object, add_channel}
use respir_mesh.X86.Listener.{on_conn_start, through_listener}
use respir_mesh.X86.Client.{new_client, init_accepted}

unfoldable pub new_server : Node → ℕ × Node
new_server w = (
  w.fresh,
  record w {
    fresh = w.fresh + 1;
    server_ids = u16 (w.server_ids + 1);
    objects = update w.objects w.fresh (record {
      kind = ChannelKind.x86_server;
      connected_to_root = false;
      is_client = false;
      is_server = true;
      is_connected = false;
      has_listener = false;
      has_receiver = false;
      shut = false;
      id = 0;
    });
  },
)

-- What `serv_sock.accept2` does.
pub data Accepted : Type 0 where
  client failed : Accepted

module _ (env : Env) where
  -- If the port cannot be opened, the process exits.
  unfoldable pub init_server : ℕ → List ℕ → List ℕ → M (Unit {0})
  init_server p host port = do
    modify (λ w. set_object p (record (w.objects p) { connected_to_root = false }) w)
    Logger.info env "Server TCP setup %s:%s \n" (Arg.text host ∷ Arg.text port ∷ [])
    opened ← (λ w. some (env.sets_up w.calls, record w { calls = w.calls + 1 }))
    if opened
        then (do
          modify (λ w. set_object p (record (w.objects p) { is_connected = true }) w)
          through_listener p (on_conn_start env p))
        else fault

  -- One round of `accept_loop`, and whether there is another.
  unfoldable pub accept_step : Accepted → M Bool
  accept_step Accepted.client = do
    p ← total new_client
    init_accepted env p
    add_channel env p
    pure true
  accept_step Accepted.failed = pure false
