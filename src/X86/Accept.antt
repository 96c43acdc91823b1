-- ===== src/X86/Accept.antt =====
-- What becomes of a connection that an X86_64 server accepts.
use respir_mesh.Base.{◌≡◌, none, arith}
use respir_mesh.Node.Env.{Env}
use respir_mesh.Node.State.{Node}
use respir_mesh.X86.Client.{new_client, init_accepted}
use respir_mesh.X86.Server.{Accepted, accept_step}

-- Every accepted connection is undefined behaviour: `accept_loop` makes the channel and initialises
-- it without ever giving it a listener, and `init` calls `on_conn_start` through that pointer.
pub accept_step_faults : (env : Env) (w : Node) → accept_step env Accepted.client w ≡ none
unfolding accept_step new_client init_accepted
accept_step_faults env w = ground arith
