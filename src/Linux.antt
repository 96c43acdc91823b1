-- ===== src/Linux.antt =====
-- RemClientCPP/client_libsocket/client_libsocket.cpp: the main program of a Linux node, which puts
-- the orchestrator, the router, the logger and the controller together.
pub mod Hardware
pub mod Wired
pub mod Steady
pub mod Logging
pub mod Channels
pub mod Receiving
pub mod Listing
pub mod Opening
pub mod Rounds
pub mod Lifetime
pub mod Exit
mod Tests
use respir_mesh.Base.{ℕ, List, [], ◌∷◌, some, if◌then◌else◌, replicate, false}
use respir_mesh.Looper
use respir_mesh.Looper.{TaskLooper}
use respir_mesh.Node.Env.{Env}
use respir_mesh.Node.State.{ChannelKind, Node}
use respir_mesh.Node.Fault.{M, ◌>>=◌, ◌>>◌, fault, pure}
use respir_mesh.Logger
use respir_mesh.Orchestrator
use respir_mesh.Orchestrator.{RemConnectionController}
use respir_mesh.X86.ListController
use respir_mesh.X86.ListController.{SimpleListChnCtrl, add_client_host, add_server_host}

-- The globals beside the objects of the node.
pub record Program : Type 0 where
  pub parent_scanner : SimpleListChnCtrl
  pub update_looper : TaskLooper

-- The memory of the node before `main`, and the globals then; no object exists yet.
abbrev pub memory : Node
memory = record {
  reads = 0;
  calls = 0;
  objects = λ p. record {
    kind = ChannelKind.x86_client;
    connected_to_root = false;
    is_client = false;
    is_server = false;
    is_connected = false;
    has_listener = false;
    has_receiver = false;
    shut = false;
    id = 0;
  };
  managed_to_send = λ p. false;
  fresh = 0;
  client_ids = 0;
  server_ids = 0;
  esp_ids = 0;
  channels = [];
  sent = [];
  router_buffer = replicate 64 0;
  mesh_topo_looper = Looper.new;
  log_buffer = replicate 300 0;
  log_packet = replicate 600 0;
}

unfoldable pub new : Program
new = record { parent_scanner = ListController.new; update_looper = Looper.new }

-- `SimpleListChnCtrl` as the connection controller: its `begin` is empty.
abbrev pub list_controller : Env → RemConnectionController SimpleListChnCtrl
list_controller env = record { begin_scanner = pure; update_scanner = ListController.update env }

-- An operation on the looper, which reads the clock of the node.
abbrev pub timed : (TaskLooper → ℕ → TaskLooper × ℕ) → Program → M Program
timed f program w =
    let (looper, reads) = f program.update_looper w.reads in
    some (record program { update_looper = looper }, record w { reads = reads })

module _ (env : Env) where
  -- The loop over the pairs of arguments. Behind the last of an odd number there is a null pointer,
  -- of which the controller makes a string.
  unfoldable pub add_clients : List (List ℕ) → SimpleListChnCtrl → M SimpleListChnCtrl
  add_clients [] scanner = pure scanner
  add_clients (host ∷ []) scanner = fault
  add_clients (host ∷ port ∷ rest) scanner = do
    added ← add_client_host env host port scanner
    add_clients rest added

  -- With the arguments behind the name of the program. Too few of them end the process. The third
  -- is the device id, a parameter of the model.
  abbrev pub read_arguments : List (List ℕ) → SimpleListChnCtrl → M SimpleListChnCtrl
  read_arguments (host ∷ port ∷ id ∷ client ∷ client_port ∷ rest) scanner =
      add_clients (client ∷ client_port ∷ rest) (add_server_host host port scanner)
  read_arguments _ scanner = fault

  -- `main` up to its loop. The device id is that of the arguments from the start on, where the line
  -- logged here would carry 0; there is no channel yet that it could go to.
  unfoldable pub start : List (List ℕ) → Program → M Program
  start arguments program = do
    program ← timed (Looper.begin env.clock) program
    program ← timed (Looper.set_interval env.clock 1000) program
    Logger.info env "_ STARTING !!!!!!!!!!!!!!!!!!!!! _" []
    scanner ← read_arguments arguments program.parent_scanner
    begun ← Orchestrator.begin env (list_controller env) scanner
    pure (record program { parent_scanner = begun })

  -- One round of the loop of `main`.
  unfoldable pub round : Program → M Program
  round program w =
      let (due, looper, reads) = Looper.check env.clock program.update_looper w.reads in
      let program = record program { update_looper = looper } in
      let w = record w { reads = reads } in
      if due
      then (Orchestrator.update_all env (list_controller env) program.parent_scanner >>= λ scanner.
            pure (record program { parent_scanner = scanner }))
          w
      else some (program, w)

  -- The handler of SIGINT, behind which the process ends.
  unfoldable pub sig_exit : M (Unit {0})
  sig_exit = Orchestrator.stop env
