-- ===== src/X86/ListController.antt =====
-- RemCppCommon/X86_64/SimpleListChnCtrl.hpp and SimpleListChnCtrl.cpp: the controller that opens the
-- listed servers and connects to the listed hosts.
use respir_mesh.Base.{ℕ, Bool, true, false, List, [], ◌∷◌, ◌++◌, length, if◌then◌else◌}
use respir_mesh.Node.Env.{Env, Arg}
use respir_mesh.Node.Fault.{M, pure, ◌>>=◌, ◌>>◌, gets, modify, total}
use respir_mesh.Logger
use respir_mesh.Orchestrator.{add_channel}
use respir_mesh.X86.Client.{new_client, set_conn_listener, init_host}
use respir_mesh.X86.Server.{new_server, init_server}

pub record SimpleListChnCtrl : Type 0 where
  pub clients_list : List (List ℕ × List ℕ)
  pub servers_list : List (List ℕ × List ℕ)
  pub is_client_connected : Bool
  pub is_server_started : Bool

unfoldable pub new : SimpleListChnCtrl
new = record {
  clients_list = [];
  servers_list = [];
  is_client_connected = false;
  is_server_started = false;
}

unfoldable pub add_server_host : List ℕ → List ℕ → SimpleListChnCtrl → SimpleListChnCtrl
add_server_host host port c = record c { servers_list = c.servers_list ++ (host, port) ∷ [] }

module _ (env : Env) where
  unfoldable pub add_client_host : List ℕ → List ℕ → SimpleListChnCtrl → M SimpleListChnCtrl
  add_client_host host port c = do
    Logger.info env "adding client  %s : %s " (Arg.text host ∷ Arg.text port ∷ [])
    pure (record c { clients_list = c.clients_list ++ (host, port) ∷ [] })

  -- The loops return whether a channel has been added, or the flag as it was.
  unfoldable pub start_each : List (List ℕ × List ℕ) → Bool → M Bool
  start_each [] started = pure started
  start_each ((host, port) ∷ hosts) started = do
    Logger.info env "\n\n\nTrying to start server %s:%s   \n" (Arg.text host ∷ Arg.text port ∷ [])
    p ← total new_server
    modify (set_conn_listener p)
    init_server env p host port
    opened ← gets (λ w. (w.objects p).is_connected)
    (if opened then add_channel env p else pure tt)
    start_each hosts (if opened then true else started)

  unfoldable pub start_servers : SimpleListChnCtrl → M SimpleListChnCtrl
  start_servers c = do
    Logger.info env " SimpleListScanner::start_servers servers_list  size  %u  \n"
        (Arg.num (length c.servers_list) ∷ [])
    started ← start_each c.servers_list c.is_server_started
    pure (record c { is_server_started = started })

  unfoldable pub scan_each : List (List ℕ × List ℕ) → Bool → M Bool
  scan_each [] connected = pure connected
  scan_each ((host, port) ∷ hosts) connected = do
    Logger.info env "\n\n\nTrying to connect to  %s:%s   \n" (Arg.text host ∷ Arg.text port ∷ [])
    p ← total new_client
    modify (set_conn_listener p)
    init_host env p host port
    opened ← gets (λ w. (w.objects p).is_connected)
    (if opened then add_channel env p else pure tt)
    scan_each hosts (if opened then true else connected)

  unfoldable pub scan_clients : SimpleListChnCtrl → M SimpleListChnCtrl
  scan_clients c = do
    Logger.info env " SimpleListScanner::scan_clients  clients_list  size  %u  "
        (Arg.num (length c.clients_list) ∷ [])
    connected ← scan_each c.clients_list c.is_client_connected
    pure (record c { is_client_connected = connected })

  unfoldable pub update : SimpleListChnCtrl → M SimpleListChnCtrl
  update c = do
    scanned ← (if c.is_client_connected then pure c else scan_clients c)
    (if scanned.is_server_started then pure scanned else start_servers scanned)
