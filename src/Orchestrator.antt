-- ===== src/Orchestrator.antt =====
-- RemCppCommon/RemOrchestrator.hpp and RemOrchestrator.cpp: the list of channels, and who calls
-- whom. A channel's `stop` is the virtual one of its class.
pub mod Stopping
pub mod Cleaning
use respir_mesh.Base.{
  none, ℕ, ◌+◌, Bool, true, false, List, [], ◌∷◌, ◌++◌, some, length, if◌then◌else◌,
}
use respir_mesh.Node.Env.{Env, Arg}
use respir_mesh.Node.State.{Node, Channel, ChannelKind, update}
use respir_mesh.Node.Fault.{M, pure, fault, ◌>>=◌, ◌>>◌, gets, modify, total}
use respir_mesh.Channel.{is_ok, ch_id}
use respir_mesh.Logger
use respir_mesh.Wire.Header.{set_size}
use respir_mesh.Router.Topo

abbrev pub set_object : ℕ → Channel → Node → Node
set_object p c w = record w { objects = update w.objects p c }

-- The node after the socket of a channel has been shut down or destroyed.
abbrev pub shut : ℕ → Node → Node
shut p w = set_object p (record (w.objects p) { shut = true }) (record w { calls = w.calls + 1 })

module _ (env : Env) where
  -- `shutdown` or `destroy` of the socket of a channel: false if it throws, and leaves the socket.
  abbrev pub shut_socket : ℕ → M Bool
  shut_socket p w =
      if env.shuts_down w.calls
      then some (true, shut p w)
      else some (false, record w { calls = w.calls + 1 })

  abbrev pub stop_as : ChannelKind → ℕ → M Bool
  stop_as ChannelKind.x86_client p = do
    Logger.info env "X86LinuxClientChannel::stop \n" []
    connected ← gets (λ w. (w.objects p).is_connected)
    if connected then shut_socket p else pure true
  stop_as ChannelKind.x86_server p = do
    Logger.info env "X86LinuxServerChannel::stop \n" []
    shut_socket p
  stop_as ChannelKind.esp_client p = do Logger.info env "Local TCP exiting \n" []; pure true
  stop_as ChannelKind.esp_server p = do Logger.info env "Local TCP exiting \n" []; pure true

  -- `channel->stop()`: false if it leaves by a socket_exception, which none of the `stop` catches.
  unfoldable pub stop_channel : ℕ → M Bool
  stop_channel p w = stop_as (w.objects p).kind p w

  -- The loop of `RemOrchestrator::stop`. Nothing on the way to `main` or to the signal handler catches
  -- a socket_exception: it ends the process.
  unfoldable pub stop_all : List ℕ → M (Unit {0})
  stop_all [] = pure tt
  stop_all (p ∷ ps) = do
    id ← gets (ch_id p)
    Logger.warn env "STOPPING CHANNEL  %u  \n" (Arg.num id ∷ [])
    stopped ← stop_channel p
    if stopped then stop_all ps else fault

  unfoldable pub stop : M (Unit {0})
  stop = do
    Logger.warn env "RemOrchestrator::stop() \n" []
    channels ← gets (λ w. w.channels)
    stop_all channels

  -- The log line goes out before the channel is in the list.
  unfoldable pub add_channel : ℕ → M (Unit {0})
  add_channel p = do
    modify (λ w. set_object p (record (w.objects p) { has_receiver = true }) w)
    id ← gets (ch_id p)
    Logger.info env "ADDED ch %d  \n" (Arg.num id ∷ [])
    modify (λ w. record w { channels = w.channels ++ p ∷ [] })

  -- The loop of `clean_channels`. After `channels.erase(it)` the loop goes on from the erased
  -- iterator, which is undefined.
  unfoldable pub clean_all : List ℕ → M (Unit {0})
  clean_all [] = pure tt
  clean_all (p ∷ ps) = do
    ok ← total (is_ok env p)
    if ok then clean_all ps else (do
      id ← gets (ch_id p)
      Logger.info env "DELETING CHANNEL  %d  \n" (Arg.num id ∷ [])
      stop_channel p
      fault)

  unfoldable pub clean_channels : M (Unit {0})
  clean_channels = do
    channels ← gets (λ w. w.channels)
    clean_all channels
    size ← gets (λ w. length w.channels)
    Logger.info env "CHs size  %d  \n" (Arg.num size ∷ [])
    pure tt

  -- What every channel of the node calls with the data that it receives. Undefined, if the decoder of
  -- the router gets a length past the end of the buffer.
  unfoldable pub receive_fn : List ℕ → ℕ → M (List ℕ)
  receive_fn buffer size w =
      if Topo.overreads (set_size size buffer) size
      then none
      else some (Topo.route_packet env buffer size w)

-- The interface RemConnectionController (RemConnectionController.hpp), which the scanners implement,
-- with the members of the scanner as a state of their own.
pub record RemConnectionController (Scanner : Type 0) : Type 0 where
  pub begin_scanner : Scanner → M Scanner
  pub update_scanner : Scanner → M Scanner

module _ (env : Env) {Scanner : Type 0} (rem_scanner : RemConnectionController Scanner) where
  unfoldable pub begin : Scanner → M Scanner
  begin scanner = do begun ← rem_scanner.begin_scanner scanner; modify (Topo.begin env); pure begun

  unfoldable pub update_all : Scanner → M Scanner
  update_all scanner = do
    updated ← rem_scanner.update_scanner scanner
    modify (Topo.update env)
    pure updated
