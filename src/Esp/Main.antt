-- ===== src/Esp/Main.antt =====
-- RemClientCPP/ClientEsp8266/ClientEsp8266.ino: `setup` and `loop`, which put the orchestrator, the
-- router, the logger and the scanner together, and its function for a new client behind the scanner.
use respir_mesh.Esp.Sketch.{Build, Sketch, async_client_init, async_server_init}
use respir_mesh.Looper
use respir_mesh.Looper.{TaskLooper}
use respir_mesh.Node.Env.{Arg, Env}
use respir_mesh.Node.Fault.{M, ◌>>=◌, ◌>>◌, pure}
use respir_mesh.Orchestrator
use respir_mesh.Orchestrator.{RemConnectionController}
use respir_mesh.Wifi.State
use respir_mesh.Wifi.State.{SimpleWifiScanner, Wifi}
use respir_mesh.Wifi.Station
use respir_mesh.Base.{ℕ, List, some, true, if◌then◌else◌}

-- The globals beside the objects of the node.
pub record Program : Type 0 where
  pub parent_scanner : SimpleWifiScanner
  pub update_looper : TaskLooper
  pub sketch : Sketch

-- Before `setup`, with the array of channels at these pointers.
abbrev pub initial : List ℕ → Program
initial ch_clients = record {
  parent_scanner = State.new;
  update_looper = Looper.new;
  sketch = record { ch_clients = ch_clients; conected_c_clients_cnt = 0 };
}

-- `SimpleWiFiScanner` as the connection controller, with the function that the sketch gives to it.
abbrev pub wifi_controller : Env → Wifi → RemConnectionController SimpleWifiScanner
wifi_controller env wifi = record {
  begin_scanner = Station.begin env wifi;
  update_scanner = Station.update env wifi (async_server_init env >> pure tt);
}

-- An operation on the looper, which reads the clock of the node.
abbrev pub timed : (TaskLooper → ℕ → TaskLooper × ℕ) → Program → M Program
timed f program w =
    let (looper, reads) = f program.update_looper w.reads in
    some (record program { update_looper = looper }, record w { reads = reads })

module _ (env : Env) where
  unfoldable pub setup : Wifi → Program → M Program
  setup wifi program = do
    begun ← Orchestrator.begin env (wifi_controller env wifi) program.parent_scanner
    program ← timed (Looper.begin env.clock) (record program { parent_scanner = begun })
    timed (Looper.set_interval env.clock 1000) program

  unfoldable pub loop : Wifi → Program → M Program
  loop wifi program w =
      let (due, looper, reads) = Looper.check env.clock program.update_looper w.reads in
      let program = record program { update_looper = looper } in
      let w = record w { reads = reads } in
      if due
      then (Orchestrator.update_all env (wifi_controller env wifi) program.parent_scanner
            >>= λ scanner. pure (record program { parent_scanner = scanner }))
          w
      else some (program, w)

  -- `onStationGotIP` with `async_client_init` as its function for a new client, which comes first.
  unfoldable pub station_got_ip : Build → ℕ → List Arg → Program → M Program
  station_got_ip build gw addresses program = do
    (info, sketch) ←
        async_client_init env build
          (record program.parent_scanner.rcl_info { connected_to_root = true; rem_server_ip = gw })
          program.sketch
    scanner ← Station.on_station_got_ip env (λ given. pure info) gw addresses program.parent_scanner
    pure (record program { parent_scanner = scanner; sketch = sketch })
