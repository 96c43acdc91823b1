-- ===== src/Esp/Lifetime.antt =====
-- The whole life of an ESP8266 node: `setup`, `loop` and what the Wi-Fi library calls, in any order.
use respir_mesh.Esp.Main.{Program, initial, loop, setup, station_got_ip, wifi_controller}
use respir_mesh.Esp.Sketch.{Build, async_client_init, async_server_init}
use respir_mesh.Looper
use respir_mesh.Node.Env.{Arg, Env}
use respir_mesh.Node.State.{Node}
use respir_mesh.Node.Fault.{M, ◌>>◌, pure}
use respir_mesh.Node.Returns.{Returns, Returns->>=, Returns-any, Returns-ran}
use respir_mesh.Orchestrator
use respir_mesh.Wifi.State
use respir_mesh.Wifi.State.{RemClientInfo, SimpleWifiScanner, Wifi, WifiServerState, server_code}
use respir_mesh.Wifi.Station
use respir_mesh.Wifi.Lifetime
use respir_mesh.Wifi.Phases.{soft_aps}
use respir_mesh.Base.{ℕ, ◌≤◌, List, some, ◌≡◌, ◌↔◌, inl, inr, Bool-cases, Option-cases}

pub data Reachable (env : Env) : Program → Type 0 where
  set_up :
      (wifi : Wifi) (ch_clients : List ℕ) {program : Program} (w v : Node)
      → setup env wifi (initial ch_clients) w ≡ some (program, v)
      → Reachable env program
  looped :
      (wifi : Wifi) {before program : Program} (w v : Node)
      → Reachable env before
      → loop env wifi before w ≡ some (program, v)
      → Reachable env program
  got_ip :
      (build : Build) (gw : ℕ) (addresses : List Arg) {before program : Program} (w v : Node)
      → Reachable env before
      → station_got_ip env build gw addresses before w ≡ some (program, v)
      → Reachable env program
  called :
      {program : Program} {scanner : SimpleWifiScanner}
      → Reachable env program
      → Lifetime.Step env program.parent_scanner scanner
      → Reachable env (record program { parent_scanner = scanner })

module _ (env : Env) where
  -- The scanner of the program is one that the scanner's own life leads to.
  abbrev Scans : Program → Type 0
  Scans program = Lifetime.Reachable env program.parent_scanner

  -- A call of the scanner leads it on.
  stepped :
      {s : SimpleWifiScanner} (m : M SimpleWifiScanner)
      → Lifetime.Reachable env s
      → ((t : SimpleWifiScanner) (w v : Node) → m w ≡ some (t, v) → Lifetime.Step env s t)
      → Returns (Lifetime.Reachable env) m
  stepped m reached step w = elim (Option-cases (m w)) [
    | inl crashed ↦ rw crashed tt
    | inr (r, ran) ↦ rw ran (Lifetime.Reachable.stepped reached (step r.0 w r.1 ran))
  ]

  begun : (wifi : Wifi) → Returns (Lifetime.Reachable env) (Station.begin env wifi State.new)
  begun wifi w = elim (Option-cases (Station.begin env wifi State.new w)) [
    | inl crashed ↦ rw crashed tt
    | inr (r, ran) ↦ rw ran (Lifetime.Reachable.begun wifi w r.1 ran)
  ]

  setup-Scans :
      (wifi : Wifi) (ch_clients : List ℕ) → Returns Scans (setup env wifi (initial ch_clients))
  unfolding setup Orchestrator.begin
  setup-Scans wifi ch_clients =
      Returns->>= (Lifetime.Reachable env) Scans
        (Orchestrator.begin env (wifi_controller env wifi) State.new) _
        (Returns->>= (Lifetime.Reachable env) (Lifetime.Reachable env)
          (Station.begin env wifi State.new) _ (begun wifi) (λ s reached w. reached))
        (λ s reached w. reached)

  loop-Scans :
      (wifi : Wifi) (program : Program) → Scans program → Returns Scans (loop env wifi program)
  unfolding loop Orchestrator.update_all
  loop-Scans wifi program reached w =
      let (due, looper, reads) = Looper.check env.clock program.update_looper w.reads in
      elim (Bool-cases due) [
        | inl now ↦ rw now (
            Returns->>= (Lifetime.Reachable env) Scans
              (Orchestrator.update_all env (wifi_controller env wifi) program.parent_scanner)
              (λ scanner.
                pure (record program { update_looper = looper; parent_scanner = scanner }))
              (Returns->>= (Lifetime.Reachable env) (Lifetime.Reachable env)
                (Station.update env wifi (async_server_init env >> pure tt) program.parent_scanner)
                _
                (stepped _ reached
                  (λ t w v e. Lifetime.Step.updated wifi (async_server_init env >> pure tt) w v e))
                (λ s on w. on))
              (λ s on w. on) (record w { reads = reads }))
        | inr later ↦ rw later reached
      ]

  got_ip-Scans :
      (build : Build) (gw : ℕ) (addresses : List Arg) (program : Program)
      → Scans program
      → Returns Scans (station_got_ip env build gw addresses program)
  unfolding station_got_ip
  got_ip-Scans build gw addresses program reached =
      Returns->>= (λ _. Unit {0}) Scans (async_client_init env build _ program.sketch) _
        (Returns-any _)
        (λ r _.
          Returns->>= (Lifetime.Reachable env) Scans
            (Station.on_station_got_ip env (λ given. pure r.0) gw addresses program.parent_scanner)
            _
            (stepped _ reached
              (λ t w v e. Lifetime.Step.station_got_ip (λ given. pure r.0) gw addresses w v e))
            (λ s on w. on))

  Reachable-Scans : {program : Program} → Reachable env program → Scans program
  Reachable-Scans (Reachable.set_up wifi ch_clients w v e) =
      Returns-ran Scans (setup env wifi (initial ch_clients)) w (setup-Scans wifi ch_clients) e
  Reachable-Scans (Reachable.looped wifi {before = before} w v reached e) =
      Returns-ran Scans (loop env wifi before) w (loop-Scans wifi before (Reachable-Scans reached))
        e
  Reachable-Scans (Reachable.got_ip build gw addresses {before = before} w v reached e) =
      Returns-ran Scans (station_got_ip env build gw addresses before) w
        (got_ip-Scans build gw addresses before (Reachable-Scans reached)) e
  Reachable-Scans (Reachable.called reached step) =
      Lifetime.Reachable.stepped (Reachable-Scans reached) step

  -- In the whole life of an ESP8266 node, from `setup` on and whatever the order of the rounds of `loop`
  -- and of the calls of the Wi-Fi library, the access point is started at most once, and it has been
  -- started exactly when the state of the server has left those before `starting_server_ap`.
  pub Reachable-soft_aps_once :
      (program : Program)
      → Reachable env program
      → (soft_aps program.parent_scanner.calls ≤ 1)
        × ((soft_aps program.parent_scanner.calls ≡ 1) ↔ (
            server_code WifiServerState.starting_server_ap
            ≤ server_code program.parent_scanner.server_state))
  Reachable-soft_aps_once program reached =
      Lifetime.Reachable-once env program.parent_scanner (Reachable-Scans reached)
