-- ===== src/Wifi/Lifetime.antt =====
-- The life of the scanner: what the main loop and the Wi-Fi library call, in any order.
use respir_mesh.Wifi.Station.{
  update, begin, esp_set_host, on_station_disconnected, on_station_got_ip, on_station_connected,
}
use respir_mesh.Wifi.Scan.{wifi_scan_done}
use respir_mesh.Node.Fault.{M}
use respir_mesh.Node.State.{Node}
use respir_mesh.Node.Returns.{Returns, Returns-ran}
use respir_mesh.Wifi.Phases.{
  on_station_disconnected-Keeps, on_station_got_ip-Keeps, on_station_connected-Keeps,
  wifi_scan_done-Keeps, update-Keeps, soft_aps, IsPhase,
}
use respir_mesh.Wifi.State.{
  new, RemClientInfo, WifiServerState, server_code, Wifi, SimpleWifiScanner,
}
use respir_mesh.Node.Env.{Arg, Env}
use respir_mesh.Base.{arith, refl, inl, inr, List, some, ◌↔◌, ◌≡◌, ◌≤◌, ℕ}

-- One call of the scanner that returns, in whatever state the rest of the node is.
pub data Step (env : Env) : SimpleWifiScanner → SimpleWifiScanner → Type 0 where
  updated :
      (wifi : Wifi) (create_server : M (Unit {0})) {s t : SimpleWifiScanner} (w v : Node)
      → update env wifi create_server s w ≡ some (t, v)
      → Step env s t
  scan_done :
      (wifi : Wifi) (networks_count : ℕ) {s t : SimpleWifiScanner} (w v : Node)
      → wifi_scan_done env wifi networks_count s w ≡ some (t, v)
      → Step env s t
  station_connected :
      (station mac : List Arg) {s t : SimpleWifiScanner} (w v : Node)
      → on_station_connected env station mac s w ≡ some (t, v)
      → Step env s t
  station_got_ip :
      (create_client : RemClientInfo → M RemClientInfo) (gw : ℕ) (addresses : List Arg)
      {s t : SimpleWifiScanner} (w v : Node)
      → on_station_got_ip env create_client gw addresses s w ≡ some (t, v)
      → Step env s t
  station_disconnected :
      {s t : SimpleWifiScanner} (w v : Node)
      → on_station_disconnected env s w ≡ some (t, v)
      → Step env s t

-- What the constructor, `begin` and any number of such calls lead to.
pub data Reachable (env : Env) : SimpleWifiScanner → Type 0 where
  begun :
      (wifi : Wifi) {s : SimpleWifiScanner} (w v : Node)
      → begin env wifi new w ≡ some (s, v)
      → Reachable env s
  stepped : {s t : SimpleWifiScanner} → Reachable env s → Step env s t → Reachable env t

module _ (env : Env) where
  begin-IsPhase : (wifi : Wifi) → Returns IsPhase (begin env wifi new)
  unfolding begin new esp_set_host
  begin-IsPhase wifi w = inl (omega arith, refl)

  Step-IsPhase : {s t : SimpleWifiScanner} → Step env s t → IsPhase s → IsPhase t
  Step-IsPhase {s} (Step.updated wifi create_server w v e) phase =
      Returns-ran IsPhase (update env wifi create_server s) w
        (update-Keeps env wifi create_server s phase) e
  Step-IsPhase {s} (Step.scan_done wifi n w v e) phase =
      Returns-ran IsPhase (wifi_scan_done env wifi n s) w (wifi_scan_done-Keeps env wifi n s phase)
        e
  Step-IsPhase {s} (Step.station_connected station mac w v e) phase =
      Returns-ran IsPhase (on_station_connected env station mac s) w
        (on_station_connected-Keeps env station mac s phase) e
  Step-IsPhase {s} (Step.station_got_ip create_client gw addresses w v e) phase =
      Returns-ran IsPhase (on_station_got_ip env create_client gw addresses s) w
        (on_station_got_ip-Keeps env create_client gw addresses s phase) e
  Step-IsPhase {s} (Step.station_disconnected w v e) phase =
      Returns-ran IsPhase (on_station_disconnected env s) w
        (on_station_disconnected-Keeps env s phase) e

  Reachable-IsPhase : {s : SimpleWifiScanner} → Reachable env s → IsPhase s
  Reachable-IsPhase (Reachable.begun wifi w v e) =
      Returns-ran IsPhase (begin env wifi new) w (begin-IsPhase wifi) e
  Reachable-IsPhase (Reachable.stepped before step) = Step-IsPhase step (Reachable-IsPhase before)

  -- In the whole life of a node, whatever the order of the calls of `update` and of the library, the
  -- access point is started at most once, and it has been started exactly when the state of the
  -- server has left those before `starting_server_ap`.
  pub Reachable-once :
      (s : SimpleWifiScanner)
      → Reachable env s
      → (soft_aps s.calls ≤ 1)
        × ((soft_aps s.calls ≡ 1)
            ↔ (server_code WifiServerState.starting_server_ap ≤ server_code s.server_state))
  Reachable-once s reached = elim (Reachable-IsPhase reached) [
    | inl (early, e) ↦ (omega arith, (λ h. omega arith, λ h. omega arith))
    | inr (late, e) ↦ (omega arith, (λ h. late, λ h. e))
  ]
