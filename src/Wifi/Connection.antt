-- ===== src/Wifi/Connection.antt =====
-- Which access point `wifi_connect_beggin` connects to after a scan.
use respir_mesh.Wire.Messages.{Severity}
use respir_mesh.Wifi.Scan.{unset_ap, is_candidate, ssid_to_pass}
use respir_mesh.Logger.Lines.{line, Fits}
use respir_mesh.Logger.{log_packet_size}
use respir_mesh.Wifi.Strongest.{front-strongest}
use respir_mesh.Wifi.Choice.{IsFound, used_aps, kept_aps, Scanned}
use respir_mesh.Wifi.Station.{connect_selected, call, wifi_connect_beggin}
use respir_mesh.Node.State.{Node}
use respir_mesh.Wifi.State.{ApConnData, WifiClientState, WifiCall, SimpleWifiScanner, Wifi}
use respir_mesh.Node.Env.{Encodes, Env}
use respir_mesh.Base.{
  ap, ◌==◌, length-take, arith, get_or-take, get_or, false, gtb, true, u16, some, [], refl, ◌∙◌, [],
  ◌≡◌, length, ◌<◌, ◌≤◌, ℕ,
}
use mathlib.Core.List.{Mem}
use respir_mesh.Logger
use respir_mesh.Node.Fault.{pure, >>-runs}
use respir_mesh.Wire.Messages.{Severity}
use mathlib.Core.Path.{subst}

module _ (env : Env) (enc : Encodes env) (wifi : Wifi) (networks_count : ℕ)
    (after : SimpleWifiScanner) (w : Node) where
  -- If nanopb keeps its promises and the text fits, `wifi_connect_beggin` after a scan that has kept
  -- a network returns, and its one call asks the Wi-Fi library for a connection to a network of that
  -- scan that passes the test, with the password for its name and on its channel; none of the
  -- networks that the scan has kept is stronger.
  pub wifi_connect_beggin_strongest :
      Scanned wifi networks_count after
      → networks_count ≤ 255
      → 0 < after.valid_aps_count
      → length w.log_packet ≡ log_packet_size
      → Fits env " SimpleWiFiScanner::wifi_connect_beggin   " []
      → (i : ℕ) × (v : Node) × (wifi_connect_beggin env wifi after w
          ≡ some (
            call
                (WifiCall.connect
                  (wifi.ssid i)
                  (ssid_to_pass wifi (wifi.ssid i))
                  (u16 (wifi.channel i)))
                (record after {
                  chip_wifi_channel = u16 (wifi.channel i);
                  wifi_ap_connecting = true;
                  client_state = WifiClientState.connecting_ap;
                }),
            v,
          ))
        × (i < networks_count)
        × (is_candidate wifi i ≡ true)
        × ((ap : ApConnData)
            → Mem ap (kept_aps wifi networks_count)
            → gtb ap.rssi (wifi.rssi i) ≡ false)
  unfolding wifi_connect_beggin Logger.info
  wifi_connect_beggin_strongest scanned few some_ap sized fits =
      let l =
        line env enc Severity.info "[INFO]" " SimpleWiFiScanner::wifi_connect_beggin   " [] w sized
          fits in
      let front = get_or after.sorted_valid_aps 0 unset_ap in
      let first : get_or (used_aps after) 0 unset_ap ≡ front =
        get_or-take after.valid_aps_count after.sorted_valid_aps 0 unset_ap some_ap in
      let some_used : 0 < length (used_aps after) =
        omega (arith, length-take after.valid_aps_count after.sorted_valid_aps, scanned.stored) in
      let strongest =
        front-strongest wifi networks_count (kept_aps wifi networks_count) (used_aps after)
          scanned.same scanned.ordered scanned.found some_used in
      let (below, good, level) = subst (λ x. IsFound wifi networks_count x) first strongest.0 in
      let set_ap : (front.net_index == 255) ≡ false = ground arith in
      (
        front.net_index,
        l.after,
        >>-runs (Logger.info env " SimpleWiFiScanner::wifi_connect_beggin   " [])
              (pure (connect_selected wifi after)) w l.runs
            ∙ rw set_ap refl,
        below,
        good,
        λ a m.
            subst (λ r. gtb a.rssi r ≡ false) (ap (λ (x : ApConnData). x.rssi) first ∙ level)
              (strongest.1 a m),
      )
