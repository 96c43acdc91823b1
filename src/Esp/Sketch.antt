-- ===== src/Esp/Sketch.antt =====
-- RemClientCPP/ClientEsp8266/ClientEsp8266.ino: the functions that it gives to the scanner.
use respir_mesh.Orchestrator.{add_channel, set_object}
use respir_mesh.Esp.{init_esp_client, address_args}
use respir_mesh.Logger.{LogReturn}
use respir_mesh.Wifi.Scan.{starts_with}
use respir_mesh.Node.Fault.{fault, pure, modify, ◌>>◌, M}
use respir_mesh.Wifi.State.{RemClientInfo}
use respir_mesh.Node.Env.{Arg, Env}
use respir_mesh.Base.{◌+◌, u8, get_or, length, [], ltb, ◌∷◌, if◌then◌else◌, List, ℕ}
use respir_mesh.Logger

-- `MAX_AP_CLIENTS`
abbrev pub max_ap_clients : ℕ
max_ap_clients = 8

-- `chClients`, by their pointers, and `conectedCClientsCnt`.
pub record Sketch : Type 0 where
  pub ch_clients : List ℕ
  pub conected_c_clients_cnt : ℕ

-- What the build and the Wi-Fi library give: the name of the network that the station is in, the
-- prefix `_S_WIFI_SSID` and the address `_SERVER_IP`; `bytes` takes an address apart.
pub record Build : Type 0 where
  pub ssid : List ℕ
  pub s_wifi_ssid : List ℕ
  pub server_ip : ℕ
  pub bytes : ℕ → List ℕ

-- What the first lines make of the argument.
abbrev pub client_info : Build → RemClientInfo → RemClientInfo
client_info build info = record info {
  rem_server_ip =
      if starts_with build.ssid build.s_wifi_ssid then build.server_ip else info.rem_server_ip;
  port = 9995;
}

abbrev pub info_args : Build → RemClientInfo → List Arg
info_args build info =
    Arg.num (if info.connected_to_root then 1 else 0)
    ∷ address_args (build.bytes info.rem_server_ip) info.port

module _ (env : Env) where
  unfoldable pub async_server_init : M LogReturn
  async_server_init = Logger.info env "async_server_init" []

  -- A channel object out of the array: `init`, the flag, and into the list of the orchestrator.
  unfoldable pub open_client : ℕ → Build → RemClientInfo → M (Unit {0})
  open_client p build info = do
    init_esp_client env (build.bytes info.rem_server_ip) info.port
    modify
        (λ w. set_object p (record (w.objects p) { connected_to_root = info.connected_to_root }) w)
    add_channel env p

  -- The counter is the index: from the ninth call on it is out of bounds.
  unfoldable pub async_client_init : Build → RemClientInfo → Sketch → M (RemClientInfo × Sketch)
  async_client_init build given sketch =
      let info = client_info build given in
      let n = sketch.conected_c_clients_cnt in
      Logger.notice env "async_client_init root %u  ip %u.%u.%u.%u : %u \n" (info_args build info)
      >> (if ltb n (length sketch.ch_clients)
          then open_client (get_or sketch.ch_clients n 0) build info
            >> pure (info, record sketch { conected_c_clients_cnt = u8 (n + 1) })
          else fault)
