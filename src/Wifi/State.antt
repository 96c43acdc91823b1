-- ===== src/Wifi/State.antt =====
-- RemCppCommon/ESP8266/SimpleWiFiScanner.hpp, and what the class calls of the ESP8266 libraries.
use respir_mesh.Looper.{TaskLooper}
use respir_mesh.Looper
use respir_mesh.Base.{[], false, replicate, List, Bool, ℤ, ℕ}

pub data WifiClientState : Type 0 where
  unknown wifi_off none_available scanning filtering_aps selecting_ap connecting_ap getting_ip_ap
        full_available :
      WifiClientState

pub data WifiServerState : Type 0 where
  unknown_ap wifi_off_ap server_off_ap starting_server_ap no_clients_ap some_clients_ap
        max_clients_ap :
      WifiServerState

-- The value of the enumerator, by which the code compares.
abbrev pub server_code : WifiServerState → ℕ
server_code WifiServerState.unknown_ap = 0
server_code WifiServerState.wifi_off_ap = 1
server_code WifiServerState.server_off_ap = 2
server_code WifiServerState.starting_server_ap = 3
server_code WifiServerState.no_clients_ap = 4
server_code WifiServerState.some_clients_ap = 5
server_code WifiServerState.max_clients_ap = 6

pub record ApConnData : Type 0 where
  pub net_index : ℕ
  pub rssi : ℤ

-- The calls that change the Wi-Fi hardware, and that of the function that the sketch installs for
-- the server.
pub data WifiCall : Type 0 where
  persistent : Bool → WifiCall
  mode : ℕ → WifiCall
  disconnect enable_sta scan_networks soft_ap_config create_server : WifiCall
  connect : List ℕ → List ℕ → ℕ → WifiCall
  soft_ap : List ℕ → List ℕ → ℕ → WifiCall

-- `WIFI_OFF`, `WIFI_STA` and `WIFI_AP_STA` of the library.
abbrev pub mode_off : ℕ
mode_off = 0

abbrev pub mode_ap_sta : ℕ
mode_ap_sta = 3

-- What the libraries answer while one function of the scanner runs: the result of the last scan by
-- index (`RSSI` is an 8-bit value), whether `getMode() & WIFI_STA` is set, the hexadecimal digits of the chip id. The two macros come with the build.
pub record Wifi : Type 0 where
  pub ssid : ℕ → List ℕ
  pub rssi : ℕ → ℤ
  pub channel : ℕ → ℕ
  pub sta_enabled : Bool
  pub chip_id_hex : List ℕ
  pub s_wifi_ssid : List ℕ
  pub s_wifi_pass : List ℕ

-- `RemClientInfo` of EspUtils.hpp.
pub record RemClientInfo : Type 0 where
  pub connected_to_root : Bool
  pub port : ℕ
  pub rem_server_ip : ℕ

-- The members that the live code uses; `calls` lists the calls made so far, oldest first.
pub record SimpleWifiScanner : Type 0 where
  pub rescan_looper : TaskLooper
  pub servap_looper : TaskLooper
  pub esp_host : List ℕ
  pub rcl_info : RemClientInfo
  pub is_client_connected : Bool
  pub is_server_started : Bool
  pub sorted_valid_aps : List ApConnData
  pub valid_aps_count : ℕ
  pub wifi_ap_connecting : Bool
  pub access_point_crated : Bool
  pub chip_wifi_channel : ℕ
  pub client_state : WifiClientState
  pub server_state : WifiServerState
  pub calls : List WifiCall

abbrev pub max_indexed_scanned_ap : ℕ
max_indexed_scanned_ap = 15

-- -70
abbrev pub minimum_valid_ap_rssi : ℤ
minimum_valid_ap_rssi = ℤ.negsuc 69

-- The constructor, with 0 for the members that it does not set.
unfoldable pub new : SimpleWifiScanner
new = record {
  rescan_looper = Looper.new;
  servap_looper = Looper.new;
  esp_host = replicate 10 0;
  rcl_info = record { connected_to_root = false; port = 0; rem_server_ip = 0 };
  is_client_connected = false;
  is_server_started = false;
  sorted_valid_aps = replicate max_indexed_scanned_ap (record { net_index = 0; rssi = ℤ.pos 0 });
  valid_aps_count = 0;
  wifi_ap_connecting = false;
  access_point_crated = false;
  chip_wifi_channel = 0;
  client_state = WifiClientState.unknown;
  server_state = WifiServerState.unknown_ap;
  calls = [];
}
