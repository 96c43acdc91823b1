-- ===== src/Esp/Tests.antt =====
-- A sketch with two objects, one of them in use.
use respir_mesh.Esp.Reconnect.{async_client_init_opens}
use respir_mesh.Sample.{texts-Fits, env-Encodes, node, env}
use respir_mesh.Node.State.{Node}
use respir_mesh.Wifi.State.{RemClientInfo}
use respir_mesh.Orchestrator
use respir_mesh.Wifi.Station
use respir_mesh.Looper
use respir_mesh.Router.Topo
use respir_mesh.Esp.Main.{Program, initial, loop, setup}
use respir_mesh.Esp.Lifetime.{Reachable, Reachable-soft_aps_once}
use respir_mesh.Wifi.State.{Wifi, server_code}
use respir_mesh.Wifi.Phases.{soft_aps}
use respir_mesh.Esp.Sketch.{client_info, Sketch, async_client_init, Build}
use respir_mesh.Base.{◌↔◌, false, Option, ℤ, ◌≤◌, some, arith, ◌≡◌, true, none, [], ◌∷◌, refl}

abbrev sketch : Sketch
sketch = record { ch_clients = 4 ∷ 5 ∷ []; conected_c_clients_cnt = 1 }

abbrev full : Sketch
full = record sketch { conected_c_clients_cnt = 2 }

abbrev build : Build
build = record {
  ssid = 114 ∷ 115 ∷ [];
  s_wifi_ssid = 104 ∷ [];
  server_ip = 1;
  bytes = λ ip. 10 ∷ 0 ∷ 0 ∷ ip ∷ [];
}

abbrev given : RemClientInfo
given = record { connected_to_root = true; port = 0; rem_server_ip = 9 }

async_client_init_opens_example :
    (v : Node) × (async_client_init (env 7) build given sketch node
      ≡ some ((client_info build given, full), v))
    × (v.channels ≡ 0 ∷ 1 ∷ 2 ∷ 5 ∷ [])
    × ((v.objects 5).has_receiver ≡ true)
    × ((v.objects 5).connected_to_root ≡ true)
async_client_init_opens_example =
    async_client_init_opens (env 7) build given sketch node (env-Encodes 7) texts-Fits refl
      (omega arith) (omega arith)

abbrev wifi : Wifi
wifi = record {
  ssid = λ i. 65 ∷ [];
  rssi = λ i. ℤ.pos 0;
  channel = λ i. 1;
  sta_enabled = false;
  chip_id_hex = 49 ∷ 50 ∷ 51 ∷ 52 ∷ 53 ∷ [];
  s_wifi_ssid = 104 ∷ 105 ∷ [];
  s_wifi_pass = 1 ∷ [];
}

abbrev left_by : Option (Program × Node) → Program × Node
left_by none = (initial [], node)
left_by (some s) = s

abbrev ready : Program × Node
ready = left_by (setup (env 7) wifi (initial (4 ∷ 5 ∷ [])) node)

-- After the first round of `loop`.
abbrev looped_once : Program × Node
looped_once = left_by (loop (env 7) wifi ready.0 ready.1)

looped_once-Reachable : Reachable (env 7) looped_once.0
unfolding setup Orchestrator.begin Station.begin loop Looper.check Looper.set_interval Looper.begin
    Topo.begin Looper.now
looped_once-Reachable =
    Reachable.looped wifi ready.1 looped_once.1
      (Reachable.set_up wifi (4 ∷ 5 ∷ []) node ready.1 refl) refl

Reachable-soft_aps_once_example :
    (soft_aps looped_once.0.parent_scanner.calls ≤ 1)
    × ((soft_aps looped_once.0.parent_scanner.calls ≡ 1)
        ↔ (3 ≤ server_code looped_once.0.parent_scanner.server_state))
Reachable-soft_aps_once_example =
    Reachable-soft_aps_once (env 7) looped_once.0 looped_once-Reachable
