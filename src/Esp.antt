-- ===== src/Esp.antt =====
-- RemCppCommon/ESP8266/EspAsyncClient and EspAsyncServer: life of the objects. Their `send`, `is_ok`,
-- `stop` and `ch_id` stand with those of the other classes.
pub mod Sketch
pub mod Main
pub mod Lifetime
pub mod Reconnect
mod Tests
use respir_mesh.Logger.{LogReturn}
use respir_mesh.Node.Fault.{M}
use respir_mesh.Node.Env.{Arg, Env}
use respir_mesh.Node.State.{update, Channel, Node, ChannelKind}
use respir_mesh.Base.{◌∷◌, [], false, u16, get_or, ◌+◌, none, List, ℕ}
use respir_mesh.Logger

-- The members that no constructor sets are 0 or false.
abbrev pub esp_channel : ChannelKind → ℕ → Channel
esp_channel kind id = record {
  kind = kind;
  connected_to_root = false;
  is_client = false;
  is_server = false;
  is_connected = false;
  has_listener = false;
  has_receiver = false;
  shut = false;
  id = id;
}

unfoldable pub new_esp_client : Node → ℕ × Node
new_esp_client w = (
  w.fresh,
  record w {
    fresh = w.fresh + 1;
    esp_ids = u16 (w.esp_ids + 1);
    objects = update w.objects w.fresh (esp_channel ChannelKind.esp_client w.esp_ids);
  },
)

unfoldable pub new_esp_server : Node → ℕ × Node
new_esp_server w = (
  w.fresh,
  record w {
    fresh = w.fresh + 1;
    objects = update w.objects w.fresh (esp_channel ChannelKind.esp_server 0);
  },
)

-- The bytes of an `IPAddress` and a port, as the arguments of a log line.
abbrev pub address_args : List ℕ → ℕ → List Arg
address_args address port =
    Arg.num (get_or address 0 0)
    ∷ Arg.num (get_or address 1 0)
    ∷ Arg.num (get_or address 2 0)
    ∷ Arg.num (get_or address 3 0)
    ∷ Arg.num port
    ∷ []

module _ (env : Env) where
  -- `init(client, remOrch)` of a client; the library's object is copied.
  unfoldable pub init_esp_accepted : M LogReturn
  init_esp_accepted = Logger.info env "Local TCP started from SERVER !!! " []

  -- `init(address, port, remOrch)` of a client; the library connects by itself.
  unfoldable pub init_esp_client : List ℕ → ℕ → M LogReturn
  init_esp_client address port =
      Logger.info env "Local TCP started %u.%u.%u.%u:%d " (address_args address port)

  -- `init(socket, remOrch)` and `init(address, port, remOrch)` of a server.
  unfoldable pub init_esp_socket : ℕ → M LogReturn
  init_esp_socket socket =
      Logger.info env "   SERVER TCP started in socket:%d \n" (Arg.num socket ∷ [])

  unfoldable pub init_esp_server : List ℕ → ℕ → M LogReturn
  init_esp_server address port =
      Logger.info env "   SERVER TCP started %u.%u.%u.%u:%d \n" (address_args address port)

  -- The three handlers of a client. What arrives is logged and dropped.
  unfoldable pub on_connect : M LogReturn
  on_connect = Logger.info env "void onConnect(AsyncClient *client){   " []

  unfoldable pub cliect_disconnected : M LogReturn
  cliect_disconnected = Logger.info env "void cliectDisconnected(AsyncClient *client){   " []

  unfoldable pub data_recv : List ℕ → M LogReturn
  data_recv bytes = Logger.info env "void dataRecv(AsyncClient *c, void *data, size_t len){   " []
