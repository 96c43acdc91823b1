-- ===== src/Esp/Reconnect.antt =====
-- What `async_client_init` does each time that the station gets an address.
use respir_mesh.Wifi.Scan.{starts_with}
use respir_mesh.Orchestrator.Cleaning.{add_channel_appends}
use respir_mesh.Orchestrator.{set_object}
use respir_mesh.Wire.Messages.{Severity}
use respir_mesh.Node.Fault.{>>-none}
use respir_mesh.Logger.{log_packet_size}
use respir_mesh.Logger.Lines.{line, Fits}
use Prim.Native.String.{String}
use respir_mesh.Esp.{address_args, Arg, init_esp_client}
use respir_mesh.Node.State.{Node}
use respir_mesh.Wifi.State.{RemClientInfo}
use respir_mesh.Esp.Sketch.{client_info, info_args, open_client, async_client_init, Sketch, Build}
use respir_mesh.Node.Env.{Arg, Encodes, Env}
use Prim.Native.String.{String}
use respir_mesh.Base.{
  if◌then◌else◌, ap, u8, ==_refl, u8, true, [], ◌∷◌, ◌++◌, ◌+◌, some, get_or, ◌<◌, refl, ◌∙◌, arith,
  false, List, ltb, none, ◌≡◌, ◌≤◌, length, ℕ,
}
use respir_mesh.Logger
use respir_mesh.Logger.{log_packet_size}
use respir_mesh.Node.Fault.{>>-none, >>-runs}

module _ (env : Env) (enc : Encodes env)
    (short : (format : String) (args : List Arg) → Fits env format args) where
  open_client_lem :
      (p : ℕ) (build : Build) (info : RemClientInfo) (w : Node)
      → length w.log_packet ≡ log_packet_size
      → (v : Node) × (open_client env p build info w ≡ some (tt, v))
        × (v.channels ≡ w.channels ++ p ∷ [])
        × ((v.objects p).has_receiver ≡ true)
        × ((v.objects p).connected_to_root ≡ info.connected_to_root)
  unfolding open_client init_esp_client Logger.info
  open_client_lem p build info w sized =
      let args = address_args (build.bytes info.rem_server_ip) info.port in
      let format : String = "Local TCP started %u.%u.%u.%u:%d " in
      let l = line env enc Severity.info "[INFO]" format args w sized (short format args) in
      let u =
        set_object p (record (l.after.objects p) { connected_to_root = info.connected_to_root })
          l.after in
      let a = add_channel_appends env enc p u (l.kept.log_size ∙ sized) (short _ _) in
      (
        a.0,
        >>-runs (Logger.info env format args) _ w l.runs ∙ a.1,
        a.2 ∙ ap (λ cs. cs ++ p ∷ []) l.kept.channels,
        rw (a.3, ==_refl p) refl,
        rw (a.3, ==_refl p) refl,
      )

module _ (env : Env) (build : Build) (given : RemClientInfo) (sketch : Sketch) (w : Node) where
  -- The array of channel objects is used up after as many addresses as it has entries: the next call
  -- is undefined behaviour, for it takes an object behind the array (or crashes before that).
  pub async_client_init_full :
      length sketch.ch_clients ≤ sketch.conected_c_clients_cnt
      → async_client_init env build given sketch w ≡ none
  unfolding async_client_init
  async_client_init_full full =
      >>-none
        (Logger.notice env "async_client_init root %u  ip %u.%u.%u.%u : %u \n"
          (info_args build (client_info build given)))
        _ w (λ u. rw (past full) refl)
    where
      past : {n m : ℕ} → m ≤ n → ltb n m ≡ false
      past h = ground arith

  -- If nanopb keeps its promises and the texts fit, and there is an object left, the call returns:
  -- the next object of the array stands at the end of the channel list, with its receiver set, as a
  -- channel that is connected to the root or not as it was asked for; the port is 9995, the address is
  -- that of the server if the name of the network begins with that of the build and the given one
  -- otherwise, and the counter has gone up by one.
  pub async_client_init_opens :
      Encodes env
      → ((format : String) (args : List Arg) → Fits env format args)
      → length w.log_packet ≡ log_packet_size
      → sketch.conected_c_clients_cnt < length sketch.ch_clients
      → sketch.conected_c_clients_cnt < 255
      → let p = get_or sketch.ch_clients sketch.conected_c_clients_cnt 0 in
        (v : Node) × (async_client_init env build given sketch w
          ≡ some (
            (
              record {
                connected_to_root = given.connected_to_root;
                port = 9995;
                rem_server_ip =
                    if starts_with build.ssid build.s_wifi_ssid
                    then build.server_ip
                    else given.rem_server_ip;
              },
              record sketch { conected_c_clients_cnt = sketch.conected_c_clients_cnt + 1 },
            ),
            v,
          ))
        × (v.channels ≡ w.channels ++ p ∷ [])
        × ((v.objects p).has_receiver ≡ true)
        × ((v.objects p).connected_to_root ≡ given.connected_to_root)
  unfolding async_client_init Logger.notice
  async_client_init_opens enc short sized room small =
      let info = client_info build given in
      let n = sketch.conected_c_clients_cnt in
      let p = get_or sketch.ch_clients n 0 in
      let args = info_args build info in
      let format : String = "async_client_init root %u  ip %u.%u.%u.%u : %u \n" in
      let l = line env enc Severity.notice "[NOTICE]" format args w sized (short format args) in
      let o = open_client_lem env enc short p build info l.after (l.kept.log_size ∙ sized) in
      let free : ltb n (length sketch.ch_clients) ≡ true = ground arith in
      let next : u8 (n + 1) ≡ n + 1 = omega arith in
      (
        o.0,
        >>-runs (Logger.notice env format args) _ w l.runs
            ∙ rw (free, next) (>>-runs (open_client env p build info) _ l.after o.1),
        o.2 ∙ ap (λ cs. cs ++ p ∷ []) l.kept.channels,
        o.3,
        o.4,
      )
