-- ===== src/Channel.antt =====
-- RemCppCommon/RemChannel.hpp and the classes that derive from it: `send`, `is_ok` and `ch_id` of
-- X86LinuxClientChannel, X86LinuxServerChannel (RemCppCommon/X86_64), EspAsyncClient and
-- EspAsyncServer (RemCppCommon/ESP8266). A virtual call is a split on the class of the object.
pub mod Delivery
use respir_mesh.Base.{
  length, ℕ, ◌+◌, Bool, true, false, List, [], ◌∷◌, ◌++◌, ◌&&◌, take, u16, ltb, if◌then◌else◌,
}
use respir_mesh.Node.Env.{Env, SndResult}
use respir_mesh.Node.State.{Node, Channel, ChannelKind, update}

-- The socket has been called once more, with the packet.
abbrev pub hand_over : ℕ → List ℕ → Node → Node
hand_over p packet w = record w { calls = w.calls + 1; sent = w.sent ++ (p, packet) ∷ [] }

-- After `cli_sock->snd`: an exception clears `managed_to_send`; the result says whether bytes
-- were written.
abbrev pub x86_sent : ℕ → SndResult → Node → ℕ × Node
x86_sent p SndResult.threw w = (0, record w { managed_to_send = update w.managed_to_send p false })
x86_sent p SndResult.negative w = (0, w)
x86_sent p (SndResult.wrote n) w = (if ltb 0 n then 1 else 0, w)

-- What `is_ok` of the X86_64 client does with the answer of `fcntl`.
abbrev pub x86_ok : ℕ → Bool → Node → Bool × Node
x86_ok p true w = (w.managed_to_send p, record w { calls = w.calls + 1 })
x86_ok p false w =
    (false, record w { calls = w.calls + 1; managed_to_send = update w.managed_to_send p false })

module _ (env : Env) where
  abbrev send_as : ChannelKind → ℕ → List ℕ → Node → ℕ × Node
  send_as ChannelKind.x86_client p packet w = x86_sent p (env.snd w.calls) (hand_over p packet w)
  send_as ChannelKind.x86_server p packet w = (0, w)
  send_as ChannelKind.esp_client p packet w =
      (u16 (env.write w.calls (length packet)), hand_over p packet w)
  send_as ChannelKind.esp_server p packet w = (0, w)

  -- `channel->send(data, size)`
  unfoldable pub send : ℕ → List ℕ → ℕ → Node → ℕ × Node
  send p buffer size w = send_as (w.objects p).kind p (take size buffer) w

  abbrev is_ok_as : ChannelKind → ℕ → Node → Bool × Node
  is_ok_as ChannelKind.x86_client p w = x86_ok p (env.fd_open w.calls) w
  is_ok_as ChannelKind.x86_server p w = (true, w)
  is_ok_as ChannelKind.esp_client p w = (env.connected w.calls, record w { calls = w.calls + 1 })
  is_ok_as ChannelKind.esp_server p w = (true, w)

  unfoldable pub is_ok : ℕ → Node → Bool × Node
  is_ok p w = is_ok_as (w.objects p).kind p w

abbrev ch_id_as : ChannelKind → ℕ → Node → ℕ
ch_id_as ChannelKind.x86_client p w = u16 (w.objects p).id
ch_id_as ChannelKind.x86_server p w = w.server_ids
ch_id_as ChannelKind.esp_client p w = u16 (w.objects p).id
ch_id_as ChannelKind.esp_server p w = 500

unfoldable pub ch_id : ℕ → Node → ℕ
ch_id p w = ch_id_as (w.objects p).kind p w

-- The classes whose `send` reaches a transport; the servers' returns 0 and does nothing.
abbrev pub transmits : ChannelKind → Bool
transmits ChannelKind.x86_client = true
transmits ChannelKind.x86_server = false
transmits ChannelKind.esp_client = true
transmits ChannelKind.esp_server = false
