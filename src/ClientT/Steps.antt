-- ===== src/ClientT/Steps.antt =====
-- The threads of RemClientCPP/client_t/client_t.cpp: the main thread up to its loop, the accepting
-- thread, which starts before the channels have their receivers, the reading threads, and whatever the
-- router sends. They take turns by the steps of `Step`.
use respir_mesh.ClientT.{
  ClientT, TcpLibrary, init_address, init_server, init_socket, push_client, recv_round,
}
use respir_mesh.ClientT.Main.{Device, client_pointer, new_channels, receive_by, send_device}
use respir_mesh.Base.{ℕ, Bool, true, false, List, Option, none, some, ◌≡◌}

-- How far `main` has come.
pub data Stage : Type 0 where
  begun : Stage
  connected : Stage
  serving : Stage
  client_added : Stage
  running : Stage

-- The accepting thread starts in `init` of the server channel.
abbrev pub is_serving : Stage → Bool
is_serving Stage.begun = false
is_serving Stage.connected = false
is_serving _ = true

-- A step, with the client for which the accepting thread waits before and after it.
pub data Step (lib : TcpLibrary)
    : Stage → Option ℕ → ClientT → Stage → Option ℕ → ClientT → Type 0 where
  connects :
      (address : List ℕ) (port : ℕ) {w : Option ℕ} (t : ClientT)
      → Step lib Stage.begun w t Stage.connected w (init_address lib client_pointer address port t)
  serves :
      (port : ℕ) {w : Option ℕ} (t : ClientT)
      → Step lib Stage.connected w t Stage.serving w (init_server port t)
  adds_client :
      (calls_back : Bool) {w : Option ℕ} (t : ClientT)
      → Step lib Stage.serving w t Stage.client_added w (receive_by calls_back Device.client_tcp t)
  adds_server :
      (calls_back : Bool) {w : Option ℕ} (t : ClientT)
      → Step lib Stage.client_added w t Stage.running w (receive_by calls_back Device.server_tcp t)
  sends :
      (device : Device) (bytes : List ℕ) (size : ℕ) {s : Stage} {w : Option ℕ} (t : ClientT)
      → Step lib s w t s w (send_device lib device bytes size t).1
  pushes :
      {s : Stage} (t : ClientT)
      → is_serving s ≡ true
      → Step lib s none t s (some t.fresh) (push_client t)
  accepts :
      (p : ℕ) (accepted : Option ℕ) {s : Stage} (t : ClientT)
      → Step lib s (some p) t s none (init_socket p accepted t)
  reads :
      (p : ℕ) (msg : List ℕ) {s : Stage} {w : Option ℕ} {t u : ClientT}
      → recv_round p msg t ≡ some u
      → Step lib s w t s w u

-- Any number of steps.
pub data Later (lib : TcpLibrary) (s : Stage) (w : Option ℕ) (t : ClientT)
    : Stage → Option ℕ → ClientT → Type 0 where
  stays : Later lib s w t s w t
  goes :
      {s' s'' : Stage} {w' w'' : Option ℕ} {t' t'' : ClientT}
      → Later lib s w t s' w' t'
      → Step lib s' w' t' s'' w'' t''
      → Later lib s w t s'' w'' t''

abbrev pub Reachable : TcpLibrary → Stage → Option ℕ → ClientT → Type 0
Reachable lib = Later lib Stage.begun none new_channels
