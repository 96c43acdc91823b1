-- ===== src/Node/State.antt =====
-- The objects of one node. `RemOrchestrator` holds the list of channels and pointers to the rest;
-- the mutable members of the others stand beside it.
use respir_mesh.Base.{ℕ, Bool, List, ◌==◌, if◌then◌else◌}
use respir_mesh.Looper.{TaskLooper}

-- The classes that derive from RemChannel.
pub data ChannelKind : Type 0 where
  x86_client x86_server esp_client esp_server : ChannelKind

-- A channel object. `has_listener` and `has_receiver` say whether `conn_listener` and `on_recv_cb`
-- have been set; `shut` whether its socket has been shut down. `id` is `chip_id` of an
-- X86LinuxClientChannel and `channel_id` of an EspAsyncClient.
pub record Channel : Type 0 where
  pub kind : ChannelKind
  pub connected_to_root : Bool
  pub is_client : Bool
  pub is_server : Bool
  pub is_connected : Bool
  pub has_listener : Bool
  pub has_receiver : Bool
  pub shut : Bool
  pub id : ℕ

pub record Node : Type 0 where
  -- how often the clock has been read, and the sockets called
  pub reads : ℕ
  pub calls : ℕ
  -- the channel objects by pointer, those of `X86LinuxClientChannel::managed_to_send`, and the
  -- first pointer that no object has
  pub objects : ℕ → Channel
  pub managed_to_send : ℕ → Bool
  pub fresh : ℕ
  -- the static counters `ch_id_common` of the two X86_64 channel classes
  pub client_ids : ℕ
  pub server_ids : ℕ
  -- `EspAsyncClient::channel_global_id`
  pub esp_ids : ℕ
  -- `RemOrchestrator::channels`
  pub channels : List ℕ
  -- what has been handed to the transports so far, oldest first: the channel and the bytes
  pub sent : List (ℕ × List ℕ)
  -- `RemRouter::pb_buffer` and `RemRouter::mesh_topo_looper`
  pub router_buffer : List ℕ
  pub mesh_topo_looper : TaskLooper
  -- the text in `RemLogger::log_buffer`, and `RemLogger::pb_buffer`
  pub log_buffer : List ℕ
  pub log_packet : List ℕ

-- A write to the object, or to the member, at a pointer.
abbrev pub update {ℓ} : {A : Type ℓ} → (ℕ → A) → ℕ → A → ℕ → A
update f p v q = if p == q then v else f q
