-- ===== src/X86/Client.antt =====
-- RemCppCommon/X86_64/X86LinuxClientChannel.hpp and X86LinuxClientChannel.cpp: life of the channel.
-- Its `send`, `is_ok` and `stop` stand with those of the other classes.
use respir_mesh.Base.{
  ℕ, ◌+◌, Bool, true, false, List, [], ◌∷◌, Option, none, some, length, set, overlay, ltb, u16, u32,
  if◌then◌else◌,
}
use respir_mesh.Node.Env.{Env, Arg}
use respir_mesh.Node.State.{Node, ChannelKind, update}
use respir_mesh.Node.Fault.{M, pure, fault, ◌>>=◌, ◌>>◌, modify}
use respir_mesh.Logger
use respir_mesh.Orchestrator.{set_object, stop_channel, receive_fn}
use respir_mesh.X86.Listener.{on_conn_start, on_conn_lost, through_listener}

-- A fresh object and the counter of its class; the members that no constructor sets are 0 or false.
unfoldable pub new_client : Node → ℕ × Node
new_client w = (
  w.fresh,
  record w {
    fresh = w.fresh + 1;
    client_ids = u16 (w.client_ids + 1);
    objects = update w.objects w.fresh (record {
      kind = ChannelKind.x86_client;
      connected_to_root = false;
      is_client = false;
      is_server = false;
      is_connected = false;
      has_listener = false;
      has_receiver = false;
      shut = false;
      id = 0;
    });
  },
)

unfoldable pub set_conn_listener : ℕ → Node → Node
set_conn_listener p w = set_object p (record (w.objects p) { has_listener = true }) w

abbrev pub set_managed : ℕ → Bool → Node → Node
set_managed p b w = record w { managed_to_send = update w.managed_to_send p b }

-- The size of `buf` in `receive_loop`.
abbrev pub receive_buffer_size : ℕ
receive_buffer_size = 64

-- What `cli_sock->rcv` does: it returns 0, some bytes (as many as fit the buffer at most) or a
-- negative count, or it throws.
pub data Received : Type 0 where
  closed nothing failed : Received
  chunk : List ℕ → Received

module _ (env : Env) where
  -- After `connect` has returned.
  abbrev pub connected : ℕ → Node → Node
  connected p w =
      let ids = u16 (w.client_ids + 1) in
      let c = record (w.objects p) { id = u32 (ids + env.device_id); is_connected = true } in
      set_object p c (record w { client_ids = ids })

  -- `init(host, port, remOrch)`
  unfoldable pub init_host : ℕ → List ℕ → List ℕ → M (Unit {0})
  init_host p host port = do
    modify (set_managed p true)
    modify (λ w. set_object p (record (w.objects p) { connected_to_root = true }) w)
    Logger.info env "Local TCP started %s:%s \n" (Arg.text host ∷ Arg.text port ∷ [])
    opened ← (λ w. some (env.connects w.calls, record w { calls = w.calls + 1 }))
    if opened
        then (do modify (connected p); through_listener p (on_conn_start env p))
        else modify (set_managed p false)

  -- The members that `init(sock, remOrch)` sets for a client that a server has accepted.
  abbrev pub accepted : ℕ → Node → Node
  accepted p w =
      let c = record (w.objects p) {
        id = u32 (w.client_ids + env.device_id);
        connected_to_root = false;
        is_connected = true;
      } in
      set_object p c (record w { client_ids = u16 (w.client_ids + 1) })

  unfoldable pub init_accepted : ℕ → M (Unit {0})
  init_accepted p = do
    modify (set_managed p true)
    modify (accepted p)
    through_listener p (on_conn_start env p)

  -- `this->received`: a call through `on_recv_cb`, which is set when the orchestrator takes the
  -- channel into its list.
  abbrev pub received : ℕ → List ℕ → ℕ → M (List ℕ)
  received p buffer size w =
      if (w.objects p).has_receiver then receive_fn env buffer size w else none

  -- One round of `receive_loop`, which goes on with its buffer or returns. A socket_exception of `stop`
  -- is caught here. The terminating zero is
  -- written behind the received bytes: behind the buffer, if they fill it.
  unfoldable pub receive_step : ℕ → Received → List ℕ → M (Option (List ℕ))
  receive_step p Received.closed buffer = do
    modify (set_managed p false)
    Logger.error env " X86LinuxClientChannel :       void receive_loop() STOPPED the socket " []
    stopped ← stop_channel env p
    if stopped
        then (do through_listener p (on_conn_lost env p); pure none)
        else (do modify (set_managed p false); pure none)
  receive_step p Received.nothing buffer = pure (some buffer)
  receive_step p Received.failed buffer = do modify (set_managed p false); pure none
  receive_step p (Received.chunk bytes) buffer =
      if ltb (length bytes) receive_buffer_size
      then (received p (set (overlay 0 bytes buffer) (length bytes) 0) (length bytes) >>= λ left.
          pure (some left))
      else fault

  -- The loop over what arrives; it waits for more at the end of the list.
  unfoldable pub receive_loop : ℕ → List Received → List ℕ → M (Unit {0})
  receive_loop p [] buffer = pure tt
  receive_loop p (r ∷ rs) buffer = do
    next ← receive_step p r buffer
    elim next [ none ↦ pure tt | some left ↦ receive_loop p rs left ]
