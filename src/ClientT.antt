-- ===== src/ClientT.antt =====
-- RemClientCPP/client_t/client_t.cpp: the channels of the second Linux client. The TCP library is a
-- parameter. A client of the server channel is made with the receiver that this channel has by then.
pub mod Main
pub mod Steps
pub mod Kept
pub mod Made
pub mod Lifetime
pub mod Hearing
pub mod Serving
mod Tests
use respir_mesh.Base.{
  ℕ, ◌+◌, Bool, true, false, List, [], ◌∷◌, ◌++◌, Option, none, some, ◌==◌, ltb, if◌then◌else◌,
  take, length,
}

-- `x86LinuxClientChannel`, with the socket of its `tcpParent`, which has none before `setup`.
pub record ClientChannel : Type 0 where
  pub socket : Option ℕ
  pub connected_to_root : Bool
  pub has_receiver : Bool

-- What the channels do to the library and to the receiver.
pub data Call : Type 0 where
  sent : ℕ → List ℕ → Call
  exited : ℕ → Call
  received : ℕ → List ℕ → Call
  listened : ℕ → Call
  detached : Call

-- The client channels by pointer, the list `channels` of the server channel and whether this channel
-- has its receiver, how often `Send` has been called, and the calls so far.
pub record ClientT : Type 0 where
  pub objects : ℕ → ClientChannel
  pub fresh : ℕ
  pub channels : List ℕ
  pub server_has_receiver : Bool
  pub sends : ℕ
  pub calls : List Call

-- The n-th `TCPClient::Send` over a socket, and the socket that `TCPClient::setup` opens to an address.
pub record TcpLibrary : Type 0 where
  pub send_ok : ℕ → Option ℕ → Bool
  pub opens : List ℕ → ℕ → Option ℕ

abbrev pub calling : Call → ClientT → ClientT
calling c t = record t { calls = t.calls ++ c ∷ [] }

abbrev pub set_object : ℕ → ClientChannel → ClientT → ClientT
set_object p c t = record t { objects = λ q. if p == q then c else t.objects q }

-- `x86LinuxClientChannel::init(int socket)`, for what `accept` has returned: nothing stands for the -1
-- of an `accept` that fails, which `TCPServer::receive` hands on unchecked.
unfoldable pub init_socket : ℕ → Option ℕ → ClientT → ClientT
init_socket p accepted t =
    set_object p (record (t.objects p) { socket = accepted; connected_to_root = false }) t

-- `x86LinuxClientChannel::stop`
abbrev pub stop_client : ℕ → ClientT → ClientT
stop_client p t = calling (Call.exited p) t

-- A round of `recvParentObj`, for what `tcpParent.receive()` has read: an empty message is passed over.
-- A call of a receiver that has not been set is undefined.
unfoldable pub recv_round : ℕ → List ℕ → ClientT → Option ClientT
recv_round p msg t =
    if ltb 0 (length msg)
    then (if (t.objects p).has_receiver then some (calling (Call.received p msg) t) else none)
    else some t

-- `x86LinuxServerChannel::init` and `stop`
abbrev pub init_server : ℕ → ClientT → ClientT
init_server port t = calling (Call.listened port) t

abbrev pub stop_server : ClientT → ClientT
stop_server t = calling Call.detached t

-- A round of `recvParent` has two parts: a new client in the list, and, once `tcpSrv.receive()` has
-- accepted a connection, its socket. The other threads run in between.
unfoldable pub push_client : ClientT → ClientT
push_client t = record t {
  objects = λ q.
      if t.fresh == q
      then record { socket = none; connected_to_root = false; has_receiver = t.server_has_receiver }
      else t.objects q;
  fresh = t.fresh + 1;
  channels = t.channels ++ t.fresh ∷ [];
}

module _ (lib : TcpLibrary) where
  -- `x86LinuxClientChannel::init(const char *address, int port)`
  unfoldable pub init_address : ℕ → List ℕ → ℕ → ClientT → ClientT
  init_address p address port t =
      set_object p
        (record (t.objects p) { socket = lib.opens address port; connected_to_root = true }) t

  -- `x86LinuxClientChannel::send`
  abbrev pub send_client : ℕ → List ℕ → ℕ → ClientT → Bool × ClientT
  send_client p bytes size t = (
    lib.send_ok t.sends (t.objects p).socket,
    record (calling (Call.sent p (take size bytes)) t) { sends = t.sends + 1 },
  )

  -- The loop of `x86LinuxServerChannel::send` from an iterator on, with what it leaves of the list.
  unfoldable pub send_each : List ℕ → ℕ → List ℕ → ClientT → List ℕ × ClientT
  send_each bytes size [] t = ([], t)
  send_each bytes size (p ∷ ps) t =
      let (ok, u) = send_client p bytes size t in
      let (left, v) = send_each bytes size ps (if ok then u else stop_client p u) in
      (if ok then p ∷ left else left, v)

  unfoldable pub send_server : List ℕ → ℕ → ClientT → Bool × ClientT
  send_server bytes size t =
      let (left, v) = send_each bytes size t.channels t in (true, record v { channels = left })
