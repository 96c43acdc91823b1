-- ===== src/ClientT/Main.antt =====
-- `main` of RemClientCPP/client_t/client_t.cpp, without what it prints. The router `mesh` of that time is
-- not in the repository and is a parameter, as are the library's `atoi` and the random numbers.
use respir_mesh.ClientT.{
  ClientT, TcpLibrary, init_address, init_server, send_client, send_server, set_object, stop_client,
}
use respir_mesh.Base.{
  ◌-◌, ◌^◌, ℕ, ◌+◌, ◌%◌, Bool, true, false, List, [], ◌∷◌, Option, none, some, u32,
}

-- `x86LinuxHardware::time_milis`, over the milliseconds since the epoch: a difference in the 64 bits of
-- an `unsigned long`, cut to 32.
abbrev pub time_milis : ℕ → ℕ
time_milis since_epoch = u32 (since_epoch + 2 ^ 64 - 900000000)

-- The two channels of the program.
pub data Device : Type 0 where
  client_tcp : Device
  server_tcp : Device

-- The object `clientTcp`; the clients of the server channel come behind it.
abbrev pub client_pointer : ℕ
client_pointer = 0

-- What the router makes a channel send.
pub record Sending : Type 0 where
  pub device : Device
  pub bytes : List ℕ
  pub size : ℕ

-- The router, with a state of its own: what `add_channel` and `update` do to it, whether `add_channel`
-- gives the channel its receiver, and what `update` sends, which may hang on the id of the chip.
pub record Mesh (M : Type 0) : Type 0 where
  pub add_channel : Device → M → M
  pub sets_receiver : Device → Bool
  pub update : ℕ → M → List Sending × M

-- The globals.
pub record Program (M : Type 0) : Type 0 where
  pub chip_id : ℕ
  pub action_counter : ℕ
  pub mesh : M
  pub t : ClientT

abbrev pub new_channels : ClientT
new_channels = record {
  objects = λ p. record { socket = none; connected_to_root = false; has_receiver = false };
  fresh = 1;
  channels = [];
  server_has_receiver = false;
  sends = 0;
  calls = [];
}

-- 127.0.0.1
abbrev pub ip : List ℕ
ip = 49 ∷ 50 ∷ 55 ∷ 46 ∷ 48 ∷ 46 ∷ 48 ∷ 46 ∷ 49 ∷ []

-- `set_receiver` of the channel, if the router calls it.
unfoldable pub receive_by : Bool → Device → ClientT → ClientT
receive_by false device t = t
receive_by true Device.client_tcp t =
    set_object client_pointer (record (t.objects client_pointer) { has_receiver = true }) t
receive_by true Device.server_tcp t = record t { server_has_receiver = true }

-- `send` of a channel.
unfoldable pub send_device : TcpLibrary → Device → List ℕ → ℕ → ClientT → Bool × ClientT
send_device lib Device.client_tcp bytes size t = send_client lib client_pointer bytes size t
send_device lib Device.server_tcp bytes size t = send_server lib bytes size t

unfoldable pub send_sendings : TcpLibrary → List Sending → ClientT → ClientT
send_sendings lib [] t = t
send_sendings lib (s ∷ ss) t = send_sendings lib ss (send_device lib s.device s.bytes s.size t).1

module _ {M : Type 0} (lib : TcpLibrary) (router : Mesh M) (atoi : List ℕ → ℕ) where
  abbrev pub add : Device → Program M → Program M
  add device s = record s {
    mesh = router.add_channel device s.mesh;
    t = receive_by (router.sets_receiver device) device s.t;
  }

  -- The third argument, or a random number.
  unfoldable pub chip : ℕ → List (List ℕ) → ℕ
  chip random [] = random % 640000
  chip random (id ∷ more) = u32 (atoi id)

  -- `main` from the choice of an id on, up to its loop, for the arguments behind the name of the program
  -- and for what `rand` gives.
  unfoldable pub set_up : List ℕ → List ℕ → List (List ℕ) → ℕ → Program M → Program M
  set_up to from more random s =
      let t = init_server (atoi from) (init_address lib client_pointer ip (atoi to) s.t) in
      add Device.server_tcp (add Device.client_tcp (record s { chip_id = chip random more; t = t }))

  -- With less than two arguments `main` leaves the process.
  unfoldable pub main : List (List ℕ) → ℕ → Program M → Option (Program M)
  main (to ∷ from ∷ more) random s = some (set_up to from more random s)
  main _ random s = none

  -- A round of the loop of `main`.
  unfoldable pub main_round : Program M → Program M
  main_round s =
      let (sendings, mesh) = router.update s.chip_id s.mesh in
      record s {
        action_counter = s.action_counter + 1;
        mesh = mesh;
        t = send_sendings lib sendings s.t;
      }

-- `sig_exit`, which then leaves the process.
abbrev pub sig_exit : ClientT → ClientT
sig_exit t = stop_client client_pointer t
