-- ===== src/ClientT/Tests.antt =====
-- Three connections, one of which is broken, and a library that needs a socket.
use respir_mesh.ClientT.{
  send_each, Call, ClientT, TcpLibrary, init_socket, push_client, send_server,
}
use respir_mesh.ClientT.{init_address, init_server, recv_round}
use respir_mesh.ClientT.Main.{
  Device, Mesh, Program, chip, ip, main, main_round, new_channels, receive_by, send_device,
  send_sendings, set_up,
}
use respir_mesh.ClientT.Steps.{Later, Reachable, Stage, Step}
use respir_mesh.ClientT.Made.{Increasing, Made}
use respir_mesh.ClientT.Lifetime.{Reachable-Made, main_round-Reachable, set_up-Reachable}
use respir_mesh.ClientT.Hearing.{recv_round_as_pushed}
use respir_mesh.ClientT.Serving.{accepted_unlisted, send_server-those}
use respir_mesh.Base.{
  All, List, ◌+◌, arith, ℕ, Bool, true, false, [], ◌∷◌, Option, none, some, ◌==◌, not, ◌≡◌, ◌≢◌,
  refl,
}

-- The connection over socket 1 is broken.
abbrev answer : Option ℕ → Bool
answer none = false
answer (some socket) = not (socket == 1)

abbrev lib : TcpLibrary
lib = record { send_ok = λ n socket. answer socket; opens = λ address port. some port }

-- Client n has socket n.
abbrev three : ClientT
three = record {
  objects = λ p. record { socket = some p; connected_to_root = false; has_receiver = true };
  fresh = 3;
  channels = 0 ∷ 1 ∷ 2 ∷ [];
  server_has_receiver = true;
  sends = 0;
  calls = [];
}

send_server-those_example :
    let v = (send_server lib (7 ∷ 8 ∷ 9 ∷ []) 2 three).1 in
    (v.channels ≡ 0 ∷ 2 ∷ [])
    × (v.calls
        ≡ Call.sent 0 (7 ∷ 8 ∷ [])
          ∷ Call.sent 1 (7 ∷ 8 ∷ [])
          ∷ Call.exited 1
          ∷ Call.sent 2 (7 ∷ 8 ∷ [])
          ∷ [])
    × (v.objects ≡ three.objects)
send_server-those_example =
    send_server-those lib (λ p. not (p == 1)) (7 ∷ 8 ∷ 9 ∷ []) 2 three (λ n p. refl)

accepted_unlisted_example :
    let v = init_socket 3 (some 5) (send_server lib (7 ∷ []) 1 (push_client three)).1 in
    ((v.objects 3).socket ≡ some 5) × All (λ q. q ≢ 3) v.channels
accepted_unlisted_example = accepted_unlisted lib (7 ∷ []) 1 5 three (λ n. refl)

-- A router that gives each channel its receiver, and sends one packet on both in each round.
abbrev router : Mesh ℕ
router = record {
  add_channel = λ device n. n + 1;
  sets_receiver = λ device. true;
  update = λ chip_id n. (
    record { device = Device.client_tcp; bytes = 4 ∷ chip_id ∷ []; size = 2 }
        ∷ record { device = Device.server_tcp; bytes = 4 ∷ chip_id ∷ []; size = 2 }
        ∷ [],
    n,
  );
}

abbrev number : List ℕ → ℕ
number [] = 0
number (c ∷ cs) = c

-- The ports 71 and 72, and the id 700009, of a chip that has four bytes for it.
abbrev opened : Program ℕ
opened =
    set_up lib router number (71 ∷ []) (72 ∷ []) ((700009 ∷ []) ∷ []) 3
      (record { chip_id = 0; action_counter = 0; mesh = 0; t = new_channels })

main_needs_two :
    (main lib router number ((71 ∷ []) ∷ []) 3 opened ≡ none)
    × (opened.chip_id ≡ 700009)
    × (opened.mesh ≡ 2)
unfolding main set_up chip
main_needs_two = (refl, refl, refl)

-- A connection on socket 5, a second client that waits, and a round of `main`, which closes the
-- second one.
abbrev first_round : Program ℕ
first_round =
    main_round lib router number
      (record opened { t = push_client (init_socket 1 (some 5) (push_client opened.t)) })

first_round-Reachable : Reachable lib Stage.running (some 2) first_round.t
unfolding set_up receive_by init_address push_client init_socket
first_round-Reachable =
    main_round-Reachable lib router number
      (record opened { t = push_client (init_socket 1 (some 5) (push_client opened.t)) })
      (Later.goes
        (Later.goes
          (Later.goes
            (set_up-Reachable lib router number (71 ∷ []) (72 ∷ []) ((700009 ∷ []) ∷ []) 3
              (record { chip_id = 0; action_counter = 0; mesh = 0; t = new_channels }) refl)
            (Step.pushes opened.t refl))
          (Step.accepts 1 (some 5) (push_client opened.t)))
        (Step.pushes (init_socket 1 (some 5) (push_client opened.t)) refl))

first_round_lists : first_round.t.channels ≡ 1 ∷ []
unfolding main_round send_sendings send_device send_server send_each push_client init_socket set_up
    receive_by init_address
first_round_lists = refl

Reachable-Made_example :
    Increasing first_round.t.channels
    × All (Made first_round.t.fresh first_round.t.objects) first_round.t.channels
Reachable-Made_example = Reachable-Made lib first_round.t first_round-Reachable

-- The server channel listens, and the accepting thread is faster than `main`.
abbrev listening : ClientT
listening = init_server 72 (init_address lib 0 ip 71 new_channels)

abbrev later_on : ClientT
later_on =
    init_socket 1 (some 5) (
      receive_by true Device.server_tcp (receive_by true Device.client_tcp (push_client listening)))

recv_round_as_pushed_example : recv_round 1 (7 ∷ []) later_on ≡ none
unfolding init_address
recv_round_as_pushed_example =
    recv_round_as_pushed lib Stage.serving Stage.running none listening later_on (7 ∷ [])
      (Later.goes (Later.goes Later.stays (Step.connects ip 71 new_channels)) (Step.serves 72 _))
      (Later.goes
        (Later.goes (Later.goes Later.stays (Step.adds_client true (push_client listening)))
          (Step.adds_server true _))
        (Step.accepts 1 (some 5) _))
      (omega arith)
