-- ===== src/ClientT/Lifetime.antt =====
-- The whole life of RemClientCPP/client_t/client_t.cpp, whatever the network and the router do.
use respir_mesh.ClientT.Kept.{recv_round-Keeps}
use respir_mesh.ClientT.Made.{
  init_socket-Made, Increasing-append, push_client-Made, send_device-Fair, receive_by-Fair,
  client_pointer-Made, Made, Increasing, Fair,
}
use respir_mesh.ClientT.Steps.{Later, Step, Reachable, Stage}
use respir_mesh.ClientT.{ClientT, TcpLibrary, init_address, init_socket, push_client}
use respir_mesh.ClientT.Main.{
  ip, new_channels, send_device, Program, Sending, main_round, set_up, send_sendings, Mesh, Device,
}
use respir_mesh.Base.{
  All, All-append, All-map, none, [], ◌≡◌, ◌∷◌, List, ℕ, Option, refl, arith, ==_refl,
}

step-Fair :
    {lib : TcpLibrary} {s s' : Stage} {w w' : Option ℕ} {t t' : ClientT}
    → Step lib s w t s' w' t'
    → Fair w t
    → Fair w' t'
unfolding init_address init_socket push_client
step-Fair (Step.connects address port t) h = record {
  started = h.started;
  waiting = h.waiting;
  made = All-map t.channels (client_pointer-Made _ t) h.made;
  increasing = h.increasing;
}
step-Fair (Step.serves port t) h = record {
  started = h.started;
  waiting = h.waiting;
  made = h.made;
  increasing = h.increasing;
}
step-Fair (Step.adds_client calls_back t) h = receive_by-Fair calls_back Device.client_tcp t h
step-Fair (Step.adds_server calls_back t) h = receive_by-Fair calls_back Device.server_tcp t h
step-Fair {lib} (Step.sends device bytes size t) h = send_device-Fair lib device bytes size t h
step-Fair (Step.pushes t started) h =
    let new : Made (push_client t).fresh (push_client t).objects t.fresh = record {
      behind = h.started;
      below = omega arith;
      leaf = rw (==_refl t.fresh) refl;
    } in
    record {
      started = omega arith;
      waiting = (h.started, omega arith);
      made = All-append _ t.channels t.fresh (All-map t.channels (push_client-Made t) h.made) new;
      increasing =
          Increasing-append t.channels t.fresh h.increasing
            (All-map t.channels (λ q m. m.below) h.made);
    }
step-Fair (Step.accepts p accepted t) h = record {
  started = h.started;
  waiting = tt;
  made = All-map t.channels (init_socket-Made p accepted t) h.made;
  increasing = h.increasing;
}
step-Fair (Step.reads p msg {t = t} {u = u} e) h =
    let (objects, fresh, channels, receiver) = rw e at (recv_round-Keeps p msg t) in
    record {
      started = rw fresh h.started;
      waiting = rw fresh h.waiting;
      made = rw (objects, fresh, channels) h.made;
      increasing = rw channels h.increasing;
    }

pub Reachable-Fair :
    {lib : TcpLibrary} {s : Stage} {w : Option ℕ} {t : ClientT} → Reachable lib s w t → Fair w t
Reachable-Fair Later.stays = record {
  started = omega arith;
  waiting = tt;
  made = tt;
  increasing = tt;
}
Reachable-Fair (Later.goes before step) = step-Fair step (Reachable-Fair before)

-- `main` from the start of the program, and rounds of its loop, with no other thread in between.
module _ {M : Type 0} (lib : TcpLibrary) (router : Mesh M) (atoi : List ℕ → ℕ) where
  send_sendings-Reachable :
      (ss : List Sending) {s : Stage} {w : Option ℕ} (t : ClientT)
      → Reachable lib s w t
      → Reachable lib s w (send_sendings lib ss t)
  unfolding send_sendings
  send_sendings-Reachable [] t reached = reached
  send_sendings-Reachable (x ∷ xs) t reached =
      send_sendings-Reachable xs (send_device lib x.device x.bytes x.size t).1
        (Later.goes reached (Step.sends x.device x.bytes x.size t))

  pub set_up-Reachable :
      (to from : List ℕ) (more : List (List ℕ)) (random : ℕ) (start : Program M)
      → start.t ≡ new_channels
      → Reachable lib Stage.running none (set_up lib router atoi to from more random start).t
  unfolding set_up
  set_up-Reachable to from more random start fresh =
      let reached : Reachable lib Stage.begun none start.t = rw fresh Later.stays in
      Later.goes
        (Later.goes
          (Later.goes (Later.goes reached (Step.connects ip (atoi to) start.t))
            (Step.serves (atoi from) _))
          (Step.adds_client (router.sets_receiver Device.client_tcp) _))
        (Step.adds_server (router.sets_receiver Device.server_tcp) _)

  pub main_round-Reachable :
      (s : Program M) {w : Option ℕ}
      → Reachable lib Stage.running w s.t
      → Reachable lib Stage.running w (main_round lib router atoi s).t
  unfolding main_round
  main_round-Reachable s reached =
      send_sendings-Reachable (router.update s.chip_id s.mesh).0 s.t reached

-- At any time, however the threads have taken turns and whatever the network and the router do: the
-- server channel lists its clients in the order in which it has made them, none of them twice; each
-- of them is an object that has been made, not the client channel of `main`, and none of them is
-- connected to the root.
pub Reachable-Made :
    (lib : TcpLibrary) {s : Stage} {w : Option ℕ} (t : ClientT)
    → Reachable lib s w t
    → Increasing t.channels × All (Made t.fresh t.objects) t.channels
Reachable-Made lib t reached = let h = Reachable-Fair reached in (h.increasing, h.made)
