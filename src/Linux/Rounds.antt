-- ===== src/Linux/Rounds.antt =====
-- The controller and the main loop of a Linux node keep the list in order.
use respir_mesh.Linux.{Program, add_clients, list_controller, read_arguments, round, start, timed}
use respir_mesh.Linux.Wired.{
  IsNew, IsSteady, IsSteady-Leads, Leads, Leads->>=, Steady, Steady-IsNew, Steady-Wired,
  Steady-trans, Wired, if-Leads,
}
use respir_mesh.Linux.Channels.{aside, init_accepted-Steady, init_host-Steady, init_server-Steady}
use respir_mesh.Linux.Listing.{add_channel-Leads, new_client-IsNew, new_server-IsNew, opening-Leads}
use respir_mesh.Linux.Logging.{info-Steady}
use respir_mesh.Linux.Steady.{update-Steady}
use respir_mesh.Logger
use respir_mesh.Looper
use respir_mesh.Looper.{TaskLooper}
use respir_mesh.Node.Env.{Arg, Env}
use respir_mesh.Node.Fault.{M, ◌>>=◌, ◌>>◌, modify, pure}
use respir_mesh.Node.State.{Node}
use respir_mesh.Orchestrator
use respir_mesh.Orchestrator.{add_channel}
use respir_mesh.Router.Topo
use respir_mesh.X86.Client.{init_accepted, init_host, new_client}
use respir_mesh.X86.Server.{Accepted, accept_step, init_server, new_server}
use respir_mesh.X86.ListController.{
  SimpleListChnCtrl, add_client_host, add_server_host, scan_clients, scan_each, start_each,
  start_servers,
}
use respir_mesh.X86.ListController
use respir_mesh.Base.{
  ℕ, List, [], ◌∷◌, Bool, true, if◌then◌else◌, refl, arith, inl, inr, Bool-cases,
}

-- Steady code, in front of code that keeps the list in order.
after_steady :
    {A B : Type 0} (m : M A) (f : A → M B)
    → IsSteady m
    → ((a : A) → Leads Wired Wired (f a))
    → Leads Wired Wired (m >>= f)
after_steady m f steady next =
    Leads->>= Wired Wired Wired m f (IsSteady-Leads Wired m (λ w v. Steady-Wired) steady) next

module _ (env : Env) where
  start_each-Leads :
      (hosts : List (List ℕ × List ℕ)) (started : Bool)
      → Leads Wired Wired (start_each env hosts started)
  unfolding start_each new_server
  start_each-Leads [] started w h = h
  start_each-Leads ((host, port) ∷ hosts) started w h =
      let args = Arg.text host ∷ Arg.text port ∷ [] in
      let rest = λ (opened : Bool). start_each env hosts (if opened then true else started) in
      after_steady (Logger.info env "\n\n\nTrying to start server %s:%s   \n" args) _
        (info-Steady env _ args)
        (λ a v g.
          opening-Leads env v.fresh (init_server env v.fresh host port) rest
            (init_server-Steady env v.fresh host port)
            (λ opened. start_each-Leads hosts (if opened then true else started)) (new_server v).1
            (new_server-IsNew env v g))
        w h

  scan_each-Leads :
      (hosts : List (List ℕ × List ℕ)) (connected : Bool)
      → Leads Wired Wired (scan_each env hosts connected)
  unfolding scan_each new_client
  scan_each-Leads [] connected w h = h
  scan_each-Leads ((host, port) ∷ hosts) connected w h =
      let args = Arg.text host ∷ Arg.text port ∷ [] in
      let rest = λ (opened : Bool). scan_each env hosts (if opened then true else connected) in
      after_steady (Logger.info env "\n\n\nTrying to connect to  %s:%s   \n" args) _
        (info-Steady env _ args)
        (λ a v g.
          opening-Leads env v.fresh (init_host env v.fresh host port) rest
            (init_host-Steady env v.fresh host port)
            (λ opened. scan_each-Leads hosts (if opened then true else connected)) (new_client v).1
            (new_client-IsNew env v g))
        w h

  start_servers-Leads : (c : SimpleListChnCtrl) → Leads Wired Wired (start_servers env c)
  unfolding start_servers
  start_servers-Leads c = after_steady _ _ (info-Steady env _ _) (λ a.
      Leads->>= Wired Wired Wired (start_each env c.servers_list c.is_server_started)
        (λ started. pure (record c { is_server_started = started }))
        (start_each-Leads c.servers_list c.is_server_started) (λ started w h. h))

  scan_clients-Leads : (c : SimpleListChnCtrl) → Leads Wired Wired (scan_clients env c)
  unfolding scan_clients
  scan_clients-Leads c = after_steady _ _ (info-Steady env _ _) (λ a.
      Leads->>= Wired Wired Wired (scan_each env c.clients_list c.is_client_connected)
        (λ connected. pure (record c { is_client_connected = connected }))
        (scan_each-Leads c.clients_list c.is_client_connected) (λ connected w h. h))

  controller-Leads : (c : SimpleListChnCtrl) → Leads Wired Wired (ListController.update env c)
  unfolding ListController.update
  controller-Leads c =
      Leads->>= Wired Wired Wired (if c.is_client_connected then pure c else scan_clients env c)
        (λ scanned. if scanned.is_server_started then pure scanned else start_servers env scanned)
        (if-Leads Wired Wired c.is_client_connected (pure c) (scan_clients env c) (λ w h. h)
          (scan_clients-Leads c))
        (λ scanned.
          if-Leads Wired Wired scanned.is_server_started (pure scanned) (start_servers env scanned)
            (λ w h. h) (start_servers-Leads scanned))

  update_all-Leads :
      (c : SimpleListChnCtrl)
      → Leads Wired Wired (Orchestrator.update_all env (list_controller env) c)
  unfolding Orchestrator.update_all
  update_all-Leads c =
      Leads->>= Wired Wired Wired (ListController.update env c)
        (λ updated. modify (Topo.update env) >> pure updated) (controller-Leads c)
        (λ updated w h. Steady-Wired (update-Steady env w) h)

  pub round-Leads : (program : Program) → Leads Wired Wired (round env program)
  unfolding round
  round-Leads program w h =
      let (due, looper, reads) = Looper.check env.clock program.update_looper w.reads in
      let v = record w { reads = reads } in
      let checked : Wired v = Steady-Wired (aside w v (omega arith) refl refl refl refl) h in
      elim (Bool-cases due) [
        | inl now ↦ rw now (
            Leads->>= Wired Wired Wired
              (Orchestrator.update_all env (list_controller env) program.parent_scanner)
              (λ scanner.
                pure (record program { update_looper = looper; parent_scanner = scanner }))
              (update_all-Leads program.parent_scanner) (λ scanner w h. h) v checked)
        | inr later ↦ rw later checked
      ]

  pub accept_step-Leads : (a : Accepted) → Leads Wired Wired (accept_step env a)
  unfolding accept_step new_client
  accept_step-Leads Accepted.failed w h = h
  accept_step-Leads Accepted.client w h =
      let p = w.fresh in
      Leads->>= (IsNew p) (IsNew p) Wired (init_accepted env p)
        (λ a. add_channel env p >> pure true)
        (IsSteady-Leads (IsNew p) (init_accepted env p) (λ w v. Steady-IsNew p)
          (init_accepted-Steady env p))
        (λ a.
          Leads->>= (IsNew p) Wired Wired (add_channel env p) (λ b. pure true)
            (add_channel-Leads env p) (λ b w h. h))
        (new_client w).1 (new_client-IsNew env w h)

  add_clients-Leads :
      (arguments : List (List ℕ)) (c : SimpleListChnCtrl)
      → Leads Wired Wired (add_clients env arguments c)
  unfolding add_clients add_client_host
  add_clients-Leads [] c w h = h
  add_clients-Leads (host ∷ []) c w h = tt
  add_clients-Leads (host ∷ port ∷ rest) c w h =
      Leads->>= Wired Wired Wired (add_client_host env host port c) (add_clients env rest)
        (after_steady _ _ (info-Steady env _ (Arg.text host ∷ Arg.text port ∷ [])) (λ a w h. h))
        (λ added. add_clients-Leads rest added) w h

  read_arguments-Leads :
      (arguments : List (List ℕ)) (c : SimpleListChnCtrl)
      → Leads Wired Wired (read_arguments env arguments c)
  unfolding add_server_host
  read_arguments-Leads [] c w h = tt
  read_arguments-Leads (_ ∷ []) c w h = tt
  read_arguments-Leads (_ ∷ _ ∷ []) c w h = tt
  read_arguments-Leads (_ ∷ _ ∷ _ ∷ []) c w h = tt
  read_arguments-Leads (_ ∷ _ ∷ _ ∷ _ ∷ []) c w h = tt
  read_arguments-Leads (host ∷ port ∷ id ∷ client ∷ client_port ∷ rest) c w h =
      add_clients-Leads (client ∷ client_port ∷ rest) _ w h

  timed-Steady :
      (f : TaskLooper → ℕ → TaskLooper × ℕ) (program : Program) → IsSteady (timed f program)
  timed-Steady f program u w s =
      let reads = (f program.update_looper w.reads).1 in
      Steady-trans s (aside w (record w { reads = reads }) (omega arith) refl refl refl refl)

  begin-Steady : (w : Node) → Steady w (Topo.begin env w)
  unfolding Topo.begin
  begin-Steady w = aside w (Topo.begin env w) (omega arith) refl refl refl refl

  begin-Leads :
      (c : SimpleListChnCtrl) → Leads Wired Wired (Orchestrator.begin env (list_controller env) c)
  unfolding Orchestrator.begin
  begin-Leads c w h = Steady-Wired (begin-Steady w) h

  pub start-Leads :
      (arguments : List (List ℕ)) (program : Program)
      → Leads Wired Wired (start env arguments program)
  unfolding start
  start-Leads arguments program =
      after_steady (timed (Looper.begin env.clock) program) _
        (timed-Steady (Looper.begin env.clock) program)
        (λ begun.
          after_steady (timed (Looper.set_interval env.clock 1000) begun) _
            (timed-Steady (Looper.set_interval env.clock 1000) begun)
            (λ paced.
              after_steady (Logger.info env "_ STARTING !!!!!!!!!!!!!!!!!!!!! _" []) _
                (info-Steady env _ [])
                (λ a.
                  Leads->>= Wired Wired Wired (read_arguments env arguments paced.parent_scanner) _
                    (read_arguments-Leads arguments paced.parent_scanner)
                    (λ scanner.
                      Leads->>= Wired Wired Wired
                        (Orchestrator.begin env (list_controller env) scanner)
                        (λ begun. pure (record paced { parent_scanner = begun }))
                        (begin-Leads scanner) (λ scanner w h. h)))))
