-- ===== src/X86/Serving.antt =====
-- A round of `start_servers` over the listed hosts, and a round of the whole controller.
use mathlib.Core.Path.{subst}
use respir_mesh.X86.Connecting.{set_object-SameKinds, Kept, Quiet-info, on_conn_start-Quiet}
use respir_mesh.X86.Opening.{
  All_opened, Kinds-from, Kinds, Opens, flag_after, none_open, opened_from, rest_lem,
  scan_clients_lem,
}
use respir_mesh.X86.ListController.{SimpleListChnCtrl, scan_clients, start_each, start_servers}
use respir_mesh.X86.ListController
use respir_mesh.X86.Client.{set_conn_listener}
use respir_mesh.X86.Server.{init_server, new_server}
use respir_mesh.Orchestrator.{set_object}
use respir_mesh.Node.Fault.{>>-runs, >>=-runs, pure}
use respir_mesh.Logger.Lines.{Fits}
use Prim.Native.String.{String}
use respir_mesh.Node.State.{ChannelKind, Channel, Node}
use respir_mesh.Node.Env.{Arg, Encodes, Env}
use respir_mesh.Base.{
  arith, ◌==◌, All, if◌then◌else◌, ap, ◌++◌, ◌+◌, ==_refl, false, true, Bool, some, List, length,
  ◌≡◌, ℕ, refl, [], ◌∷◌, ◌∙◌, suc,
}
use respir_mesh.Logger
use respir_mesh.Logger.{log_packet_size}

module _ (env : Env) (enc : Encodes env)
    (short : (format : String) (args : List Arg) → Fits env format args)
    (listens : (n : ℕ) → env.sets_up n ≡ true) where
  init_server_lem :
      (p : ℕ) (host port : List ℕ) (w : Node)
      → length w.log_packet ≡ log_packet_size
      → (w.objects p).has_listener ≡ true
      → (v : Node) × (init_server env p host port w ≡ some (tt, v))
        × Kept w v
        × ((v.objects p).is_connected ≡ true)
  unfolding init_server
  init_server_lem p host port w sized heard =
      let args = Arg.text host ∷ Arg.text port ∷ [] in
      let u = set_object p (record (w.objects p) { connected_to_root = false }) w in
      let (a, l, ran, kept) = Quiet-info env enc short "Server TCP setup %s:%s \n" args u sized in
      let t = record l { calls = l.calls + 1 } in
      let s = set_object p (record (t.objects p) { is_connected = true }) t in
      let heard_s : (s.objects p).has_listener ≡ true =
        rw (==_refl p, kept.objects, ==_refl p, heard) refl in
      let open_s : (s.objects p).is_connected ≡ true = rw (==_refl p) refl in
      let (b, v, ran_on, kept_on) = on_conn_start-Quiet env enc short p s (kept.log_size ∙ sized) in
      (
        v,
        >>-runs (Logger.info env "Server TCP setup %s:%s \n" args) _ u ran
            ∙ rw (listens l.calls, heard_s) ran_on,
        record {
          channels = kept_on.channels ∙ kept.channels;
          fresh = kept_on.fresh ∙ kept.fresh;
          log_size = kept_on.log_size ∙ kept.log_size;
          kinds = λ q.
              ap (λ (o : ℕ → Channel). (o q).kind) kept_on.objects
              ∙ set_object-SameKinds p (record (t.objects p) { is_connected = true }) t refl q
              ∙ ap (λ (o : ℕ → Channel). (o q).kind) kept.objects
              ∙ set_object-SameKinds p (record (w.objects p) { connected_to_root = false }) w refl
                  q;
        },
        rw kept_on.objects open_s,
      )

  start_each-Opens :
      (hosts : List (List ℕ × List ℕ))
      → Opens env enc short ChannelKind.x86_server true (length hosts) (start_each env hosts)
  unfolding start_each new_server set_conn_listener
  start_each-Opens [] before w sized =
      none_open env enc short ChannelKind.x86_server true before w sized
  start_each-Opens ((host, port) ∷ hosts) before w sized =
      let args = Arg.text host ∷ Arg.text port ∷ [] in
      let format : String = "\n\n\nTrying to start server %s:%s   \n" in
      let (a, l, ran, kept) = Quiet-info env enc short format args w sized in
      let p = l.fresh in
      let t = set_conn_listener p (new_server l).1 in
      let (u, opened, kept_u, answer) =
        init_server_lem p host port t (kept.log_size ∙ sized) (rw (==_refl p) refl) in
      let (v, ran_on, more, after, sized_v, kinds) =
        rest_lem env enc short ChannelKind.x86_server true p (length hosts) (start_each env hosts)
          before u (kept_u.log_size ∙ kept.log_size ∙ sized) kept_u.fresh
          (kept_u.kinds p ∙ rw (==_refl p) refl) (start_each-Opens hosts) in
      (
        v,
        >>-runs (Logger.info env format args) _ w ran
            ∙ >>-runs (init_server env p host port) _ t opened
            ∙ rw answer ran_on,
        more ∙ rw (kept_u.channels, kept.channels, kept.fresh) refl,
        after ∙ ap (λ k. k + suc (length hosts)) kept.fresh,
        sized_v,
        Kinds-from true (suc (length hosts)) kept.fresh kinds (λ q old.
            let other : l.fresh == q ≡ false = ground (arith, kept.fresh) in
            kept_u.kinds q ∙ rw other refl ∙ ap (λ (o : ℕ → Channel). (o q).kind) kept.objects),
      )

  start_servers_lem :
      (c : SimpleListChnCtrl) (w : Node)
      → length w.log_packet ≡ log_packet_size
      → let n = length c.servers_list in
        (v : Node) × (start_servers env c w
          ≡ some (record c { is_server_started = flag_after true n c.is_server_started }, v))
        × (v.channels ≡ w.channels ++ opened_from true w.fresh n)
        × Kinds ChannelKind.x86_server w.fresh (opened_from true w.fresh n) w v
  unfolding start_servers
  start_servers_lem c w sized =
      let format : String = " SimpleListScanner::start_servers servers_list  size  %u  \n" in
      let args = Arg.num (length c.servers_list) ∷ [] in
      let (a, l, ran, kept) = Quiet-info env enc short format args w sized in
      let (v, ran_on, more, after, sized_v, kinds) =
        start_each-Opens c.servers_list c.is_server_started l (kept.log_size ∙ sized) in
      (
        v,
        >>-runs (Logger.info env format args) _ w ran
            ∙ >>=-runs (start_each env c.servers_list c.is_server_started)
                (λ started. pure (record c { is_server_started = started })) l ran_on,
        more ∙ rw (kept.channels, kept.fresh) refl,
        Kinds-from true (length c.servers_list) kept.fresh kinds
            (λ q old. ap (λ (o : ℕ → Channel). (o q).kind) kept.objects),
      )

  -- If nanopb keeps its promises, the texts fit, the network gives every `connect` the same answer,
  -- and every listening socket can be set up, the first `update` of the controller returns. Behind
  -- the old channels stand new channels: the clients of the listed hosts, if they answer, which are of
  -- the class of the X86_64 clients, and then the servers, which are of that of the X86_64 servers; each flag is set exactly if its list gave a channel.
  pub update_opens :
      (up : Bool)
      → ((n : ℕ) → env.connects n ≡ up)
      → (c : SimpleListChnCtrl) (w : Node) → length w.log_packet ≡ log_packet_size
      → c.is_client_connected ≡ false
      → c.is_server_started ≡ false
      → let clients = length c.clients_list in
        let servers = length c.servers_list in
        (v : Node) × (ListController.update env c w
          ≡ some (
            record c {
              is_client_connected = flag_after up clients false;
              is_server_started = flag_after true servers false;
            },
            v,
          ))
        × (v.channels
            ≡ w.channels
              ++ opened_from up w.fresh clients
              ++ opened_from true (w.fresh + clients) servers)
        × All (λ p. (v.objects p).kind ≡ ChannelKind.x86_client) (opened_from up w.fresh clients)
        × All
            (λ p. (v.objects p).kind ≡ ChannelKind.x86_server)
            (opened_from true (w.fresh + clients) servers)
  unfolding ListController.update
  update_opens up network c w sized unconnected unstarted =
      let n = length c.clients_list in
      let m = length c.servers_list in
      let scanned = record c { is_client_connected = flag_after up n c.is_client_connected } in
      let (u, ran, clients, fresh, sized_u, kinds_u) =
        scan_clients_lem env enc short up network c w sized in
      let (v, ran_on, servers, kinds) = start_servers_lem scanned u sized_u in
      let scans = λ (connected : Bool). (if connected then pure c else scan_clients env c) in
      let serves =
        λ (started : Bool). (if started then pure scanned else start_servers env scanned) in
      let flags = λ (connected started : Bool). (record c {
        is_client_connected = flag_after up n connected;
        is_server_started = flag_after true m started;
      }) in
      (
        v,
        >>=-runs (scans c.is_client_connected)
              (λ scanned.
                if scanned.is_server_started then pure scanned else start_servers env scanned)
              w (ap (λ connected. scans connected w) unconnected ∙ ran)
            ∙ (ap (λ started. serves started u) unstarted ∙ ran_on)
            ∙ ap (λ connected. some (flags connected c.is_server_started, v)) unconnected
            ∙ ap (λ started. some (flags false started, v)) unstarted,
        servers ∙ rw (clients, fresh) refl,
        All_opened up w.fresh n (λ q below is. kinds.older q (omega (arith, below, fresh)) ∙ is)
            kinds_u.opened,
        subst (λ f. All (λ p. (v.objects p).kind ≡ ChannelKind.x86_server) (opened_from true f m))
            fresh kinds.opened,
      )
