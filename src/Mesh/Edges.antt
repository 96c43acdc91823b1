-- ===== src/Mesh/Edges.antt =====
-- What travels in a network of nodes, and what the server hears.
use respir_mesh.Wire.Header.{header_size}
use respir_mesh.Mesh.Logging.{logger-Hands, IsLog}
use respir_mesh.Mesh.Truth.{outside-All, inside-All, Holds, Uplink, IsTrueTo, IsTrue, Agrees}
use respir_mesh.Wire.Assembly.{packet_of, length-packet_of}
use respir_mesh.X86.Client.{Received, receive_step, receive_buffer_size}
use respir_mesh.Logger.{log_packet_size}
use respir_mesh.Node.State.{Node}
use respir_mesh.Mesh.Network.{Net, Later, Reachable, Step, World, after, inside, outside}
use respir_mesh.Mesh.Answers.{
  receive_step-room, rootward-Gives, update-Hands, report-Gives, receive_step-ran, edge_from,
  report_of,
}
use respir_mesh.Mesh.Hands.{Gives-Hands, Hands, Upward}
use respir_mesh.Router.Report.{topo_body}
use respir_mesh.Router.Topo.{internal_buffer_size, topo_of_self}
use respir_mesh.Wire.Forwarding
use respir_mesh.Wire.Protobuf
use respir_mesh.Base.{
  ◌<◌, ◌+◌, All, All-both, All-taken, [], ◌≤◌, take, ◌==◌, drop-append, ap, ℕ, ◌≡◌, refl, ◌∙◌, List,
  ◌++◌, Option, some, arith, inl, inr, Bool-cases, length, drop,
}

module _ (world : World) (start : ℕ → Node) (agrees : Agrees world) where
  -- A node that hands on only what is true keeps the network right.
  after-Holds :
      (P : List ℕ → Type 0) (i : ℕ) (v : Node) (n : Net)
      → Hands P (n.nodes i) v
      → ((t : ℕ) (b : List ℕ) → Uplink world start i t → P b → IsTrueTo world start t b)
      → ((b : List ℕ) → P b → IsTrue world start b)
      → Holds world start n
      → Holds world start (after world i v n)
  unfolding after
  after-Holds P i v n hands good news h =
      let handed : drop (length (n.nodes i).sent) v.sent ≡ hands.handed =
        ap (drop (length (n.nodes i).sent)) hands.sent
        ∙ drop-append (n.nodes i).sent hands.handed (length (n.nodes i).sent) refl in
      let upward : (p t : ℕ) (b : List ℕ)
          → Upward P (n.nodes i) (p, b)
          → world.wire i p ≡ some t
          → IsTrueTo world start t b =
        λ p t b up there.
          good t b (p, rw (h.channels i) at up.0, rw (h.objects i) at up.1, there) up.2 in
      record {
        objects = λ j. elim (Bool-cases (i == j)) [
          | inl same ↦
              let at_j : i ≡ j = grind (arith, same) in
              rw same (hands.objects ∙ h.objects i ∙ ap (λ k. (start k).objects) at_j)
          | inr other ↦ rw other (h.objects j)
        ];
        channels = λ j. elim (Bool-cases (i == j)) [
          | inl same ↦
              let at_j : i ≡ j = grind (arith, same) in
              rw same (hands.channels ∙ h.channels i ∙ ap (λ k. (start k).channels) at_j)
          | inr other ↦ rw other (h.channels j)
        ];
        sized = λ j. elim (Bool-cases (i == j)) [
          | inl same ↦ rw same (hands.size ∙ h.sized i)
          | inr other ↦ rw other (h.sized j)
        ];
        logs = λ j. elim (Bool-cases (i == j)) [
          | inl same ↦ rw same (hands.log_size ∙ h.logs i)
          | inr other ↦ rw other (h.logs j)
        ];
        flying = rw handed (
            All-both _ n.flying (inside (world.wire i) hands.handed) h.flying
              (inside-All P (n.nodes i) (world.wire i) _ upward hands.handed hands.each));
        out = rw handed (
            All-both _ n.out (outside (world.wire i) hands.handed) h.out
              (outside-All P (n.nodes i) (world.wire i) _ news hands.handed hands.each));
      }

  -- What a node does with an arriving packet.
  arrives-Holds :
      (i p : ℕ) (buffer packet : List ℕ) (left : Option (List ℕ)) (v : Node) (n : Net)
      → length buffer ≡ receive_buffer_size
      → receive_step
          (world.env i)
          p
          (Received.chunk (take receive_buffer_size packet))
          buffer
          (n.nodes i)
        ≡ some (left, v)
      → IsTrueTo world start i packet
      → Holds world start n
      → Holds world start (after world i v n)
  arrives-Holds i p buffer packet left v n sized ran (IsTrueTo.report s link is) h =
      let child = world.env s in
      let body = topo_body child (topo_of_self child) in
      let answer = edge_from (world.env i) child.device_id in
      let short : length body ≤ 14 = (agrees.encodes s).info_size (topo_of_self child) 59 in
      let hands : Hands (λ b. b ≡ answer) (n.nodes i) v =
        receive_step-ran (Hands (λ b. b ≡ answer) (n.nodes i)) (world.env i) p (report_of child)
          buffer (n.nodes i) sized
          (omega (arith, length-packet_of Forwarding.to_parent_to_root Protobuf.mesh_topology body))
          (omega (
            arith,
            short,
            length-packet_of Forwarding.to_parent_to_root Protobuf.mesh_topology body,
          ))
          (λ rest. Gives-Hands (
            report-Gives (world.env i) (agrees.encodes i) (n.nodes i) (h.sized i) child rest
              (agrees.encodes s) (agrees.decodes s i rest)))
          left v (rw is at ran) in
      after-Holds (λ b. b ≡ answer) i v n hands (λ t b up eq. IsTrueTo.edge s i link eq)
        (λ b eq. IsTrue.edge s i link eq) h
  arrives-Holds i p buffer packet left v n sized ran (IsTrueTo.edge s u link is) h =
      let parent = world.env u in
      let body = topo_body parent (record {
        target_id = parent.device_id;
        source_id = (world.env s).device_id;
        kind = Protobuf.mesh_topology;
      }) in
      let edge = edge_from parent (world.env s).device_id in
      let short : length body ≤ 14 = (agrees.encodes u).info_size _ 59 in
      let hands : Hands (λ b. b ≡ edge) (n.nodes i) v =
        receive_step-ran (Hands (λ b. b ≡ edge) (n.nodes i)) (world.env i) p edge buffer (n.nodes i)
          sized (omega (arith, length-packet_of Forwarding.to_root Protobuf.mesh_topology body))
          (omega (arith, short, length-packet_of Forwarding.to_root Protobuf.mesh_topology body))
          (λ rest. Gives-Hands (
            rootward-Gives (world.env i) Protobuf.mesh_topology body rest (n.nodes i)
              (omega (arith, short))))
          left v (rw is at ran) in
      after-Holds (λ b. b ≡ edge) i v n hands (λ t b up eq. IsTrueTo.edge s u link eq)
        (λ b eq. IsTrue.edge s u link eq) h
  arrives-Holds i p buffer packet left v n sized ran (IsTrueTo.log (body, is)) h =
      let line = packet_of Forwarding.to_root Protobuf.log body in
      let here = rw is at ran in
      let room = receive_step-room (world.env i) p line buffer left (n.nodes i) v here in
      let small : length body + header_size < receive_buffer_size =
        omega (arith, room, length-packet_of Forwarding.to_root Protobuf.log body) in
      let hands : Hands (λ b. b ≡ line) (n.nodes i) v =
        receive_step-ran (Hands (λ b. b ≡ line) (n.nodes i)) (world.env i) p line buffer (n.nodes i)
          sized (omega (arith, length-packet_of Forwarding.to_root Protobuf.log body)) room
          (λ rest.
            Gives-Hands (rootward-Gives (world.env i) Protobuf.log body rest (n.nodes i) small))
          left v here in
      after-Holds (λ b. b ≡ line) i v n hands (λ t b up eq. IsTrueTo.log (body, eq))
        (λ b eq. IsTrue.log (body, eq)) h

  pub step-Holds : {n m : Net} → Step world n m → Holds world start n → Holds world start m
  step-Holds (Step.updates i n) h =
      let report = report_of (world.env i) in
      after-Holds (λ b. b ≡ report) i _ n
        (update-Hands (world.env i) (agrees.encodes i) (n.nodes i) (h.sized i))
        (λ t b up eq. IsTrueTo.report i up eq) (λ b eq. IsTrue.report i eq) h
  step-Holds (Step.arrives i p buffer packet before behind {left} {v} n taken sized ran) h =
      let (first, others) =
        All-taken (λ d. IsTrueTo world start d.0 d.1) before behind (i, packet)
          (rw taken at h.flying) in
      arrives-Holds i p buffer packet left v (record n { flying = before ++ behind }) sized ran
        first
        (record {
          objects = h.objects;
          channels = h.channels;
          sized = h.sized;
          logs = h.logs;
          flying = others;
          out = h.out;
        })
  step-Holds (Step.logs i severity tags format args {result} {v} n ran) h =
      after-Holds IsLog i v n
        (logger-Hands (world.env i) severity tags format args result (n.nodes i) v
          (agrees.encodes i) (h.logs i) ran)
        (λ t b up is. IsTrueTo.log is) (λ b is. IsTrue.log is) h
  step-Holds (Step.loses lost before behind n taken) h = record {
    objects = h.objects;
    channels = h.channels;
    sized = h.sized;
    logs = h.logs;
    flying =
        (All-taken (λ d. IsTrueTo world start d.0 d.1) before behind lost (rw taken at h.flying)).1;
    out = h.out;
  }

  pub Later-Holds : {n m : Net} → Later world n m → Holds world start n → Holds world start m
  Later-Holds Later.stays h = h
  Later-Holds (Later.goes before step) h = step-Holds step (Later-Holds before h)

  pub begun-Holds :
      ((i : ℕ) → length (start i).router_buffer ≡ internal_buffer_size)
      → ((i : ℕ) → length (start i).log_packet ≡ log_packet_size)
      → Holds world start (record { nodes = start; flying = []; out = [] })
  begun-Holds sized logs = record {
    objects = λ i. refl;
    channels = λ i. refl;
    sized = sized;
    logs = logs;
    flying = tt;
    out = tt;
  }

  -- The server hears of true edges only. In a network of any number of nodes, wired in any way, cycles
  -- included, in which nanopb keeps its promises, each node decodes what another encodes, the buffers of
  -- the routers and loggers have their sizes and each packet that arrives does so whole and alone in one
  -- read, and whatever the order in which timers fall due, lines are logged and packets arrive or are
  -- lost: what has left for the server is a log line, the report of a node with its own id, or an edge
  -- whose source and target are the ids of two nodes of which the first has listed a channel towards the
  -- root that leads to the second; and what is on its way to a node is a log line, such an edge, or the
  -- report of a node that has a channel to it.
  pub Reachable-IsTrue :
      (n : Net)
      → ((i : ℕ) → length (start i).router_buffer ≡ internal_buffer_size)
      → ((i : ℕ) → length (start i).log_packet ≡ log_packet_size)
      → Reachable world start n
      → All (IsTrue world start) n.out × All (λ d. IsTrueTo world start d.0 d.1) n.flying
  Reachable-IsTrue n sized logs reached =
      let h = Later-Holds reached (begun-Holds sized logs) in (h.out, h.flying)
