-- ===== src/Mesh/Journey.antt =====
-- A topology report on its way to the root.
use respir_mesh.Router.Send.{send_connected}
use mathlib.Core.Option
use respir_mesh.Channel.{transmits}
use respir_mesh.Mesh.{
  Received, report_journey, receive_step, Hop, after_read, departed, pass, travel,
}
use respir_mesh.Node.Env.{Encodes}
use respir_mesh.Node.State.{Channel, Node}
use respir_mesh.Router.Relay.{route_packet-to_root}
use respir_mesh.Router.Report.{topo_body, send_mesh_topo-Sends, route_packet-Sends}
use respir_mesh.Router.Selection.{deliveries, sent-send_connected}
use respir_mesh.Router.Topo.{route_packet, send_mesh_topo, topo_of_child, topo_of_self}
use respir_mesh.Wire.Assembly.{length-packet_of, packet_of, read-packet_of, set_size-packet_of}
use respir_mesh.Wire.Forwarding
use respir_mesh.Wire.Header.{header_size, set_size}
use respir_mesh.Wire.Protobuf
use respir_mesh.X86.Client.{Received, receive_step, receive_buffer_size}
use respir_mesh.X86.Receive.{receive_step-route_packet, filled_starts}
use respir_mesh.Base.{
  All, take-all, ◌+◌, ℕ, ◌≤◌, ◌<◌, ◌≡◌, refl, ◌∙◌, ap, true, List, [], ◌∷◌, ◌++◌, some, ◌&&◌,
  ==_refl, if◌then◌else◌, drop-append, length, arith, inl, inr, Bool-cases, set, overlay,
  take-append,
}

-- The channels of a list that carry packets towards the root.
abbrev pub uplinks : (ℕ → Channel) → List ℕ → List ℕ
uplinks objects [] = []
uplinks objects (p ∷ ps) =
    if (objects p).connected_to_root && transmits (objects p).kind
    then p ∷ uplinks objects ps
    else uplinks objects ps

-- A node of a row: its buffers have their sizes, its incoming channel has been listed, and it has one
-- channel towards the root.
pub record IsHop (h : Hop) : Type 0 where
  pub buffer : length h.buffer ≡ receive_buffer_size
  pub router : length h.node.router_buffer ≡ 64
  pub receives : (h.node.objects h.incoming).has_receiver ≡ true
  pub one_uplink : uplinks h.node.objects h.node.channels ≡ h.uplink ∷ []

abbrev each_gets : List ℕ → List ℕ → List (ℕ × List ℕ)
each_gets packet [] = []
each_gets packet (p ∷ ps) = (p, packet) ∷ each_gets packet ps

deliveries-uplinks :
    (objects : ℕ → Channel) (packet ps : List ℕ)
    → deliveries (λ c. c.connected_to_root) objects packet ps
      ≡ each_gets packet (uplinks objects ps)
deliveries-uplinks objects packet [] = refl
deliveries-uplinks objects packet (p ∷ ps) =
    let rest = deliveries-uplinks objects packet ps in
    elim (Bool-cases (objects p).connected_to_root) [
      | inl on ↦ elim (Bool-cases (transmits (objects p).kind)) [
        | inl carries ↦ rw (on, carries) (ap (◌∷◌ (p, packet)) rest)
        | inr silent ↦ rw (on, silent) rest
      ]
      | inr off ↦ rw off rest
    ]

-- A packet for each channel towards the root is one packet on the way.
pub departed_lem :
    (h : Hop) (v : Node) (packet : List ℕ)
    → IsHop h
    → v.sent
      ≡ h.node.sent ++ deliveries (λ c. c.connected_to_root) h.node.objects packet h.node.channels
    → departed h v ≡ some packet
departed_lem h v packet good sent =
    rw
      (
        sent,
        drop-append h.node.sent
            (deliveries (λ c. c.connected_to_root) h.node.objects packet h.node.channels)
            (length h.node.sent) refl,
        deliveries-uplinks h.node.objects packet h.node.channels,
        good.one_uplink,
        ==_refl h.uplink,
      )
      refl

-- A node whose router answers a packet by another one passes that one on.
pass_lem :
    (h : Hop) (packet next : List ℕ)
    → IsHop h
    → header_size ≤ length packet
    → length packet < receive_buffer_size
    → ((rest : List ℕ)
        → (route_packet h.env (packet ++ rest) (length packet) h.node).1.sent
          ≡ h.node.sent
            ++ deliveries (λ c. c.connected_to_root) h.node.objects next h.node.channels)
    → pass h packet ≡ some next
pass_lem h packet next good header room routed =
    let filled = set (overlay 0 packet h.buffer) (length packet) 0 in
    let (rest, e) = filled_starts packet h.buffer (omega (arith, good.buffer)) in
    let v = (route_packet h.env filled (length packet) h.node).1 in
    ap
      (λ bytes. after_read h (receive_step h.env h.incoming (Received.chunk bytes) h.buffer h.node))
      (take-all receive_buffer_size packet (omega arith))
    ∙ ap (after_read h) (
        receive_step-route_packet h.env h.incoming packet h.buffer h.node good.buffer header room
          good.receives)
    ∙ departed_lem h v next good
        (ap (λ bytes. (route_packet h.env bytes (length packet) h.node).1.sent) e ∙ routed rest)

-- A packet for the root that is shorter than the buffer of a read passes each node as it is.
pub relays_lem :
    (protobuf : ℕ) (body : List ℕ) (hs : List Hop)
    → length body + header_size < receive_buffer_size
    → All IsHop hs
    → let packet = packet_of Forwarding.to_root protobuf body in travel hs packet ≡ some packet
unfolding travel Option.bind
relays_lem protobuf body [] small good = refl
relays_lem protobuf body (h ∷ hs) small (first, others) =
    let packet = packet_of Forwarding.to_root protobuf body in
    let size = length-packet_of Forwarding.to_root protobuf body in
    let passes : pass h packet ≡ some packet =
      pass_lem h packet packet first (omega (arith, size)) (omega (arith, size)) (λ rest.
        let parts = read-packet_of Forwarding.to_root protobuf body rest in
        let stamp : set_size (length packet) (packet ++ rest) ≡ packet ++ rest =
          rw size (set_size-packet_of Forwarding.to_root protobuf body rest (omega arith)) in
        ap (λ r. r.1.sent)
          (route_packet-to_root h.env (packet ++ rest) (length packet) h.node parts.0)
        ∙ ap (λ b. (send_connected h.env h.node.channels b (length packet) h.node).sent) stamp
        ∙ sent-send_connected h.env (packet ++ rest) (length packet) h.node.channels h.node
        ∙ ap
            (λ b.
              h.node.sent ++ deliveries (λ c. c.connected_to_root) h.node.objects b h.node.channels)
            (take-append packet rest (length packet) refl)) in
    rw passes (relays_lem protobuf body hs small others)

module _ (child parent : Hop) (relays : List Hop) (enc_child : Encodes child.env)
    (enc_parent : Encodes parent.env) where
  -- A report travels up a row of nodes of any length. If nanopb keeps its promises at the child and at
  -- its parent and the parent decodes what the child encodes, each node has one channel towards the
  -- root and its buffers have their sizes, and each packet arrives whole and alone in one read at the
  -- next node, then the report that the child sends leaves the last node as one packet for the root that
  -- names the child as the source and its parent as the target of the edge.
  pub report_journey_names_edge :
      ((rest : List ℕ)
        → let body = topo_body child.env (topo_of_self child.env) in
          parent.env.decode_info (body ++ rest) (length body) ≡ some (topo_of_self child.env))
      → IsHop child
      → IsHop parent
      → All IsHop relays
      → report_journey child (parent ∷ relays)
        ≡ some (
            packet_of Forwarding.to_root Protobuf.mesh_topology (
              topo_body parent.env (record {
                target_id = parent.env.device_id;
                source_id = child.env.device_id;
                kind = Protobuf.mesh_topology;
              })))
  unfolding report_journey travel Option.bind
  report_journey_names_edge agree good_child good_parent good_relays =
      let body = topo_body child.env (topo_of_self child.env) in
      let report = packet_of Forwarding.to_parent_to_root Protobuf.mesh_topology body in
      let size = length-packet_of Forwarding.to_parent_to_root Protobuf.mesh_topology body in
      let short : length body ≤ 14 = enc_child.info_size (topo_of_self child.env) 59 in
      let answer = topo_body parent.env (topo_of_child parent.env (topo_of_self child.env)) in
      let edge = packet_of Forwarding.to_root Protobuf.mesh_topology answer in
      let leaves : departed child (send_mesh_topo child.env child.node) ≡ some report =
        departed_lem child (send_mesh_topo child.env child.node) report good_child
          (send_mesh_topo-Sends child.env enc_child child.node good_child.router).0 in
      let answered : pass parent report ≡ some edge =
        pass_lem parent report edge good_parent (omega (arith, size)) (omega (arith, size)) (λ rest.
          rw size
            (route_packet-Sends parent.env enc_parent body rest (topo_of_self child.env) parent.node
              good_parent.router (omega arith) (agree rest)).1.0) in
      rw (leaves, answered)
        (relays_lem Protobuf.mesh_topology answer relays
          (omega
            (arith, enc_parent.info_size (topo_of_child parent.env (topo_of_self child.env)) 59))
          good_relays)
