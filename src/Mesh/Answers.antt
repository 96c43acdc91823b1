-- ===== src/Mesh/Answers.antt =====
-- What a node hands to its channels when its timer is due, and when a report or an edge arrives.
use respir_mesh.Mesh.Hands.{Gives-Hands, Gives, Hands}
use respir_mesh.X86.Receive.{receive_step_faults, receive_step-route_packet, filled_starts}
use respir_mesh.Router.Relay.{route_packet-to_root}
use respir_mesh.X86.Client.{Received, receive_step, receive_buffer_size}
use respir_mesh.Wire.Header.{set_size, header_size}
use respir_mesh.Wire.Assembly.{set_size-packet_of, read-packet_of, length-packet_of, packet_of}
use respir_mesh.Router.Report.{route_packet-Sends, send_mesh_topo-Sends, topo_body}
use respir_mesh.Looper
use respir_mesh.Wire.Forwarding
use respir_mesh.Wire.Protobuf
use mathlib.Core.Option
use respir_mesh.Node.Env.{Env, Encodes}
use respir_mesh.Node.State.{Node}
use respir_mesh.Router.Selection.{sent-send_connected, send_connected-Untouched}
use respir_mesh.Router.Topo.{
  topo_of_self, internal_buffer_size, route_packet, send_mesh_topo, update,
}
use mathlib.Core.Path.{subst}
use respir_mesh.Base.{
  length-take, ◌≤◌, ltb, ap, take-all, take-append, overlay, set, take, Option, ◌+◌, ℕ, ◌<◌, ◌≡◌,
  refl, ◌∙◌, true, List, [], ◌++◌, some, arith, inl, inr, Bool-cases, length, append-nil, sym,
}

-- The report of a node, and the edge from a source to the node.
abbrev pub report_of : Env → List ℕ
report_of env =
    packet_of Forwarding.to_parent_to_root Protobuf.mesh_topology (topo_body env (topo_of_self env))

abbrev pub edge_from : Env → ℕ → List ℕ
edge_from env source = packet_of Forwarding.to_root Protobuf.mesh_topology (
    topo_body env
      (record { target_id = env.device_id; source_id = source; kind = Protobuf.mesh_topology }))

module _ (env : Env) (enc : Encodes env) (w : Node)
    (sized : length w.router_buffer ≡ internal_buffer_size) where
  -- A round of the router whose timer is due hands on the report of the node.
  pub update-Gives :
      (Looper.check env.clock w.mesh_topo_looper w.reads).0 ≡ true
      → Gives (report_of env) w (update env w)
  unfolding update
  update-Gives due =
      let (on, looper, reads) = Looper.check env.clock w.mesh_topo_looper w.reads in
      let v = record w { mesh_topo_looper = looper; reads = reads } in
      let (sent, kept) = send_mesh_topo-Sends env enc v sized in
      let given : Gives (report_of env) w (send_mesh_topo env v) = record {
        sent = sent;
        objects = kept.objects;
        channels = kept.channels;
        size = kept.router_size;
        log_size = ap length kept.log_packet;
      } in
      rw due given

  -- Any round of the router hands on nothing else.
  pub update-Hands : Hands (λ b. b ≡ report_of env) w (update env w)
  unfolding update
  update-Hands = elim (Bool-cases (Looper.check env.clock w.mesh_topo_looper w.reads).0) [
    | inl on ↦ Gives-Hands (update-Gives on)
    | inr off ↦ rw off (record {
      handed = [];
      sent = sym (append-nil w.sent);
      each = tt;
      objects = refl;
      channels = refl;
      size = refl;
      log_size = refl;
    })
  ]

  -- A report of a node that encodes as this one decodes is answered by the edge from it.
  pub report-Gives :
      (child : Env) (rest : List ℕ)
      → Encodes child
      → env.decode_info
          (topo_body child (topo_of_self child) ++ rest)
          (length (topo_body child (topo_of_self child)))
        ≡ some (topo_of_self child)
      → Gives
          (edge_from env child.device_id)
          w
          (route_packet env (report_of child ++ rest) (length (report_of child)) w).1
  report-Gives child rest enc_child decoded =
      let body = topo_body child (topo_of_self child) in
      let size = length-packet_of Forwarding.to_parent_to_root Protobuf.mesh_topology body in
      let (sent, kept) =
        (route_packet-Sends env enc body rest (topo_of_self child) w sized
          (omega (arith, enc_child.info_size (topo_of_self child) 59)) decoded).1 in
      rw size (record {
        sent = sent;
        objects = kept.objects;
        channels = kept.channels;
        size = kept.router_size;
        log_size = ap length kept.log_packet;
      })

-- A packet for the root is handed on as it is.
pub rootward-Gives :
    (env : Env) (protobuf : ℕ) (body rest : List ℕ) (w : Node)
    → length body + header_size < receive_buffer_size
    → let packet = packet_of Forwarding.to_root protobuf body in
      Gives packet w (route_packet env (packet ++ rest) (length packet) w).1
rootward-Gives env protobuf body rest w small =
    let packet = packet_of Forwarding.to_root protobuf body in
    let size = length-packet_of Forwarding.to_root protobuf body in
    let parts = read-packet_of Forwarding.to_root protobuf body rest in
    let stamp : set_size (length packet) (packet ++ rest) ≡ packet ++ rest =
      rw size (set_size-packet_of Forwarding.to_root protobuf body rest (omega arith)) in
    let same = send_connected-Untouched env (packet ++ rest) (length packet) w.channels w in
    rw (route_packet-to_root env (packet ++ rest) (length packet) w parts.0, stamp)
      (record {
        sent =
            sent-send_connected env (packet ++ rest) (length packet) w.channels w
            ∙ rw (take-append packet rest (length packet) refl) refl;
        objects = same.objects;
        channels = same.channels;
        size = ap length same.router_buffer;
        log_size = ap length same.log_packet;
      })

module _ (G : Node → Type 0) (env : Env) (p : ℕ) (packet buffer : List ℕ) (w : Node)
    (sized : length buffer ≡ receive_buffer_size) (header : header_size ≤ length packet)
    (room : length packet < receive_buffer_size)
    (routed : (rest : List ℕ) → G (route_packet env (packet ++ rest) (length packet) w).1) where
  -- A packet that is shorter than the buffer of the read is given to the router, if the channel has its
  -- receiver.
  pub receive_step-runs :
      (w.objects p).has_receiver ≡ true
      → (left : Option (List ℕ)) × (v : Node) × (receive_step env p
            (Received.chunk (take receive_buffer_size packet))
            buffer
            w
          ≡ some (left, v))
        × G v
  receive_step-runs hears =
      let filled = set (overlay 0 packet buffer) (length packet) 0 in
      let (rest, same) = filled_starts packet buffer (omega (arith, sized)) in
      let whole = take-all receive_buffer_size packet (omega arith) in
      let r = route_packet env filled (length packet) w in
      (
        some r.0,
        r.1,
        rw whole (receive_step-route_packet env p packet buffer w sized header room hears),
        rw same (routed rest),
      )

  -- If the thread goes on, that is what has happened.
  pub receive_step-ran :
      (left : Option (List ℕ)) (v : Node)
      → receive_step env p (Received.chunk (take receive_buffer_size packet)) buffer w
        ≡ some (left, v)
      → G v
  receive_step-ran left v e = elim (Bool-cases (w.objects p).has_receiver) [
    | inl hears ↦
        let (here, u, ran, given) = receive_step-runs hears in
        subst G (ap (λ r. r.1) (Option.some-injective _ _ (sym ran ∙ e))) given
    | inr deaf ↦ absurd (
        Option.none-ne-some _ (
          sym (receive_step_faults env p (take receive_buffer_size packet) buffer w (inr deaf))
          ∙ e))
  ]

-- The thread only goes on after a packet that is shorter than its buffer.
pub receive_step-room :
    (env : Env) (p : ℕ) (packet buffer : List ℕ) (left : Option (List ℕ)) (w v : Node)
    → receive_step env p (Received.chunk (take receive_buffer_size packet)) buffer w
      ≡ some (left, v)
    → length packet < receive_buffer_size
receive_step-room env p packet buffer left w v ran =
    elim (Bool-cases (ltb (length packet) receive_buffer_size)) [
      | inl fits ↦ ground arith
      | inr fills ↦
          let long : receive_buffer_size ≤ length packet = ground arith in
          let full : length (take receive_buffer_size packet) ≡ receive_buffer_size =
            omega (arith, length-take receive_buffer_size packet) in
          let crash =
            receive_step_faults env p (take receive_buffer_size packet) buffer w (inl full) in
          absurd (Option.none-ne-some _ (sym crash ∙ ran))
    ]
