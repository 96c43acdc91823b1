-- ===== src/Linux/Steady.antt =====
-- The operations of a Linux node that neither list a channel nor take a receiver away.
use respir_mesh.Linux.Wired.{IsSteady, Steady, Steady-refl, Steady-trans}
use respir_mesh.Channel.Delivery.{Untouched}
use respir_mesh.Looper
use respir_mesh.Node.Env.{Encoded, Env}
use respir_mesh.Node.State.{Channel, Node, update}
use respir_mesh.Orchestrator.{set_object, receive_fn}
use respir_mesh.Router.Selection.{
  send_packet-deliveries, send_all-Untouched, send_connected-Untouched,
}
use respir_mesh.Router.Send.{dispatch, send_packet}
use respir_mesh.Router.Topo.{
  overreads, internal_buffer_size, packet_data_len, topo_of_child, topo_of_self, after_decode,
  forward_topo, handle_mesh_topo, process_packet, route, route_packet, send_buffer, send_mesh_topo,
}
use respir_mesh.Router.Topo
use respir_mesh.Wire.Assembly.{length-assembled}
use respir_mesh.Wire.Forwarding
use respir_mesh.Wire.Framing.{length-set_size, length-write}
use respir_mesh.Wire.Header.{read, Field, header_size, label, set_size, write}
use respir_mesh.Wire.Messages.{RespirMeshInfo}
use respir_mesh.Wire.Protobuf
use respir_mesh.Base.{
  ◌-◌, drop, ==_iff, ◌⊎◌, ℕ, ◌+◌, List, true, false, Option, none, some, ◌≡◌, refl, ◌∙◌, ap, arith,
  ◌==◌, length, u16, take, overlay, overwrite, inl, inr, Bool-cases, length-overlay,
  length-overwrite,
}

Untouched-Steady : {w v : Node} → Untouched w v → Steady w v
Untouched-Steady {w} {v} u = record {
  fresh = omega (arith, u.fresh);
  channels = u.channels;
  receivers = λ p old h. ap (λ (o : ℕ → Channel). (o p).has_receiver) u.objects ∙ h;
  router = ap length u.router_buffer;
  logs = ap length u.log_packet;
}

-- A write to a channel object that leaves its receiver.
pub set_object-Steady :
    (p : ℕ) (c : Channel) (w : Node)
    → c.has_receiver ≡ (w.objects p).has_receiver
    → Steady w (set_object p c w)
set_object-Steady p c w same = record {
  fresh = omega arith;
  channels = refl;
  receivers = λ q old h. receives q h (Bool-cases (p == q));
  router = refl;
  logs = refl;
}
  where
    receives :
        (q : ℕ)
        → (w.objects q).has_receiver ≡ true
        → ((p == q) ≡ true) ⊎ ((p == q) ≡ false)
        → (update w.objects p c q).has_receiver ≡ true
    receives q h (inl here) =
        let e : p ≡ q = (==_iff p q).0 here in
        rw here (same ∙ ap (λ r. (w.objects r).has_receiver) e ∙ h)
    receives q h (inr elsewhere) = rw elsewhere h

-- A write to the buffers that keeps their sizes.
resized :
    (w : Node) (router logs : List ℕ)
    → length router ≡ length w.router_buffer
    → length logs ≡ length w.log_packet
    → Steady w (record w { router_buffer = router; log_packet = logs })
resized w router logs e f = record {
  fresh = omega arith;
  channels = refl;
  receivers = λ p old h. h;
  router = e;
  logs = f;
}

module _ (env : Env) where
  dispatch-Steady :
      (kind : ℕ) (buffer : List ℕ) (size : ℕ) (w : Node)
      → Steady w (dispatch env kind buffer size w)
  dispatch-Steady kind buffer size w =
      let connected = Untouched-Steady (send_connected-Untouched env buffer size w.channels w) in
      let all = Untouched-Steady (send_all-Untouched env buffer size w.channels w) in
      ground (arith, connected, all, Steady-refl w)

  pub send_packet-Steady :
      (buffer : List ℕ) (size : ℕ) (w : Node) → Steady w (send_packet env buffer size w).1
  unfolding send_packet
  send_packet-Steady buffer size w =
      dispatch-Steady (read Field.forwarding_type (set_size size buffer)) (set_size size buffer)
        size w

  -- The router's own buffer sent, and stamped.
  send_buffer-Steady : (encoded : Encoded) (w : Node) → Steady w (send_buffer env encoded w)
  unfolding send_buffer send_packet
  send_buffer-Steady encoded w =
      let size = u16 (length encoded.bytes + header_size) in
      let s = send_packet-Steady w.router_buffer size w in
      let sent : Steady w (record (send_packet env w.router_buffer size w).1 {
        router_buffer = set_size size w.router_buffer;
      }) =
        record {
          fresh = s.fresh;
          channels = s.channels;
          receivers = s.receivers;
          router = length-set_size size w.router_buffer;
          logs = s.logs;
        } in
      ground (arith, sent, Steady-refl w)

  send_mesh_topo-Steady : (w : Node) → Steady w (send_mesh_topo env w)
  unfolding send_mesh_topo
  send_mesh_topo-Steady w =
      let encoded = env.encode_info (topo_of_self env) (internal_buffer_size - header_size) in
      Steady-trans
        (resized w
          (overlay header_size encoded.bytes
            (label Forwarding.to_parent_to_root Protobuf.mesh_topology w.router_buffer))
          w.log_packet
          (length-assembled Forwarding.to_parent_to_root Protobuf.mesh_topology encoded.bytes
            w.router_buffer)
          refl)
        (send_buffer-Steady encoded _)

  forward_topo-Steady : (m : RespirMeshInfo) (w : Node) → Steady w (forward_topo env m w)
  unfolding forward_topo
  forward_topo-Steady m w =
      let encoded = env.encode_info (topo_of_child env m) (internal_buffer_size - header_size) in
      Steady-trans
        (resized w
          (overlay header_size encoded.bytes
            (write Field.forwarding_type Forwarding.to_root w.router_buffer))
          w.log_packet
          (length-overlay header_size encoded.bytes _
            ∙ length-write Field.forwarding_type Forwarding.to_root w.router_buffer)
          refl)
        (send_buffer-Steady encoded _)

  after_decode-Steady : (m : Option RespirMeshInfo) (w : Node) → Steady w (after_decode env m w)
  after_decode-Steady none w = Steady-refl w
  after_decode-Steady (some m) w = ground (arith, forward_topo-Steady m w, Steady-refl w)

  handle_mesh_topo-Steady :
      (buffer : List ℕ) (size : ℕ) (w : Node) → Steady w (handle_mesh_topo env buffer size w)
  unfolding handle_mesh_topo
  handle_mesh_topo-Steady buffer size w =
      Steady-trans
        (resized w (overwrite (take header_size buffer) w.router_buffer) w.log_packet
          (length-overwrite (take header_size buffer) w.router_buffer) refl)
        (after_decode-Steady (env.decode_info (drop header_size buffer) (packet_data_len size)) _)

  route_packet-Steady :
      (buffer : List ℕ) (size : ℕ) (w : Node) → Steady w (route_packet env buffer size w).1
  unfolding route_packet process_packet
  route_packet-Steady buffer size w =
      let stamped = set_size size buffer in
      let connected = Untouched-Steady (send_connected-Untouched env stamped size w.channels w) in
      ground (arith, connected, handle_mesh_topo-Steady stamped size w, Steady-refl w)

  pub receive_fn-Steady : (buffer : List ℕ) (size : ℕ) → IsSteady (receive_fn env buffer size)
  unfolding receive_fn
  receive_fn-Steady buffer size u w s = elim (Bool-cases (overreads (set_size size buffer) size)) [
    | inl past ↦ rw past tt
    | inr within ↦ rw within (Steady-trans s (route_packet-Steady buffer size w))
  ]

  objects-send_buffer :
      (encoded : Encoded) (w : Node) → (send_buffer env encoded w).objects ≡ w.objects
  unfolding send_buffer
  objects-send_buffer encoded w =
      let size = u16 (length encoded.bytes + header_size) in
      let (sent, given, same) = send_packet-deliveries env w.router_buffer size w in
      elim (Bool-cases encoded.status) [ inl good ↦ rw good same.objects | inr bad ↦ rw bad refl ]

  -- The router changes no channel object.
  pub objects-update : (w : Node) → (Topo.update env w).objects ≡ w.objects
  unfolding Topo.update send_mesh_topo
  objects-update w = elim (Bool-cases (Looper.check env.clock w.mesh_topo_looper w.reads).0) [
    | inl due ↦ rw due (objects-send_buffer _ _)
    | inr waits ↦ rw waits refl
  ]

  pub update-Steady : (w : Node) → Steady w (Topo.update env w)
  unfolding Topo.update
  update-Steady w =
      let (due, looper, reads) = Looper.check env.clock w.mesh_topo_looper w.reads in
      let v = record w { mesh_topo_looper = looper; reads = reads } in
      let checked : Steady w v = record {
        fresh = omega arith;
        channels = refl;
        receivers = λ p old h. h;
        router = refl;
        logs = refl;
      } in
      ground (arith, checked, Steady-trans checked (send_mesh_topo-Steady v))
