-- ===== src/Router/Relay.antt =====
-- What `RemRouter::route_packet` does with packets that it only passes on, or ignores.
use respir_mesh.Base.{
  ℕ, ◌+◌, ◌^◌, ◌<◌, ◌≡◌, ◌≢◌, refl, ◌∙◌, List, [], ◌∷◌, ◌++◌, true, arith, length, length-append,
  take-append, take-all,
}
use respir_mesh.Wire.Forwarding
use respir_mesh.Wire.Protobuf
use respir_mesh.Wire.Header.{Field, read, set_size, get_size}
use respir_mesh.Wire.Framing.{
  AreBytes, IsFramed, set_size-of_IsFramed, read-append, read-set_size, get_size-set_size,
  length-set_size,
}
use respir_mesh.Node.Env.{Env}
use respir_mesh.Node.State.{Node}
use respir_mesh.Channel.Delivery.{Untouched}
use respir_mesh.Router.Send.{send_connected}
use respir_mesh.Router.Selection.{deliveries, sent-send_connected, send_connected-Untouched}
use respir_mesh.Router.Topo.{route_packet, process_packet, is_for_parent}

module _ (env : Env) (buffer : List ℕ) (size : ℕ) (w : Node) where
  -- A packet for the root is routed by the loop over the channels connected to the root.
  pub route_packet-to_root :
      read Field.forwarding_type buffer ≡ Forwarding.to_root
      → route_packet env buffer size w
        ≡ (set_size size buffer, send_connected env w.channels (set_size size buffer) size w)
  unfolding route_packet
  route_packet-to_root kind =
      let kept = read-set_size Field.forwarding_type size buffer (λ e. cc) (λ e. cc) ∙ kind in
      rw kept

  -- Only four forwarding types are acted on when a packet arrives, and three of them only for a
  -- topology packet: in every other case the node stays as it is.
  pub route_packet_ignores :
      read Field.forwarding_type buffer ≢ Forwarding.to_root
      → (is_for_parent (read Field.forwarding_type buffer) ≡ true
          → read Field.protobuf_type buffer ≢ Protobuf.mesh_topology)
      → route_packet env buffer size w ≡ (set_size size buffer, w)
  unfolding route_packet process_packet
  route_packet_ignores not_root other = ground (
    arith,
    read-set_size Field.forwarding_type size buffer (λ e. cc) (λ e. cc),
    read-set_size Field.protobuf_type size buffer (λ e. cc) (λ e. cc),
  )

not_empty : (xs : List ℕ) → xs ≢ [] → length xs ≢ 0
not_empty [] h e = h refl
not_empty (x ∷ xs) h e = absurd (omega arith)

module _ (env : Env) (packet rest : List ℕ) (w : Node) where
  -- A framed packet for the root is relayed as it came, byte for byte and whatever follows it in the
  -- receive buffer, once to each channel connected to the root, in the order of the channel list;
  -- the buffer and the rest of the node stay as they are.
  pub route_packet_relays :
      AreBytes packet
      → IsFramed packet
      → read Field.forwarding_type packet ≡ Forwarding.to_root
      → let r = route_packet env (packet ++ rest) (length packet) w in
        (r.0 ≡ packet ++ rest)
        × (r.1.sent ≡ w.sent ++ deliveries (λ c. c.connected_to_root) w.objects packet w.channels)
        × Untouched w r.1
  route_packet_relays bytes framed kind =
      let routed =
        route_packet-to_root env (packet ++ rest) (length packet) w
          (read-append Field.forwarding_type packet rest framed.holds_header ∙ kind) in
      let stamp = set_size-of_IsFramed packet rest bytes framed in
      rw (routed, stamp)
        (
          refl,
          sent-send_connected env (packet ++ rest) (length packet) w.channels w
              ∙ rw (take-append packet rest (length packet) refl),
          send_connected-Untouched env (packet ++ rest) (length packet) w.channels w,
        )

module _ (env : Env) (packet next : List ℕ) (w : Node) where
  -- Two packets for the root that arrive in one read are relayed as one: the size that the first
  -- announces is overwritten by the length of both, so its own length is lost.
  pub route_packet_merges :
      IsFramed packet
      → next ≢ []
      → length packet + length next < 2 ^ 16
      → read Field.forwarding_type packet ≡ Forwarding.to_root
      → let both = length packet + length next in
        let merged = set_size both (packet ++ next) in
        ((route_packet env (packet ++ next) both w).1.sent
          ≡ w.sent ++ deliveries (λ c. c.connected_to_root) w.objects merged w.channels)
        × (get_size merged ≡ both)
        × (get_size merged ≢ get_size packet)
  route_packet_merges framed more small kind =
      let both : ℕ = length packet + length next in
      let routed =
        route_packet-to_root env (packet ++ next) both w
          (read-append Field.forwarding_type packet next framed.holds_header ∙ kind) in
      let stamped =
        get_size-set_size both (packet ++ next)
          (omega (arith, length-append packet next, framed.holds_header)) small in
      (
        rw routed (
            sent-send_connected env (set_size both (packet ++ next)) both w.channels w
            ∙ rw (
                take-all both (set_size both (packet ++ next)) (
                  omega
                    (arith, length-set_size both (packet ++ next), length-append packet next)))),
        stamped,
        λ e. not_empty next more (omega (arith, stamped, framed.says_size, e)),
      )
