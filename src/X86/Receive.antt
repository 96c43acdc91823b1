-- ===== src/X86/Receive.antt =====
-- What the receive loop of an X86_64 client does with the bytes that arrive.
use respir_mesh.Base.{
  ◌==◌, inr, inl, Bool-cases, ◌&&◌, if◌then◌else◌, Bool, ◌+◌, ◌^◌, ◌≤◌, ltb, ◌⊎◌, ℕ, ◌<◌, ◌≡◌, refl,
  sym, ◌∙◌, ap, true, false, List, [], ◌∷◌, ◌++◌, none, some, arith, length, set, overlay,
  length-set, length-overlay,
}
use respir_mesh.Wire.Forwarding
use respir_mesh.Wire.Protobuf
use respir_mesh.Wire.Header.{set_size, header_size, Field, read}
use respir_mesh.Wire.Framing.{length-set_size, AreBytes, IsFramed}
use respir_mesh.Node.Env.{Env}
use respir_mesh.Node.State.{Node}
use respir_mesh.Channel.Delivery.{Untouched}
use respir_mesh.Router.Selection.{is_among, deliveries}
use respir_mesh.Router.Relay.{route_packet_relays}
use respir_mesh.Router.Topo.{overreads, packet_data_len, route_packet}
use respir_mesh.Orchestrator.{receive_fn}
use respir_mesh.X86.Client.{Received, receive_buffer_size, receive_step, received}
use respir_mesh.Node.Fault.{>>=-faults, >>=-runs, pure}

-- A packet of five bytes or more that lies within its buffer is routed.
receive_fn-route_packet :
    (env : Env) (buffer : List ℕ) (size : ℕ) (w : Node)
    → header_size ≤ size
    → size ≤ length buffer
    → size < 2 ^ 16
    → receive_fn env buffer size w ≡ some (route_packet env buffer size w)
unfolding receive_fn
receive_fn-route_packet env buffer size w header within small =
    let inside : ltb (length (set_size size buffer)) (header_size + packet_data_len size) ≡ false =
      ground (arith, length-set_size size buffer) in
    ground (arith, inside)

module _ (env : Env) (p : ℕ) (bytes buffer : List ℕ) (w : Node) where
  -- A read that fills the buffer of 64 bytes is undefined behaviour: the terminating zero is written
  -- behind the buffer. So are bytes that arrive before the orchestrator has given the channel its
  -- receiver, since the reading thread starts first.
  pub receive_step_faults :
      (length bytes ≡ receive_buffer_size) ⊎ ((w.objects p).has_receiver ≡ false)
      → receive_step env p (Received.chunk bytes) buffer w ≡ none
  unfolding receive_step
  receive_step_faults bad = ground arith

  -- Other bytes, if they are a whole header at least, go to the router, and the loop goes on with the
  -- buffer.
  pub receive_step-route_packet :
      length buffer ≡ receive_buffer_size
      → header_size ≤ length bytes
      → length bytes < receive_buffer_size
      → (w.objects p).has_receiver ≡ true
      → let r = route_packet env (set (overlay 0 bytes buffer) (length bytes) 0) (length bytes) w in
        receive_step env p (Received.chunk bytes) buffer w ≡ some (some r.0, r.1)
  unfolding receive_step
  receive_step-route_packet sized header room receiver =
      let fits : ltb (length bytes) receive_buffer_size ≡ true = ground arith in
      let filled = set (overlay 0 bytes buffer) (length bytes) 0 in
      let whole : length filled ≡ receive_buffer_size =
        length-set (overlay 0 bytes buffer) (length bytes) 0
        ∙ length-overlay 0 bytes buffer
        ∙ sized in
      rw fits (
        >>=-runs (received env p filled (length bytes)) (λ left. pure (some left)) w
          (rw receiver (
            receive_fn-route_packet env filled (length bytes) w header (omega (arith, whole))
              (omega arith))))

-- The forwarding types of the packets that the router takes for its node as a parent.
abbrev pub for_parent : List ℕ
for_parent = Forwarding.to_parent ∷ Forwarding.to_parent_to_root ∷ Forwarding.parent_and_back ∷ []

-- Whether a read of so many bytes leaves a topology packet for a parent that ends within its header.
abbrev pub is_cut_report : List ℕ → ℕ → Bool
is_cut_report filled size =
    ltb size header_size
    && is_among (read Field.forwarding_type (set_size size filled)) for_parent
    && read Field.protobuf_type (set_size size filled) == Protobuf.mesh_topology

overreads_lem :
    (filled : List ℕ) (size : ℕ)
    → length filled ≡ receive_buffer_size
    → size < receive_buffer_size
    → overreads (set_size size filled) size ≡ is_cut_report filled size
overreads_lem filled size sized room =
    let past : ltb (length (set_size size filled)) (header_size + packet_data_len size)
        ≡ ltb size header_size =
      ground (arith, length-set_size size filled, sized) in
    ground (arith, past)

-- What the loop does with a read that does not fill the buffer, whatever the bytes are.
pub receive_step-read :
    (env : Env) (p : ℕ) (bytes buffer : List ℕ) (w : Node)
    → length buffer ≡ receive_buffer_size
    → length bytes < receive_buffer_size
    → (w.objects p).has_receiver ≡ true
    → let size = length bytes in
      let filled = set (overlay 0 bytes buffer) size 0 in
      let r = route_packet env filled size w in
      receive_step env p (Received.chunk bytes) buffer w
      ≡ (if is_cut_report filled size then none else some (some r.0, r.1))
unfolding receive_step receive_fn
receive_step-read env p bytes buffer w sized room receiver =
    let fits : ltb (length bytes) receive_buffer_size ≡ true = ground arith in
    let filled = set (overlay 0 bytes buffer) (length bytes) 0 in
    let whole : length filled ≡ receive_buffer_size =
      length-set (overlay 0 bytes buffer) (length bytes) 0
      ∙ length-overlay 0 bytes buffer
      ∙ sized in
    let cut = overreads_lem filled (length bytes) whole room in
    let next = λ (left : List ℕ). pure (some left) in
    elim (Bool-cases (is_cut_report filled (length bytes))) [
      | inl short ↦
          let crash : receive_fn env filled (length bytes) w ≡ none = rw (cut, short) refl in
          rw (fits, short)
            (>>=-faults (received env p filled (length bytes)) next w (rw receiver crash))
      | inr long ↦
          let routed : receive_fn env filled (length bytes) w
              ≡ some (route_packet env filled (length bytes) w) =
            rw (cut, long) refl in
          rw (fits, long)
            (>>=-runs (received env p filled (length bytes)) next w (rw receiver routed))
    ]

-- The buffer after a read: the bytes, the zero, and what was there before.
pub filled_starts :
    (bytes buffer : List ℕ)
    → length bytes < length buffer
    → (rest : List ℕ) × (set (overlay 0 bytes buffer) (length bytes) 0 ≡ bytes ++ rest)
unfolding overlay
filled_starts [] [] h = absurd (omega arith)
filled_starts [] (x ∷ buffer) h = (0 ∷ buffer, refl)
filled_starts (b ∷ bytes) [] h = absurd (omega arith)
filled_starts (b ∷ bytes) (x ∷ buffer) h =
    let (rest, e) = filled_starts bytes buffer (omega arith) in (rest, ap (◌∷◌ b) e)

module _ (env : Env) (p : ℕ) (packet buffer : List ℕ) (w : Node) where
  -- A framed packet for the root of less than 64 bytes that arrives alone at a channel of the list
  -- leaves the loop running and is handed on, byte for byte, to each channel connected to the root.
  pub receive_step_relays :
      length buffer ≡ receive_buffer_size
      → length packet < receive_buffer_size
      → (w.objects p).has_receiver ≡ true
      → AreBytes packet
      → IsFramed packet
      → read Field.forwarding_type packet ≡ Forwarding.to_root
      → (left : List ℕ) × (v : Node) × (receive_step env p (Received.chunk packet) buffer w
          ≡ some (some left, v))
        × (length left ≡ receive_buffer_size)
        × (v.sent ≡ w.sent ++ deliveries (λ c. c.connected_to_root) w.objects packet w.channels)
        × Untouched w v
  receive_step_relays sized fits ready bytes framed kind =
      let filled = set (overlay 0 packet buffer) (length packet) 0 in
      let (rest, e) = filled_starts packet buffer (omega arith) in
      let (kept, gone, same) = route_packet_relays env packet rest w bytes framed kind in
      let ran =
        receive_step-route_packet env p packet buffer w sized framed.holds_header fits ready in
      (
        (route_packet env (packet ++ rest) (length packet) w).0,
        (route_packet env (packet ++ rest) (length packet) w).1,
        rw e at ran,
        ap length (kept ∙ sym e)
            ∙ length-set (overlay 0 packet buffer) (length packet) 0
            ∙ length-overlay 0 packet buffer
            ∙ sized,
        gone,
        same,
      )
