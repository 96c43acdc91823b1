-- ===== src/ClientR1/Agreement.antt =====
-- The old Linux node and the old sketch do the same.
use respir_mesh.ClientR1.{
  ClientR1, after_decode, completed, forward_topo, handle_mesh_topo, loop_round, print_loop, route,
  send, send_encoded,
}
use respir_mesh.EspOld.Packets
use respir_mesh.EspOld.State.{and_then, Call, EspOld, calling}
use mathlib.Core.Option
use mathlib.Core.List
use respir_mesh.Node.Env.{Encoded, Env}
use respir_mesh.Router.Topo.{packet_data_len}
use respir_mesh.Wire.Forwarding
use respir_mesh.Wire.Header.{Field, header_size, read}
use respir_mesh.Wire.Messages.{RespirMeshInfo}
use respir_mesh.Wire.Protobuf
use respir_mesh.Base.{
  sym, for_u8-idle, append_assoc, ℕ, ◌+◌, ◌<◌, List, [], ◌∷◌, ◌++◌, Option, none, some, ◌≡◌, refl,
  ◌∙◌, ap, arith, take, drop, length, overwrite, leb, if◌then◌else◌, inl, inr, Bool-cases, true,
  false, Bool, ltb, ◌==◌,
}

-- The sketch with the buffer of the node, which has also written what the node has sent.
abbrev pub as_sketch : EspOld → ClientR1 → EspOld
as_sketch s c = record s {
  pb_buffer = c.pb_buffer;
  calls = s.calls ++ List.map Call.parent_write c.sent;
}

as_sketch-send :
    (s : EspOld) (size : ℕ) (bytes : List ℕ) (c : ClientR1)
    → as_sketch s (send size bytes c)
      ≡ calling (Call.parent_write (take size bytes) ∷ []) (as_sketch s c)
as_sketch-send s size bytes c =
    ap (λ calls. record s { pb_buffer = c.pb_buffer; calls = calls })
      (ap (◌++◌ s.calls) (List.map-append Call.parent_write c.sent (take size bytes ∷ []))
        ∙ sym (append_assoc s.calls (List.map Call.parent_write c.sent) _))

print_loop-leb :
    (end : ℕ) (c : ClientR1) → print_loop end c ≡ (if leb end 255 then some c else none)
unfolding print_loop
print_loop-leb end c = for_u8-idle end c

old_print_loop-leb :
    (end : ℕ) (s : EspOld) → Packets.print_loop end s ≡ (if leb end 255 then some s else none)
unfolding Packets.print_loop
old_print_loop-leb end s = for_u8-idle end s

module _ (env : Env) (s : EspOld) where
  -- A printing loop, and then a packet for the parent.
  printed-agrees :
      (end size : ℕ) (c : ClientR1)
      → and_then (Packets.print_loop end (as_sketch s c)) (λ s. some (Packets.write_parent size s))
        ≡ Option.map (as_sketch s) (Option.map (λ c. send size c.pb_buffer c) (print_loop end c))
  printed-agrees end size c = elim (Bool-cases (leb end 255)) [
    | inl small ↦
        rw (print_loop-leb end c, old_print_loop-leb end (as_sketch s c), small)
          (ap some (sym (as_sketch-send s size c.pb_buffer c)))
    | inr large ↦ rw (print_loop-leb end c, old_print_loop-leb end (as_sketch s c), large) refl
  ]

  encoded-agrees :
      (encoded : Encoded) (c : ClientR1)
      → (if encoded.status
          then and_then
              (Packets.print_loop (length encoded.bytes + header_size + 3) (as_sketch s c))
              (λ s. some (Packets.write_parent (length encoded.bytes + header_size) s))
          else some (as_sketch s c))
        ≡ Option.map (as_sketch s) (send_encoded 3 encoded c)
  unfolding send_encoded
  encoded-agrees encoded c = elim (Bool-cases encoded.status) [
    | inl good ↦ rw good (
        printed-agrees (length encoded.bytes + header_size + 3) (length encoded.bytes + header_size)
          c)
    | inr bad ↦ rw bad refl
  ]

  forward_topo-agrees :
      (m : RespirMeshInfo) (c : ClientR1)
      → Packets.forward_topo env m (as_sketch s c) ≡ Option.map (as_sketch s) (forward_topo env m c)
  unfolding forward_topo Packets.forward_topo
  forward_topo-agrees m c = encoded-agrees (env.encode_info (completed env m) 59) _

  -- A printing loop in front of two steps that agree.
  print_loop-agrees :
      (end : ℕ) (c : ClientR1) (f : EspOld → Option EspOld) (g : ClientR1 → Option ClientR1)
      → f (as_sketch s c) ≡ Option.map (as_sketch s) (g c)
      → and_then (Packets.print_loop end (as_sketch s c)) f
        ≡ Option.map (as_sketch s) (Option.bind (print_loop end c) g)
  unfolding Option.bind
  print_loop-agrees end c f g e = elim (Bool-cases (leb end 255)) [
    | inl small ↦ rw (print_loop-leb end c, old_print_loop-leb end (as_sketch s c), small) e
    | inr large ↦ rw (print_loop-leb end c, old_print_loop-leb end (as_sketch s c), large) refl
  ]

  after_decode-agrees :
      (len : ℕ) (decoded : Option RespirMeshInfo) (c : ClientR1)
      → Packets.after_decode env len decoded (as_sketch s c)
        ≡ Option.map (as_sketch s) (after_decode env len decoded c)
  after_decode-agrees len none c = refl
  after_decode-agrees len (some m) c =
      print_loop-agrees (len + 10) c _ _
        (elim (Bool-cases
          (read Field.forwarding_type c.pb_buffer == Forwarding.to_parent_to_root)) [
            | inl asked ↦ rw asked (forward_topo-agrees m c)
            | inr other ↦ rw other refl
          ])

  handle_mesh_topo-agrees :
      (bytes : List ℕ) (len : ℕ) (c : ClientR1)
      → Packets.handle_mesh_topo env bytes len (as_sketch s c)
        ≡ Option.map (as_sketch s) (handle_mesh_topo env bytes len c)
  unfolding handle_mesh_topo Packets.handle_mesh_topo
  handle_mesh_topo-agrees bytes len c = print_loop-agrees (len + 10) c _ _ (
      print_loop-agrees (len + 10) c _ _ (
        after_decode-agrees len (env.decode_info (drop header_size bytes) (packet_data_len len))
          (record c { pb_buffer = overwrite (take header_size bytes) c.pb_buffer })))

printed :
    (len : ℕ) (t : Option ClientR1)
    → Option.bind t (print_loop len) ≡ (if leb len 255 then t else none)
unfolding Option.bind
printed len none = elim (Bool-cases (leb len 255)) [
  | inl small ↦ rw small refl
  | inr large ↦ rw large refl
]
printed len (some t) = print_loop-leb len t

-- What of the sketch is compared: the buffer and the calls of the libraries.
abbrev pub seen : EspOld → List ℕ × List Call
seen s = (s.pb_buffer, s.calls)

module _ (env : Env) (s : EspOld) where
  pong-unseen :
      (decoded : Option RespirMeshInfo) (t : EspOld)
      → seen (Packets.count_pong env decoded t) ≡ seen t
  pong-unseen none t = refl
  pong-unseen (some m) t = elim (Bool-cases (m.kind == Protobuf.pong)) [
    | inl pong ↦ rw pong refl
    | inr other ↦ rw other refl
  ]

  pong_or_not :
      (b : Bool) (decoded : Option RespirMeshInfo) (t : EspOld)
      → Option.map seen (if b then some (Packets.count_pong env decoded t) else some t)
        ≡ some (seen t)
  pong_or_not true decoded t = ap some (pong-unseen decoded t)
  pong_or_not false decoded t = refl

  route-agrees :
      (bytes : List ℕ) (len : ℕ) (c : ClientR1)
      → Option.map seen (Packets.data_recv env bytes len (as_sketch s c))
        ≡ Option.map (λ t. seen (as_sketch s t)) (route env bytes len c)
  unfolding Packets.data_recv Packets.handle_ping_pong
  route-agrees bytes len c =
      elim (Bool-cases (read Field.forwarding_type bytes == Forwarding.to_root)) [
        | inl root ↦ rw root (ap (λ t. some (seen t)) (sym (as_sketch-send s len bytes c)))
        | inr below ↦
            elim (Bool-cases (read Field.forwarding_type bytes == Forwarding.to_parent_to_root)) [
              | inl parent ↦
                  elim (Bool-cases (read Field.protobuf_type bytes == Protobuf.mesh_topology)) [
                    | inl topo ↦
                        rw (below, parent, topo)
                          (ap (Option.map seen) (handle_mesh_topo-agrees env s bytes len c)
                            ∙ Option.map-map seen (as_sketch s) (handle_mesh_topo env bytes len c))
                    | inr other ↦ rw (below, parent, other) refl
                  ]
              | inr elsewhere ↦
                  rw (below, elsewhere)
                    (pong_or_not _ (env.decode_info (drop header_size bytes) (packet_data_len len))
                      (as_sketch s c))
            ]
      ]

  -- Whatever message arrives, the old Linux node does what the old sketch does in the same state, if
  -- the message has at most 255 bytes: the same packets go to the parent, the buffer is the same after
  -- it, and where one hangs the other does. A longer message hangs the Linux node, which prints it.
  pub loop_round-agrees :
      (bytes : List ℕ) (len : ℕ) (c : ClientR1)
      → 0 < len
      → Option.map (λ t. seen (as_sketch s t)) (loop_round env bytes len c) ≡ (
          if leb len 255
          then Option.map seen (Packets.data_recv env bytes len (as_sketch s c))
          else none)
  unfolding loop_round
  loop_round-agrees bytes len c arrived =
      let arrives : ltb 0 len ≡ true = ground arith in
      rw (arrives, printed len (route env bytes len c))
        (elim (Bool-cases (leb len 255)) [
          | inl small ↦ rw small (sym (route-agrees bytes len c))
          | inr large ↦ rw large refl
        ])
