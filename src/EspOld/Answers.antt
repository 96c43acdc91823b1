-- ===== src/EspOld/Answers.antt =====
-- The functions of the old sketch that send to the parent or answer a packet leave the access point
-- alone.
use respir_mesh.EspOld.Handlers.{resized, ensure_parent_connected-Quiet}
use respir_mesh.Router.Topo.{packet_data_len}
use respir_mesh.Wire.Assembly.{length-assembled}
use respir_mesh.EspOld.State.{Call, EspOld, Libraries, and_then}
use respir_mesh.EspOld.Packets.{
  count_pong, after_decode, completed, data_recv, ensure_parent_connected, forward_topo,
  handle_mesh_topo, handle_ping_pong, print_loop, rem_time_sync_callback, write_parent,
  time_request, pb_buffer_size,
}
use respir_mesh.EspOld.Quiet.{
  Ends, Quiet, Quiet-refl, Quiet-trans, and_then-Ends, calling-Quiet, for_u8-Quiet, if-Ends,
}
use respir_mesh.Wire.Forwarding
use respir_mesh.Wire.Protobuf
use respir_mesh.Wire.Header.{read, Field, header_size, label, write}
use respir_mesh.Node.Env.{Env}
use respir_mesh.Wire.Messages.{RespirMeshInfo}
use respir_mesh.Base.{
  u16, overwrite, ◌==◌, drop, take, ◌+◌, arith, ◌-◌, ℕ, List, [], ◌∷◌, Option, none, some, refl,
  ◌∙◌, length, length-set, length-overlay, length-overwrite, overlay,
}

print_loop-Quiet : (end : ℕ) (s t : EspOld) → Quiet s t → Ends (Quiet s) (print_loop end t)
unfolding print_loop
print_loop-Quiet end s t q = for_u8-Quiet 256 0 end (λ i u. u) s t (λ i u. Quiet-refl u) q

pub write_parent-Quiet : (size : ℕ) (s t : EspOld) → Quiet s t → Quiet s (write_parent size t)
write_parent-Quiet size s t q =
    Quiet-trans q (calling-Quiet (Call.parent_write (take size t.pb_buffer) ∷ []) t refl)

module _ (env : Env) where
  forward_topo-Quiet :
      (m : RespirMeshInfo) (s t : EspOld) → Quiet s t → Ends (Quiet s) (forward_topo env m t)
  unfolding forward_topo write
  forward_topo-Quiet m s t q =
      let encoded = env.encode_info (completed env m) (pb_buffer_size - header_size) in
      let size = length encoded.bytes + header_size in
      let u = record t {
        pb_buffer =
            overlay header_size encoded.bytes
              (write Field.forwarding_type Forwarding.to_root t.pb_buffer);
      } in
      let relabelled : Quiet s u =
        resized q u.pb_buffer
          (length-overlay header_size encoded.bytes _ ∙ length-set t.pb_buffer 2 1) in
      if-Ends (Quiet s) encoded.status
        (and_then (print_loop (size + 3) u) (λ v. some (write_parent size v))) (some u)
        (and_then-Ends (Quiet s) (Quiet s) (print_loop (size + 3) u)
          (λ v. some (write_parent size v)) (print_loop-Quiet (size + 3) s u relabelled)
          (λ v r. write_parent-Quiet size s v r))
        relabelled

  after_decode-Quiet :
      (len : ℕ) (decoded : Option RespirMeshInfo) (s t : EspOld)
      → Quiet s t
      → Ends (Quiet s) (after_decode env len decoded t)
  after_decode-Quiet len none s t q = q
  after_decode-Quiet len (some m) s t q =
      and_then-Ends (Quiet s) (Quiet s) (print_loop (len + 10) t) _
        (print_loop-Quiet (len + 10) s t q)
        (λ v r.
          if-Ends (Quiet s) (read Field.forwarding_type v.pb_buffer == Forwarding.to_parent_to_root)
            (forward_topo env m v) (some v) (forward_topo-Quiet m s v r) r)

  handle_mesh_topo-Quiet :
      (bytes : List ℕ) (len : ℕ) (s : EspOld) → Ends (Quiet s) (handle_mesh_topo env bytes len s)
  unfolding handle_mesh_topo
  handle_mesh_topo-Quiet bytes len s =
      and_then-Ends (Quiet s) (Quiet s) (print_loop (len + 10) s) _
        (print_loop-Quiet (len + 10) s s (Quiet-refl s))
        (λ t q.
          and_then-Ends (Quiet s) (Quiet s) (print_loop (len + 10) t) _
            (print_loop-Quiet (len + 10) s t q)
            (λ u r.
              after_decode-Quiet len
                (env.decode_info (drop header_size bytes) (packet_data_len len)) s
                (record u { pb_buffer = overwrite (take header_size bytes) u.pb_buffer })
                (resized r _ (length-overwrite (take header_size bytes) u.pb_buffer))))

  count_pong-Quiet :
      (decoded : Option RespirMeshInfo) (s : EspOld) → Quiet s (count_pong env decoded s)
  count_pong-Quiet none s = Quiet-refl s
  count_pong-Quiet (some m) s =
      let counted : Quiet s
          (record s { succesfull_pong_from_server = u16 (s.succesfull_pong_from_server + 1) }) =
        record { crated = refl; need = refl; started = refl; buffer = refl; slots = refl } in
      ground (arith, counted, Quiet-refl s)

  handle_ping_pong-Quiet :
      (bytes : List ℕ) (len : ℕ) (s : EspOld) → Quiet s (handle_ping_pong env bytes len s)
  unfolding handle_ping_pong
  handle_ping_pong-Quiet bytes len s = count_pong-Quiet (env.decode_info bytes len) s

  pub data_recv-Quiet :
      (bytes : List ℕ) (len : ℕ) (s : EspOld) → Ends (Quiet s) (data_recv env bytes len s)
  unfolding data_recv
  data_recv-Quiet bytes len s = ground (
    arith,
    handle_mesh_topo-Quiet bytes len s,
    handle_ping_pong-Quiet (drop header_size bytes) (packet_data_len len) s,
    calling-Quiet (Call.parent_write (take len bytes) ∷ []) s refl,
    Quiet-refl s,
  )

module _ (env : Env) (lib : Libraries) where
  pub rem_time_sync_callback-Quiet : (s : EspOld) → Quiet s (rem_time_sync_callback env lib s)
  unfolding rem_time_sync_callback
  rem_time_sync_callback-Quiet s =
      let t = ensure_parent_connected lib s in
      let encoded = lib.encode_time_sync (time_request env lib) (pb_buffer_size - header_size) in
      let size = length encoded.bytes + header_size in
      let buffer =
        overlay header_size encoded.bytes
          (label Forwarding.to_root Protobuf.timesync t.pb_buffer) in
      let filled : Quiet s (record t { pb_buffer = buffer }) =
        resized (ensure_parent_connected-Quiet lib s) buffer
          (length-assembled Forwarding.to_root Protobuf.timesync encoded.bytes t.pb_buffer) in
      ground (arith, filled, write_parent-Quiet size s (record t { pb_buffer = buffer }) filled)
