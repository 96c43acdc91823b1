-- ===== src/EspOld/Timers.antt =====
-- What the timers of the old sketch send to the parent, and the times that an answer gives.
use respir_mesh.EspOld.State.{calling, Call, EspOld, Libraries, Task, ping_med}
use respir_mesh.EspOld.Packets.{
  want_access_point, slow_down, ensure_parent_connected, handle_time_sync, is_topo_run, minus,
  pb_buffer_size, ping_forwarding, ping_protobuf, rem_ping_pong_callback, time_request,
}
use mathlib.Core.Path.{ap₂}
use respir_mesh.Router.Report.{topo_body}
use respir_mesh.Node.Env.{Encodes, Env}
use respir_mesh.Wire.Assembly.{packet_of}
use respir_mesh.Wire.Forwarding
use respir_mesh.Wire.Header.{label, header_size, set_size}
use respir_mesh.Wire.Messages.{info_init_default}
use respir_mesh.Wire.Protobuf
use respir_mesh.Wire.Unsized.{set_size-unsized, unsized}
use respir_mesh.Base.{
  true, false, ◌%◌, or-false, or-true, overlay, append-nil, sym, ℕ, ◌+◌, ◌-◌, ◌^◌, ◌≤◌, ◌<◌, List,
  [], ◌∷◌, ◌++◌, some, not, ◌&&◌, ◌||◌, ◌==◌, ltb, if◌then◌else◌, ◌≡◌, refl, ◌∙◌, ap, arith, u32,
  length, inl, inr, Bool-cases,
}

-- The calls of a timer before it writes, and those of the ping timer after it.
abbrev pub connecting : Libraries → EspOld → List Call
connecting lib s =
    if not lib.parent_connected && not lib.parent_connecting
    then Call.parent_connect s.parent_server_ip ∷ []
    else []

abbrev pub pacing : Libraries → List Call
pacing lib =
    if lib.run_counter == 10 then Call.set_interval Task.rem_ping_pong ping_med ∷ [] else []

-- The packet of a run: an odd one reports the node to its parent, an even one is a ping for the root.
abbrev pub packet_of_run : Env → ℕ → List ℕ
packet_of_run env run =
    if run % 2 == 0
    then packet_of Forwarding.to_root Protobuf.ping
        (topo_body env (record { target_id = 0; source_id = env.device_id; kind = Protobuf.ping }))
    else packet_of Forwarding.to_parent_to_root Protobuf.mesh_topology (
        topo_body env
          (record { target_id = 0; source_id = env.device_id; kind = Protobuf.mesh_topology }))

-- What `ensure_parent_connected` leaves alone, but for its call.
pub record Ensured (lib : Libraries) (s t : EspOld) : Type 0 where
  pub calls : t.calls ≡ s.calls ++ connecting lib s
  pub pb_buffer : t.pb_buffer ≡ s.pb_buffer
  pub need : t.need_to_create_access_point ≡ s.need_to_create_access_point
  pub crated : t.access_point_crated ≡ s.access_point_crated

ensure_parent_connected-Ensured :
    (lib : Libraries) (s : EspOld) → Ensured lib s (ensure_parent_connected lib s)
unfolding ensure_parent_connected
ensure_parent_connected-Ensured lib s =
    elim (Bool-cases (not lib.parent_connected && not lib.parent_connecting)) [
      | inl down ↦
          rw down (record { calls = rw down refl; pb_buffer = refl; need = refl; crated = refl })
      | inr up ↦ rw up (record {
        calls = rw up (sym (append-nil s.calls));
        pb_buffer = refl;
        need = refl;
        crated = refl;
      })
    ]

slow_down-calls : (lib : Libraries) (s : EspOld) → (slow_down lib s).calls ≡ s.calls ++ pacing lib
slow_down-calls lib s = elim (Bool-cases (lib.run_counter == 10)) [
  | inl tenth ↦ rw tenth refl
  | inr other ↦ rw other (sym (append-nil s.calls))
]

slow_down-flags :
    (lib : Libraries) (s : EspOld)
    → ((slow_down lib s).need_to_create_access_point ≡ s.need_to_create_access_point)
      × ((slow_down lib s).access_point_crated ≡ s.access_point_crated)
slow_down-flags lib s = elim (Bool-cases (lib.run_counter == 10)) [
  | inl tenth ↦ rw tenth (refl, refl)
  | inr other ↦ rw other (refl, refl)
]

want_access_point-need :
    (lib : Libraries) (s : EspOld)
    → ((want_access_point lib s).need_to_create_access_point
        ≡ (s.need_to_create_access_point || (not s.access_point_crated && ltb 10 lib.run_counter)))
      × ((want_access_point lib s).calls ≡ s.calls)
want_access_point-need lib s =
    elim (Bool-cases (not s.access_point_crated && ltb 10 lib.run_counter)) [
      | inl wanted ↦ rw wanted (sym (or-true s.need_to_create_access_point), refl)
      | inr not_yet ↦ rw not_yet (sym (or-false s.need_to_create_access_point), refl)
    ]

module _ (env : Env) (enc : Encodes env) (lib : Libraries) where
  packet_of-run :
      packet_of (ping_forwarding lib) (ping_protobuf lib) (
        topo_body env
          (record info_init_default { source_id = env.device_id; kind = ping_protobuf lib }))
      ≡ packet_of_run env lib.run_counter
  packet_of-run = elim (Bool-cases (is_topo_run lib)) [
    | inl topo ↦ let odd : (lib.run_counter % 2 == 0) ≡ false = ground arith in rw (topo, odd) refl
    | inr ping ↦ let even : (lib.run_counter % 2 == 0) ≡ true = ground arith in rw (ping, even) refl
  ]

  -- If nanopb keeps its promises, each run of the ping timer writes one packet to the parent, which
  -- is connected before if it has to be: but for the size in its header it is, on an odd
  -- run, a topology message for the parent and the root, on an even one a ping for the root, with the
  -- id of this node as the source and 0 as the target. The tenth run slows the timer
  -- down, and a later one asks for the access point if there is none.
  pub rem_ping_pong_callback-writes :
      (s : EspOld)
      → length s.pb_buffer ≡ pb_buffer_size
      → let t = rem_ping_pong_callback env lib s in
        (p : List ℕ) × (t.calls
          ≡ ((s.calls ++ connecting lib s) ++ Call.parent_write p ∷ []) ++ pacing lib)
        × (set_size (length p) p ≡ packet_of_run env lib.run_counter)
        × (t.need_to_create_access_point ≡ (
            s.need_to_create_access_point || (not s.access_point_crated && ltb 10 lib.run_counter)))
  unfolding rem_ping_pong_callback ensure_parent_connected
  rem_ping_pong_callback-writes s sized =
      let e = ensure_parent_connected-Ensured lib s in
      let before = ensure_parent_connected lib s in
      let message = record info_init_default {
        source_id = env.device_id;
        kind = ping_protobuf lib;
      } in
      let body = topo_body env message in
      let good = enc.info_status message 59 (omega arith) in
      let room : length body ≤ 59 = enc.info_room message 59 in
      let p = unsized (ping_forwarding lib) (ping_protobuf lib) body before.pb_buffer in
      let u = calling (Call.parent_write p ∷ []) (record before {
        pb_buffer =
            overlay header_size body
              (label (ping_forwarding lib) (ping_protobuf lib) before.pb_buffer);
      }) in
      let flags = slow_down-flags lib u in
      let wanted = want_access_point-need lib (slow_down lib u) in
      (
        p,
        rw good (
            wanted.1
            ∙ slow_down-calls lib u
            ∙ ap (λ cs. (cs ++ Call.parent_write p ∷ []) ++ pacing lib) e.calls),
        set_size-unsized (ping_forwarding lib) (ping_protobuf lib) body before.pb_buffer
              (omega (arith, ap length e.pb_buffer, sized)) (omega arith)
            ∙ packet_of-run,
        rw good (
            wanted.0
            ∙ ap₂ (λ need crated. need || (not crated && ltb 10 lib.run_counter)) (flags.0 ∙ e.need)
                (flags.1 ∙ e.crated)),
      )

-- The answer to a time request gives the time since the request was sent, the time that the server
-- took for it, and their difference, also where a clock of 32 bits has started again in between: the
-- sketch and the server each read their own clock twice, less than 2^32 microseconds apart.
pub handle_time_sync-elapsed :
    (env : Env) (before after : Libraries) (bytes : List ℕ) (len elapsed arrived taken : ℕ)
    → elapsed < 2 ^ 32
    → taken ≤ elapsed
    → after.micros ≡ before.micros + elapsed
    → after.decode_time_sync bytes len
      ≡ some (record (time_request env before) {
        response_arrive_time = u32 arrived;
        response_sent_time = u32 (arrived + taken);
      })
    → handle_time_sync after bytes len
      ≡ some (record {
        request_duration = elapsed;
        response_duration = taken;
        round_trip_duration = elapsed - taken;
      })
unfolding handle_time_sync
handle_time_sync-elapsed env before after bytes len elapsed arrived taken small less later decoded =
    let request : minus (u32 after.micros) (u32 before.micros) ≡ elapsed = omega arith in
    let response : minus (u32 (arrived + taken)) (u32 arrived) ≡ taken = omega arith in
    let trip : minus elapsed taken ≡ elapsed - taken = omega arith in
    rw decoded (rw (request, response, trip) refl)
