-- ===== src/Router/Periodic.antt =====
-- When `RemRouter::update` sends the topology report.
use respir_mesh.Base.{
  ◌∙◌, ap, false, ltb, zero, ◌≤◌, suc, ℕ, ◌+◌, ◌<◌, ◌≡◌, refl, true, List, ◌++◌, arith, length, u32,
}
use respir_mesh.Wire.Forwarding
use respir_mesh.Wire.Protobuf
use respir_mesh.Wire.Assembly.{packet_of}
use respir_mesh.Looper
use respir_mesh.Node.Env.{Env, Encodes}
use respir_mesh.Node.State.{Node}
use respir_mesh.Router.Selection.{deliveries}
use respir_mesh.Router.Topo.{internal_buffer_size, begin, update}
use respir_mesh.Router.Report.{topo_body, send_mesh_topo-Sends}

-- The packet that a node reports itself with.
abbrev pub report_of : Env → List ℕ
report_of env = packet_of Forwarding.to_parent_to_root Protobuf.mesh_topology (
    topo_body env
      (record { target_id = 0; source_id = env.device_id; kind = Protobuf.mesh_topology }))

update-due :
    (env : Env) (enc : Encodes env) (w : Node)
    → length w.router_buffer ≡ internal_buffer_size
    → (Looper.check env.clock w.mesh_topo_looper w.reads).0 ≡ true
    → (update env w).sent
      ≡ w.sent ++ deliveries (λ c. c.connected_to_root) w.objects (report_of env) w.channels
unfolding update
update-due env enc w sized due = rw due (send_mesh_topo-Sends env enc _ sized).0

-- So many updates, one after the other.
abbrev pub updates : Env → ℕ → Node → Node
updates env zero w = w
updates env (suc n) w = updates env n (update env w)

-- An update that does not find the clock past the time stamp reads it and does nothing else.
update-waits :
    (env : Env) (w : Node)
    → 0 < w.mesh_topo_looper.next_ts
    → w.mesh_topo_looper.has_hw ≡ true
    → u32 (env.clock w.reads) ≤ w.mesh_topo_looper.next_ts
    → update env w ≡ record w { reads = w.reads + 1 }
unfolding update Looper.check
update-waits env w armed hw early =
    let is_armed : ltb 0 w.mesh_topo_looper.next_ts ≡ true = ground arith in
    let waits : ltb w.mesh_topo_looper.next_ts (u32 (env.clock w.reads)) ≡ false = ground arith in
    rw (is_armed, hw, waits) refl

updates-wait :
    (env : Env) (n : ℕ) (w : Node)
    → 0 < w.mesh_topo_looper.next_ts
    → w.mesh_topo_looper.has_hw ≡ true
    → ((k : ℕ) → k < n → u32 (env.clock (w.reads + k)) ≤ w.mesh_topo_looper.next_ts)
    → updates env n w ≡ record w { reads = w.reads + n }
updates-wait env zero w armed hw early = ap (λ r. record w { reads = r }) (omega arith)
updates-wait env (suc n) w armed hw early =
    let v = record w { reads = w.reads + 1 } in
    let here : w.reads + 0 ≡ w.reads = omega arith in
    let shift : (k : ℕ) → w.reads + suc k ≡ v.reads + k = λ k. omega arith in
    ap (updates env n) (update-waits env w armed hw (rw (← here) (early 0 (omega arith))))
    ∙ updates-wait env n v armed hw (λ k small. rw (← shift k) (early (suc k) (omega arith)))
    ∙ ap (λ r. record w { reads = r }) (omega arith)

-- What `begin` leaves of the timer and of the readings of the clock.
begin_lem :
    (env : Env) (w : Node)
    → ((begin env w).mesh_topo_looper.has_hw ≡ true)
      × ((begin env w).mesh_topo_looper.next_ts ≡ u32 (env.clock (w.reads + 2)))
      × ((begin env w).reads ≡ w.reads + 3)
unfolding begin Looper.begin Looper.set_interval Looper.now
begin_lem env w = (refl, ap (λ r. u32 (env.clock r)) (omega arith), omega arith)

due_lem :
    (env : Env) (w : Node)
    → w.mesh_topo_looper.has_hw ≡ true
    → 0 < w.mesh_topo_looper.next_ts
    → w.mesh_topo_looper.next_ts < u32 (env.clock w.reads)
    → (Looper.check env.clock w.mesh_topo_looper w.reads).0 ≡ true
unfolding Looper.check
due_lem env w hw armed past =
    let is_armed : ltb 0 w.mesh_topo_looper.next_ts ≡ true = ground arith in
    let late : ltb w.mesh_topo_looper.next_ts (u32 (env.clock w.reads)) ≡ true = ground arith in
    rw (is_armed, late) (rw hw refl)

module _ (env : Env) (enc : Encodes env) (w : Node)
    (sized : length w.router_buffer ≡ internal_buffer_size) where
  -- After `begin`, any number of `update` calls that do not find the clock past the reading at which
  -- `begin` ended send nothing, and the first one that finds it past that reading sends the report, once
  -- to each channel connected to the root: if nanopb keeps its promises, the buffer of the router has
  -- its size, and the reading is not 0.
  pub update-begin_reports :
      (n : ℕ)
      → 0 < u32 (env.clock (w.reads + 2))
      → ((k : ℕ) → k < n → u32 (env.clock (w.reads + 3 + k)) ≤ u32 (env.clock (w.reads + 2)))
      → u32 (env.clock (w.reads + 2)) < u32 (env.clock (w.reads + 3 + n))
      → let v = updates env n (begin env w) in
        (v.sent ≡ w.sent)
        × ((update env v).sent
            ≡ w.sent ++ deliveries (λ c. c.connected_to_root) w.objects (report_of env) w.channels)
  unfolding begin
  update-begin_reports n pos early past =
      let b = begin env w in
      let v = record b { reads = b.reads + n } in
      let (hw, stamp, reads) = begin_lem env w in
      let armed : 0 < b.mesh_topo_looper.next_ts = rw stamp pos in
      let waited : updates env n b ≡ v =
        updates-wait env n b armed hw (λ k small. rw (stamp, reads) (early k small)) in
      let due = due_lem env v hw armed (rw (stamp, reads) past) in
      let report = update-due env enc v sized due in rw waited (refl, report)
