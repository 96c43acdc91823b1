-- ===== src/ClientR1/Reporting.antt =====
-- The reports of the old Linux node.
use respir_mesh.ClientR1.{
  ClientR1, initial, main_round, main_rounds, print_loop, send_encoded, send_mesh_topo,
  topo_of_self,
}
use respir_mesh.Router.Report.{topo_body}
use respir_mesh.Node.Env.{Encodes, Env}
use respir_mesh.Wire.Assembly.{length-assembled, packet_of}
use respir_mesh.Wire.Unsized.{set_size-unsized}
use respir_mesh.Wire.Forwarding
use respir_mesh.Wire.Header.{header_size, label, set_size}
use respir_mesh.Wire.Protobuf
use mathlib.Core.Option
use respir_mesh.Base.{
  All, All-append, ◌≢◌, inr, inl, ◌==◌, length-append, ◌%◌, take, Bool-cases, overlay, ltb, true, ℕ,
  zero, suc, ◌+◌, ◌/◌, ◌^◌, ◌≤◌, ◌<◌, List, [], ◌∷◌, ◌++◌, some, ◌≡◌, refl, ◌∙◌, arith, length, leb,
  for_u8-idle,
}

-- Stamped with its size, the packet is addressed to the parent for the root, and is a topology message
-- with the id of this node as the source and 0 as the target.
abbrev pub IsReport : Env → List ℕ → Type 0
IsReport env p =
    set_size (length p) p
    ≡ packet_of Forwarding.to_parent_to_root Protobuf.mesh_topology (
        topo_body env
          (record { target_id = 0; source_id = env.device_id; kind = Protobuf.mesh_topology }))

module _ (env : Env) (enc : Encodes env) where
  -- What one report leaves.
  record Reported (c t : ClientR1) : Type 0 where
    pub counter : t.action_counter ≡ c.action_counter
    pub sized : length t.pb_buffer ≡ 64
    pub more : length t.sent ≡ length c.sent + 1
    pub reports : All (IsReport env) c.sent → All (IsReport env) t.sent

  send_mesh_topo-Reported :
      (c : ClientR1)
      → length c.pb_buffer ≡ 64
      → (t : ClientR1) × (send_mesh_topo env c ≡ some t) × Reported c t
  unfolding send_mesh_topo send_encoded print_loop
  send_mesh_topo-Reported c sized =
      let body = topo_body env (topo_of_self env) in
      let good = enc.info_status (topo_of_self env) 59 (omega arith) in
      let room : length body ≤ 59 = enc.info_room (topo_of_self env) 59 in
      let ends : leb (length body + header_size + 0) 255 ≡ true = ground arith in
      let stamped =
        set_size-unsized Forwarding.to_parent_to_root Protobuf.mesh_topology body c.pb_buffer
          (omega (arith, sized)) (omega arith) in
      let buffer =
        overlay header_size body
          (label Forwarding.to_parent_to_root Protobuf.mesh_topology c.pb_buffer) in
      let p = take (length body + header_size) buffer in
      (
        record c { pb_buffer = buffer; sent = c.sent ++ p ∷ [] },
        rw (good, for_u8-idle (length body + header_size + 0), ends) refl,
        record {
          counter = refl;
          sized =
              length-assembled Forwarding.to_parent_to_root Protobuf.mesh_topology body c.pb_buffer
              ∙ sized;
          more = length-append c.sent (p ∷ []);
          reports = λ h. All-append (IsReport env) c.sent p h stamped;
        },
      )

  main_rounds_lem :
      (n : ℕ) (c : ClientR1)
      → length c.pb_buffer ≡ 64
      → c.action_counter + n < 2 ^ 31
      → (t : ClientR1) × (main_rounds env n c ≡ some t)
        × (length t.sent + (c.action_counter + 1) / 2
            ≡ length c.sent + (c.action_counter + n + 1) / 2)
        × (All (IsReport env) c.sent → All (IsReport env) t.sent)
  unfolding main_rounds main_round Option.bind
  main_rounds_lem zero c sized early = (c, refl, omega arith, λ h. h)
  main_rounds_lem (suc n) c sized early =
      let next = record c { action_counter = c.action_counter + 1 } in
      let runs : ltb (c.action_counter + 1) (2 ^ 31) ≡ true = ground arith in
      elim (Bool-cases ((c.action_counter + 1) % 2 == 1)) [
        | inl odd ↦
            let (u, ran, r) = send_mesh_topo-Reported next sized in
            let is_odd : (c.action_counter + 1) % 2 ≡ 1 = ground arith in
            let (t, ran_on, count, reports) =
              main_rounds_lem n u r.sized (omega (arith, r.counter)) in
            (
              t,
              rw (runs, odd, ran) ran_on,
              omega (arith, r.counter, r.more),
              λ h. reports (r.reports h),
            )
        | inr even ↦
            let is_even : (c.action_counter + 1) % 2 ≢ 1 = ground arith in
            let (t, ran_on, count, reports) = main_rounds_lem n next sized (omega arith) in
            (t, rw (runs, even) ran_on, omega arith, reports)
      ]

  -- If nanopb keeps its promises and no message arrives, the loop of `main` returns from any number of
  -- rounds below 2^31, has then sent to the parent one packet for every second round, the first
  -- included, and each of them is, but for the size, which is not stamped, a topology message for the
  -- root with the id of this node as the source and 0 as the target.
  pub main_rounds-IsReport :
      (n : ℕ)
      → n < 2 ^ 31
      → (t : ClientR1) × (main_rounds env n initial ≡ some t)
        × (length t.sent ≡ (n + 1) / 2)
        × All (IsReport env) t.sent
  main_rounds-IsReport n early =
      let (t, ran, count, reports) = main_rounds_lem n initial refl (omega arith) in
      (t, ran, omega arith, reports tt)
