-- ===== src/EspOld/Underflow.antt =====
-- What a second call of `cliect_disconnected` for the same child does to the old sketch.
use respir_mesh.EspOld.State.{EspOld, Libraries, max_ap_clients}
use respir_mesh.EspOld.Children.{
  client_connected, cliect_disconnected, remove_child, index_of, shift,
}
use respir_mesh.EspOld.Registry.{Event, run}
use respir_mesh.Base.{
  ◌∙◌, ℕ, ◌<◌, List, [], ◌∷◌, some, false, ◌≡◌, refl, arith, map, inl, inr, ◌==◌, ltb, set, length,
  Bool-cases, ==_refl,
}

module _ (lib : Libraries) where
  -- A count that leaves no room for a child.
  IsFull : EspOld → EspOld → Type 0
  IsFull s t = (t.ch_clients ≡ s.ch_clients) × (t.ch_clients_cnt ≡ 255)

  client_connected-IsFull :
      (d : ℕ) (s : EspOld) → s.ch_clients_cnt ≡ 255 → IsFull s (client_connected lib d s)
  unfolding client_connected IsFull
  client_connected-IsFull d s full = elim (Bool-cases (d == 0)) [
    | inl nobody ↦ rw nobody (refl, full)
    | inr someone ↦ elim (Bool-cases (lib.is_parent d)) [
      | inl parent ↦ rw (someone, parent) (refl, full)
      | inr child ↦
          let taken : ltb s.ch_clients_cnt max_ap_clients ≡ false = ground arith in
          rw (someone, child, taken) (refl, full)
    ]
  ]

  run-IsFull :
      (ds : List ℕ) (s : EspOld)
      → s.ch_clients_cnt ≡ 255
      → (t : EspOld) × (run lib (map Event.connected ds) s ≡ some t) × IsFull s t
  unfolding run IsFull
  run-IsFull [] s full = (s, refl, (refl, full))
  run-IsFull (d ∷ ds) s full =
      let step = client_connected-IsFull d s full in
      let later = run-IsFull ds (client_connected lib d s) step.1 in
      (later.0, later.1, (later.2.0 ∙ step.0, later.2.1))

  -- If the only child is reported to have disconnected twice, its stale entry is found again and the
  -- count goes from 0 to 255: from then on no client that connects is taken in, however many do.
  pub disconnected_twice :
      (c : ℕ) (ds : List ℕ) (s : EspOld)
      → 0 < c
      → lib.is_parent c ≡ false
      → s.ch_clients_cnt ≡ 0
      → 0 < length s.ch_clients
      → (t : EspOld) × (run lib
            (Event.connected c
              ∷ Event.disconnected c
              ∷ Event.disconnected c
              ∷ map Event.connected ds)
            s
          ≡ some t)
        × (t.ch_clients ≡ set s.ch_clients 0 c)
        × (t.ch_clients_cnt ≡ 255)
  unfolding IsFull run client_connected cliect_disconnected remove_child index_of shift
  disconnected_twice c ds s pos child empty room =
      let someone : (c == 0) ≡ false = ground arith in
      let front = first s.ch_clients room in
      let r = run-IsFull ds _ refl in
      rw (someone, child, empty, front) (rw front (r.0, r.1, r.2.0, r.2.1))
    where
      first : (xs : List ℕ) → 0 < length xs → index_of c (set xs 0 c) ≡ some 0
      first [] h = absurd (omega arith)
      first (x ∷ xs) h = rw (==_refl c) refl
