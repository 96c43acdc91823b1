-- ===== src/EspOld/Registry.antt =====
-- The children of the old sketch against what they stand for: a list that is appended to while there
-- is room, and from which a client that disconnects is removed.
use respir_mesh.EspOld.State.{and_then, EspOld, Libraries, max_ap_clients}
use respir_mesh.EspOld.Children.{client_connected, cliect_disconnected, remove_child}
use respir_mesh.EspOld.Shifting.{
  contains, remove, index_of-contains, index_of-absent, contains-set, contains-shift, length-shift,
  take-set,
}
use mathlib.Core.Bool.{true≢false}
use respir_mesh.Base.{
  sym, ==_iff, length-take, ℕ, zero, suc, ◌+◌, ◌-◌, ◌≤◌, ◌<◌, List, [], ◌∷◌, ◌++◌, Option, some,
  true, false, ◌≡◌, refl, ◌∙◌, arith, ◌==◌, ◌||◌, ltb, if◌then◌else◌, u8, take, length, inl, inr,
  Bool-cases, length-set,
}

-- The two callbacks of the TCP library, with the client that they are called for.
pub data Event : Type 0 where
  connected disconnected : ℕ → Event

module _ (lib : Libraries) where
  -- The events one after the other, as the library calls the sketch.
  unfoldable pub run : List Event → EspOld → Option EspOld
  run [] s = some s
  run (Event.connected c ∷ events) s = run events (client_connected lib c s)
  run (Event.disconnected c ∷ events) s = and_then (cliect_disconnected lib c s) (run events)

  -- What an event means for the list of the children.
  unfoldable pub joined : ℕ → List ℕ → List ℕ
  joined c cs =
      if c == 0 || lib.is_parent c
      then cs
      else if ltb (length cs) max_ap_clients
      then cs ++ c ∷ []
      else cs

  unfoldable pub left : ℕ → List ℕ → List ℕ
  left c cs = if lib.is_parent c then cs else remove c cs

  unfoldable pub run_list : List Event → List ℕ → List ℕ
  unfolding joined left
  run_list [] cs = cs
  run_list (Event.connected c ∷ events) cs = run_list events (joined c cs)
  run_list (Event.disconnected c ∷ events) cs = run_list events (left c cs)

  -- The library calls `cliect_disconnected` only for the parent and for clients that are connected
  -- and have been given the callback.
  unfoldable pub AreCallbacks : List Event → List ℕ → Type 0
  unfolding joined left
  AreCallbacks [] cs = Unit {0}
  AreCallbacks (Event.connected c ∷ events) cs = AreCallbacks events (joined c cs)
  AreCallbacks (Event.disconnected c ∷ events) cs =
      (0 < c) × ((lib.is_parent c || contains c cs) ≡ true) × AreCallbacks events (left c cs)

  -- The array keeps its size, the count its bound, and the parent stays out of the array.
  pub record IsValid (s : EspOld) : Type 0 where
    pub stored : length s.ch_clients ≡ max_ap_clients
    pub room : s.ch_clients_cnt ≤ max_ap_clients
    pub no_parent : (p : ℕ) → 0 < p → lib.is_parent p ≡ true → contains p s.ch_clients ≡ false

  abbrev pub children : EspOld → List ℕ
  children s = take s.ch_clients_cnt s.ch_clients

  length-children : (s : EspOld) → IsValid s → length (children s) ≡ s.ch_clients_cnt
  length-children s v = omega (arith, length-take s.ch_clients_cnt s.ch_clients, v.stored, v.room)

  client_connected-joined :
      (c : ℕ) (s : EspOld)
      → IsValid s
      → IsValid (client_connected lib c s)
        × (children (client_connected lib c s) ≡ joined c (children s))
  unfolding client_connected joined
  client_connected-joined c s v = elim (Bool-cases (c == 0)) [
    | inl nobody ↦ rw nobody (v, refl)
    | inr someone ↦ elim (Bool-cases (lib.is_parent c)) [
      | inl parent ↦
          rw (someone, parent)
            (record { stored = v.stored; room = v.room; no_parent = v.no_parent }, refl)
      | inr child ↦ elim (Bool-cases (ltb s.ch_clients_cnt max_ap_clients)) [
        | inl free ↦
            let less : s.ch_clients_cnt < max_ap_clients = ground arith in
            let next : u8 (s.ch_clients_cnt + 1) ≡ suc s.ch_clients_cnt = omega arith in
            rw (someone, child, length-children s v, free, next)
              (
                record {
                  stored = length-set s.ch_clients s.ch_clients_cnt c ∙ v.stored;
                  room = omega arith;
                  no_parent = λ p pos parent.
                      contains-set p s.ch_clients_cnt c s.ch_clients (other p parent child)
                        (v.no_parent p pos parent);
                },
                take-set s.ch_clients_cnt c s.ch_clients (omega (arith, v.stored)),
              )
        | inr full ↦ rw (someone, child, length-children s v, full) (v, refl)
      ]
    ]
  ]
    where
      other : (p : ℕ) → lib.is_parent p ≡ true → lib.is_parent c ≡ false → (c == p) ≡ false
      other p parent child = elim (Bool-cases (c == p)) [
        | inl same ↦ let e : c ≡ p = (==_iff c p).0 same in absurd (grind arith)
        | inr different ↦ different
      ]

  cliect_disconnected-left :
      (c : ℕ) (s : EspOld)
      → 0 < c
      → (lib.is_parent c || contains c (children s)) ≡ true
      → IsValid s
      → (t : EspOld) × (cliect_disconnected lib c s ≡ some t)
        × IsValid t
        × (children t ≡ left c (children s))
  unfolding cliect_disconnected remove_child left
  cliect_disconnected-left c s pos listed v = elim (Bool-cases (lib.is_parent c)) [
    | inl parent ↦
        rw (index_of-absent c s.ch_clients (v.no_parent c pos parent), parent)
          (_, refl, record { stored = v.stored; room = v.room; no_parent = v.no_parent }, refl)
    | inr child ↦ leaves s.ch_clients_cnt refl child
  ]
    where
      leaves :
          (n : ℕ)
          → s.ch_clients_cnt ≡ n
          → lib.is_parent c ≡ false
          → (t : EspOld) × (cliect_disconnected lib c s ≡ some t)
            × IsValid t
            × (children t ≡ left c (children s))
      leaves zero e child =
          let nobody : contains c (children s) ≡ true = rw child at listed in
          absurd (true≢false (sym (rw e at nobody)))
      leaves (suc m) e child =
          let named : contains c (children s) ≡ true = rw child at listed in
          let found =
            index_of-contains c m s.ch_clients (rw e at named) (omega (arith, v.stored, v.room)) in
          let fits : ltb max_ap_clients (suc m) ≡ false = ground (arith, v.room) in
          let fewer : u8 (suc m + 255) ≡ m = omega (arith, v.room) in
          let rounds : suc m - 1 - found.0 ≡ m - found.0 = omega arith in
          rw (e, found.1, child, fits, fewer, rounds)
            (
              _,
              refl,
              record {
                stored = length-shift (m - found.0) found.0 s.ch_clients ∙ v.stored;
                room = omega (arith, v.room);
                no_parent = λ p pos parent.
                    contains-shift p (m - found.0) found.0 s.ch_clients pos
                      (v.no_parent p pos parent);
              },
              found.2,
            )

  -- From a valid table on, whatever the order in which clients connect and disconnect: no write
  -- leaves the array, the table stays valid, and the used part of the array holds, in their order,
  -- the clients that have connected while there was room for six and have not disconnected since.
  -- The parent is never among them. The library is taken to report the end of a connection only of
  -- the parent or of a listed child.
  pub run_refines :
      (events : List Event) (s : EspOld)
      → IsValid s
      → AreCallbacks events (children s)
      → (t : EspOld) × (run events s ≡ some t)
        × IsValid t
        × (children t ≡ run_list events (children s))
  unfolding run run_list AreCallbacks
  run_refines [] s v legal = (s, refl, v, refl)
  run_refines (Event.connected c ∷ events) s v legal =
      let step = client_connected-joined c s v in
      rw (← step.1) (run_refines events (client_connected lib c s) step.0 (rw step.1 legal))
  run_refines (Event.disconnected c ∷ events) s v (pos, listed, legal) =
      let step = cliect_disconnected-left c s pos listed v in
      rw (step.1, ← step.3) (run_refines events step.0 step.2 (rw step.3 legal))
