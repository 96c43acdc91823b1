-- ===== src/Looper/Spacing.antt =====
-- How often a task can run: the times at which a sequence of `TaskLooper::check` calls is due.
use respir_mesh.Base.{
  ◌⊎◌, ℕ, ◌+◌, ◌^◌, ◌≤◌, ◌<◌, ◌≡◌, refl, Bool, true, false, List, [], ◌∷◌, arith, u32,
  if◌then◌else◌, inl, inr,
}
use respir_mesh.Looper.{TaskLooper, check, stop}

module _ (clock : ℕ → ℕ) where
  -- The readings at which the task runs, for a caller that reads the clock `k` times for other
  -- purposes before the check, for each `k` of the list.
  unfoldable pub fire_times : List ℕ → TaskLooper → ℕ → List ℕ
  fire_times [] l reads = []
  fire_times (k ∷ ks) l reads =
      let (due, l', reads') = check clock l (reads + k) in
      let rest = fire_times ks l' reads' in if due then clock (reads + k) ∷ rest else rest

-- Each time is later than the bound, and each further one more than `gap` after the one before.
abbrev pub SpacedAfter : ℕ → ℕ → List ℕ → Type 0
SpacedAfter gap bound [] = Unit {0}
SpacedAfter gap bound (t ∷ ts) = (bound < t) × SpacedAfter gap (t + gap) ts

SpacedAfter-mono : (gap b c : ℕ) (ts : List ℕ) → b ≤ c → SpacedAfter gap c ts → SpacedAfter gap b ts
SpacedAfter-mono gap b c [] h s = tt
SpacedAfter-mono gap b c (t ∷ ts) h s = (omega arith, s.1)

-- A check either leaves the looper as it is, or finds the task due and arms the next round.
abbrev pub Checked : (ℕ → ℕ) → TaskLooper → ℕ → Bool × TaskLooper × ℕ → Type 0
Checked clock l reads r =
    ((r.0 ≡ false) × (r.1 ≡ l))
    ⊎ ((r.0 ≡ true)
        × (l.next_ts < u32 (clock reads))
        × (r.1 ≡ record l { next_ts = u32 (u32 (clock (reads + 1)) + l.tl_interval) }))

pub check-Checked :
    (clock : ℕ → ℕ) (l : TaskLooper) (reads : ℕ) → Checked clock l reads (check clock l reads)
unfolding check
check-Checked clock l reads = ground arith

module _ (clock : ℕ → ℕ) (gap : ℕ) (mono : (n : ℕ) → clock n ≤ clock (n + 1))
    (fits : (n : ℕ) → clock n + gap < 2 ^ 32) where
  -- As long as the 32-bit clock does not pass its end, the task runs no more often than its
  -- interval allows: every run comes after the time stamp that the looper holds, and every further
  -- run more than the interval after the one before, however often `check` is called and the clock
  -- is read in between.
  pub fire_times-SpacedAfter :
      (ks : List ℕ) (l : TaskLooper) (reads : ℕ)
      → l.tl_interval ≡ gap
      → SpacedAfter gap l.next_ts (fire_times clock ks l reads)
  unfolding fire_times
  fire_times-SpacedAfter [] l reads e = tt
  fire_times-SpacedAfter (k ∷ ks) l reads e =
      let r = check clock l (reads + k) in
      elim (check-Checked clock l (reads + k)) [
        | inl (idle, same) ↦
            let rest : SpacedAfter gap l.next_ts (fire_times clock ks r.1 r.2) =
              rw same (fire_times-SpacedAfter ks l r.2 e) in
            rw idle rest
        | inr (due, late, next) ↦
            let armed : TaskLooper = record l {
              next_ts = u32 (u32 (clock (reads + k + 1)) + l.tl_interval);
            } in
            let rest : SpacedAfter gap armed.next_ts (fire_times clock ks r.1 r.2) =
              rw next (fire_times-SpacedAfter ks armed r.2 e) in
            rw due (
              ground (arith, fits (reads + k)),
              SpacedAfter-mono gap (clock (reads + k) + gap) armed.next_ts _
                  (ground (arith, mono (reads + k), fits (reads + k + 1), fits (reads + k))) rest,
            )
      ]

-- A stopped looper never runs its task again, whatever the clock shows.
pub fire_times-stop :
    (clock : ℕ → ℕ) (ks : List ℕ) (l : TaskLooper) (reads : ℕ)
    → fire_times clock ks (stop l) reads ≡ []
unfolding fire_times check stop
fire_times-stop clock [] l reads = refl
fire_times-stop clock (k ∷ ks) l reads =
    ground
      (arith, fire_times-stop clock ks l (reads + k), fire_times-stop clock ks l (reads + k + 1))
