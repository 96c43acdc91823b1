-- ===== src/Looper/Cycle.antt =====
-- When an armed `TaskLooper` comes due, also across the wrap of the 32-bit clock.
use respir_mesh.Base.{ℕ, ◌+◌, ◌^◌, ◌≤◌, ◌<◌, ◌≡◌, refl, true, List, [], ◌∷◌, ◌↔◌, arith, u16}
use respir_mesh.Looper.{TaskLooper, new, check, start, now, set_interval}
use respir_mesh.Looper.Spacing.{fire_times}

module _ (clock : ℕ → ℕ) (milis : ℕ) (l : TaskLooper) (reads later : ℕ) (hw : l.has_hw ≡ true) where
  -- A looper that has its hardware and is armed with an interval comes due at a later check exactly
  -- when more than the interval has passed, provided that the time stamp is not zero and does not
  -- pass the end of the 32-bit clock.
  pub set_interval-check :
      clock reads + u16 milis < 2 ^ 32
      → 0 < clock reads + u16 milis
      → clock later < 2 ^ 32
      → ((check clock (set_interval clock milis l reads).0 later).0 ≡ true)
        ↔ (clock reads + u16 milis < clock later)
  unfolding set_interval check
  set_interval-check fits pos small = ground arith

  -- If the interval carries the time stamp past the end of the 32-bit clock, the task is due at
  -- once: at every later reading that is not below the time of arming.
  pub set_interval-check_wrap :
      clock reads < 2 ^ 32
      → 2 ^ 32 < clock reads + u16 milis
      → clock reads ≤ clock later
      → clock later < 2 ^ 32
      → (check clock (set_interval clock milis l reads).0 later).0 ≡ true
  unfolding set_interval check
  set_interval-check_wrap small over after fits = ground arith

zero-fire_times :
    (clock : ℕ → ℕ) (ks : List ℕ) (l : TaskLooper) (reads : ℕ)
    → l.next_ts ≡ 0
    → fire_times clock ks l reads ≡ []
unfolding fire_times check
zero-fire_times clock [] l reads z = refl
zero-fire_times clock (k ∷ ks) l reads z = ground (arith, zero-fire_times clock ks l (reads + k) z)

-- `now` at the reading 0 does not make the task due: the time stamp 0 counts as unset, and the
-- task never runs.
pub now-fire_times_zero :
    (clock : ℕ → ℕ) (ks : List ℕ) (l : TaskLooper) (reads : ℕ)
    → l.has_hw ≡ true
    → clock reads ≡ 0
    → fire_times clock ks (now clock l reads).0 (now clock l reads).1 ≡ []
unfolding now
now-fire_times_zero clock ks l reads hw z =
    zero-fire_times clock ks (now clock l reads).0 (now clock l reads).1 (ground arith)

-- Without hardware every way of arming the looper leaves it stopped, as it was constructed.
pub start-no_hw :
    (clock : ℕ → ℕ) (milis reads : ℕ)
    → ((start clock new reads).0 ≡ new)
      × ((now clock new reads).0 ≡ new)
      × ((set_interval clock milis new reads).0.next_ts ≡ new.next_ts)
unfolding start now set_interval new
start-no_hw clock milis reads = (refl, refl, refl)
