-- ===== src/Looper.antt =====
-- RemCppCommon/TaskLooper.hpp and TaskLooper.cpp: the timer that paces every periodic task.
-- `clock n` is what the n-th call of `RemHardware::time_milis` returns; an operation takes the
-- number of calls made so far and returns it with its own calls counted.
pub mod Spacing
pub mod Cycle
mod Tests
use respir_mesh.Base.{ℕ, ◌+◌, ◌-◌, ◌^◌, Bool, true, false, ◌&&◌, ltb, u16, u32, if◌then◌else◌}

-- `remHw` is the pointer to the hardware: all that the code asks of it is whether it is null.
pub record TaskLooper : Type 0 where
  pub has_hw : Bool
  pub next_ts : ℕ
  pub tl_interval : ℕ

abbrev pub tli_slow : ℕ
tli_slow = 40000

abbrev pub tli_norm : ℕ
tli_norm = 20000

abbrev pub tli_fast : ℕ
tli_fast = 10000

-- `next_ts = -1` in a `uint32_t`.
unfoldable pub stop : TaskLooper → TaskLooper
stop l = record l { next_ts = 2 ^ 32 - 1 }

-- The constructor; the loopers are static objects or members of such, so `remHw` is null.
unfoldable pub new : TaskLooper
unfolding stop
new = stop (record { has_hw = false; next_ts = 0; tl_interval = 0 })

module _ (clock : ℕ → ℕ) where
  -- The three conjuncts are tested from the left: the clock is read only if it comes to the third,
  -- and once more if the task is due.
  unfoldable pub check : TaskLooper → ℕ → Bool × TaskLooper × ℕ
  check l reads =
      if ltb 0 l.next_ts && l.has_hw
      then if ltb l.next_ts (u32 (clock reads))
        then (true, record l { next_ts = u32 (u32 (clock (reads + 1)) + l.tl_interval) }, reads + 2)
        else (false, l, reads + 1)
      else (false, l, reads)

  unfoldable pub start : TaskLooper → ℕ → TaskLooper × ℕ
  unfolding stop
  start l reads =
      if l.has_hw
      then (record l { next_ts = u32 (u32 (clock reads) + l.tl_interval) }, reads + 1)
      else (stop l, reads)

  unfoldable pub now : TaskLooper → ℕ → TaskLooper × ℕ
  unfolding stop
  now l reads =
      if l.has_hw then (record l { next_ts = u32 (clock reads) }, reads + 1) else (stop l, reads)

  -- The argument is a `uint16_t`.
  unfoldable pub set_interval : ℕ → TaskLooper → ℕ → TaskLooper × ℕ
  unfolding start
  set_interval milis l reads = start (record l { tl_interval = u16 milis }) reads

  unfoldable pub set_slow : TaskLooper → ℕ → TaskLooper × ℕ
  unfolding start
  set_slow l reads = start (record l { tl_interval = u16 tli_slow }) reads

  unfoldable pub set_norm : TaskLooper → ℕ → TaskLooper × ℕ
  unfolding start
  set_norm l reads = start (record l { tl_interval = u16 tli_norm }) reads

  unfoldable pub set_fast : TaskLooper → ℕ → TaskLooper × ℕ
  unfolding start
  set_fast l reads = start (record l { tl_interval = u16 tli_fast }) reads

  -- `begin`, given the pointer to the hardware object, which is not null.
  unfoldable pub begin : TaskLooper → ℕ → TaskLooper × ℕ
  unfolding set_norm
  begin l reads = set_norm (record l { has_hw = true }) reads
