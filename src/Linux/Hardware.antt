-- ===== src/Linux/Hardware.antt =====
-- RemCppCommon/X86_64/X86LinuxHardware.hpp: the clock of a Linux node, over the milliseconds since the
-- epoch, and what its `sleep_milis` asks of the system, in microseconds. `device_id` is the field
-- `device_id` of `Env`.
use respir_mesh.Base.{ℕ, ◌+◌, ◌-◌, ◌^◌, ◌≡◌, u32, arith}

abbrev pub time_milis : ℕ → ℕ
time_milis since_epoch = u32 since_epoch

abbrev pub sleep_milis : ℕ → ℕ
sleep_milis duration = u32 duration

-- The difference of two readings in 32 bits is the time between them, as long as that fits.
pub time_milis-elapsed :
    (before elapsed : ℕ)
    → u32 (time_milis (before + elapsed) + 2 ^ 32 - time_milis before) ≡ u32 elapsed
time_milis-elapsed before elapsed = omega arith
