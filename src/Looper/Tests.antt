-- ===== src/Looper/Tests.antt =====
-- Runs of the timer at concrete clocks.
use respir_mesh.Base.{min, ℕ, ◌+◌, ◌*◌, ◌<◌, ◌≡◌, refl, ◌↔◌, true, [], ◌∷◌, arith}
use respir_mesh.Looper.{TaskLooper, check, set_interval}
use respir_mesh.Looper.Spacing.{fire_times, fire_times-SpacedAfter, SpacedAfter}
use respir_mesh.Looper.Cycle.{set_interval-check, set_interval-check_wrap}

-- Readings half a second apart.
abbrev ticking : ℕ → ℕ
ticking n = 100 + n * 500

abbrev bounded : ℕ → ℕ
bounded n = min (n * 500) 9000

abbrev armed : TaskLooper
armed = record { has_hw = true; next_ts = 1000; tl_interval = 1000 }

fires_twice : fire_times ticking (0 ∷ 0 ∷ 0 ∷ 0 ∷ 0 ∷ 0 ∷ 0 ∷ []) armed 0 ≡ 1100 ∷ 3100 ∷ []
unfolding fire_times check
fires_twice = refl

fire_times-SpacedAfter_example :
    SpacedAfter 1000 400 (fire_times bounded (1 ∷ 3 ∷ []) (record armed { next_ts = 400 }) 0)
fire_times-SpacedAfter_example =
    fire_times-SpacedAfter bounded 1000 (λ n. omega arith) (λ n. omega arith) (1 ∷ 3 ∷ [])
      (record armed { next_ts = 400 }) 0 refl

set_interval-check_example :
    ((check ticking (set_interval ticking 1000 armed 0).0 3).0 ≡ true) ↔ (1100 < 1600)
set_interval-check_example =
    set_interval-check ticking 1000 armed 0 3 refl (omega arith) (omega arith) (omega arith)

-- Half a second before the wrap.
abbrev late : ℕ → ℕ
late n = 4294966796

set_interval-check_wrap_example : (check late (set_interval late 1000 armed 0).0 1).0 ≡ true
set_interval-check_wrap_example =
    set_interval-check_wrap late 1000 armed 0 1 refl (omega arith) (omega arith) (omega arith)
      (omega arith)
