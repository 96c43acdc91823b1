-- ===== src/Wifi/Strongest.antt =====
-- The entry in front of a sorted array is the strongest of all that were sorted.
use respir_mesh.Wifi.Scan.{unset_ap}
use respir_mesh.Wifi.Sorting.{NoStronger, Descending}
use respir_mesh.Wifi.State.{ApConnData, Wifi}
use mathlib.Core.Bool.{Bool-set}
use respir_mesh.Base.{All, gtb-false_refl, gtb, get_or, ◌<◌, false, arith, length, List, ℕ, [], ◌∷◌}
use mathlib.Core.List.{Perm, Mem, not-mem-nil, forall_mem-cons}
use mathlib.Core.List.Perm
use respir_mesh.Wifi.Choice.{IsFound}

NoStronger-prop : (x y : ApConnData) → IsProp (NoStronger x y)
NoStronger-prop x y = Bool-set (gtb y.rssi x.rssi) false

NoStronger-Mem :
    (x : ApConnData) (xs : List ApConnData)
    → All (NoStronger x) xs
    → (y : ApConnData) → Mem y xs
    → NoStronger x y
NoStronger-Mem x [] h y m = absurd (not-mem-nil m)
NoStronger-Mem x (z ∷ zs) (p, h) y m =
    (forall_mem-cons {p = NoStronger x} (NoStronger-prop x)).1 (p, NoStronger-Mem x zs h) y m

-- The first used entry is found, and none of the kept is stronger.
pub front-strongest :
    (wifi : Wifi) (networks_count : ℕ) (kept used : List ApConnData)
    → Perm kept used
    → Descending used
    → All (IsFound wifi networks_count) used
    → 0 < length used
    → let front = get_or used 0 unset_ap in
      IsFound wifi networks_count front × ((ap : ApConnData) → Mem ap kept → NoStronger front ap)
front-strongest wifi n kept [] same ordered found some_ap = absurd (omega arith)
front-strongest wifi n kept (x ∷ xs) same (below, ordered) (is_found, found) some_ap = (
  is_found,
  λ ap m. NoStronger-Mem x (x ∷ xs) (gtb-false_refl x.rssi, below) ap ((Perm.mem_iff same).0 m),
)
