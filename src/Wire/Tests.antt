-- ===== src/Wire/Tests.antt =====
-- Packets written out.
use respir_mesh.Wire.Framing.{take-set_size-IsFramed, IsFramed}
use respir_mesh.Wire.Header.{set_size}
use respir_mesh.Base.{arith, [], ◌∷◌, take}

take-set_size-IsFramed_example : IsFramed (take 6 (set_size 6 (0 ∷ 0 ∷ 1 ∷ 0 ∷ 9 ∷ 44 ∷ 55 ∷ [])))
take-set_size-IsFramed_example =
    take-set_size-IsFramed 6 (0 ∷ 0 ∷ 1 ∷ 0 ∷ 9 ∷ 44 ∷ 55 ∷ []) (omega arith) (omega arith)
      (omega arith)
