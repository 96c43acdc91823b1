-- ===== src/ClientR1/Tests.antt =====
-- Concrete messages and rounds.
use respir_mesh.Sample.{env, env-Encodes}
use respir_mesh.ClientR1.{ClientR1, initial, loop_round, main_rounds}
use respir_mesh.ClientR1.Agreement.{as_sketch, loop_round-agrees, seen}
use respir_mesh.ClientR1.Reporting.{IsReport, main_rounds-IsReport}
use respir_mesh.EspOld.State
use respir_mesh.EspOld.Packets.{data_recv}
use respir_mesh.Wire.Forwarding
use respir_mesh.Wire.Protobuf
use mathlib.Core.Option
use respir_mesh.Base.{All, List, ℕ, [], ◌∷◌, some, ◌≡◌, arith, length}

-- The report of node 9, as it comes from a child.
abbrev report : List ℕ
report =
    8 ∷ 0 ∷ Forwarding.to_parent_to_root ∷ 0 ∷ Protobuf.mesh_topology ∷ 0 ∷ 9
    ∷ Protobuf.mesh_topology ∷ []

loop_round-agrees_example :
    Option.map (λ t. seen (as_sketch State.initial t)) (loop_round (env 7) report 8 initial)
    ≡ Option.map seen (data_recv (env 7) report 8 (as_sketch State.initial initial))
loop_round-agrees_example = loop_round-agrees (env 7) State.initial report 8 initial (omega arith)

main_rounds-IsReport_example :
    (t : ClientR1) × (main_rounds (env 7) 3 initial ≡ some t)
    × (length t.sent ≡ 2)
    × All (IsReport (env 7)) t.sent
main_rounds-IsReport_example = main_rounds-IsReport (env 7) (env-Encodes 7) 3 (omega arith)
