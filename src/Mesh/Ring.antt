-- ===== src/Mesh/Ring.antt =====
-- Packets that go round in a network of nodes.
use respir_mesh.Node.State.{Node}
use respir_mesh.Wire.Forwarding
use respir_mesh.Wire.Protobuf
use respir_mesh.Base.{zero, suc, ℕ, List}

-- The node some hops further on.
abbrev pub further : (ℕ → ℕ) → ℕ → ℕ → ℕ
further next zero i = i
further next (suc hops) i = further next hops (next i)
