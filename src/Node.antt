-- ===== src/Node.antt =====
-- The state of one node of the mesh and the world around it: the objects that main (or setup)
-- wires together, which the components below read and change.
pub mod Env
pub mod State
pub mod Fault
pub mod Returns
