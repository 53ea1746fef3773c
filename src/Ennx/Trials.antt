-- ===== src/Ennx/Trials.antt =====
-- rust/crates/ennx/src/trials.rs: search over perturbations of a quantised weight row.
pub mod Leaf
pub mod Layout
pub mod Slots
pub mod Decode
pub mod Row
pub mod Perturb
pub mod Neighbors
pub mod Search
pub mod Cpu
pub mod Tree
pub mod Examples
