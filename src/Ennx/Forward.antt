-- ===== src/Ennx/Forward.antt =====
-- rust/crates/ennx/src/forward_program.rs: the launch plans of a fused decoder layer.
pub mod Program
pub mod Plan
pub mod Linear
pub mod Kda
pub mod Moe
pub mod Control
pub mod Launch
mod Examples
