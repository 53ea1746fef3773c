-- ===== src/Ennx.antt =====
-- The crate rust/crates/ennx: Bayesian optimisation over nearest neighbours.
pub mod Float
pub mod Forward
pub mod Trials
pub mod Resident
pub mod Tracker
pub mod Regions
pub mod Turbo
pub mod Hash
pub mod Flush
