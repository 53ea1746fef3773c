-- ===== src/Bpann.antt =====
-- The crate rust/crates/bpann: the paged nearest-neighbour index.
pub mod Tuning
pub mod Bytes
pub mod Page
pub mod Merge
pub mod Floats
pub mod Samples
pub mod Distance
pub mod Index
pub mod Kmeans
pub mod Partition
pub mod Rows
pub mod Forest
pub mod Sync
pub mod Search
