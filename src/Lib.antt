-- ===== src/Lib.antt =====
-- ENNX: Bayesian optimisation over nearest neighbours, and BPANN, its paged index.
--
-- The program is a Rust workspace. The crate rust/crates/bpann holds the index: vectors live in a
-- tree of pages that is written to disk, and process-wide tuning values steer building, flushing
-- and searching. The crate rust/crates/ennx holds the optimiser: trust regions, candidate search
-- over quantised weight rows, and the plans of a fused decoder layer that a GPU backend launches.
-- The search asks for a trial and is told its value; the index finds the neighbours of a candidate.
--
-- Prelude: shared names, Boolean tests, lists over the native numbers, `Result`, machine words.
-- Bpann.Tuning: rust/crates/bpann/src/tuning.rs. `validate`, `current_tuning` and the row tests
--   that choose a search mode; the provider is the snapshot that it returns.
-- Bpann.Page: rust/crates/bpann/src/index/page.rs. `serialize`, `deserialize`, and the framed file
--   of pages. An `f32` is its 32-bit pattern, the cursor is the list of bytes that are left, and
--   allocation of the announced sizes always succeeds.
-- Bpann.Merge: rust/crates/bpann/src/merge.rs, `merge_topk_precomputed_dist`; the widening of an `f32`
--   is a parameter.
-- Bpann.Index: rust/crates/bpann/src/index/build.rs, the index of a fragment and `concat_merge`; Floats
--   has the rounded arithmetic of the crate as a parameter (record `Floats`), Distance is
--   `l2_sq_f32`, Rows the read of a memory-mapped row, whose file is the list of its rows.
-- Bpann.Kmeans: rust/crates/bpann/src/index/kmeans.rs. The random generator is a parameter (record
--   `Random`); the recursion of the partition takes a fuel, and `unfinished` is what it gives when
--   that is used up. Bpann.Partition makes an index of such a tree.
-- Bpann.Forest: rust/crates/bpann/src/index/sync_forest.rs, the fragments of many leaves; their loop
--   over the chunks runs on the number of rows, which is enough since a chunk is not empty.
-- Bpann.Sync: rust/crates/bpann/src/index/sync.rs, `IncrementalIndex` as a state that each operation
--   leaves also when it fails; the loop of `compact` runs on the number of fragments, each of its
--   steps removes one at least. What the file system answers to a write is an argument.
-- Bpann.Search: rust/crates/bpann/src/index/search.rs, the scores of a leaf, the exhaustive search and
--   the traversal from the root page, whose recursion takes a fuel.
-- Ennx.Forward: rust/crates/ennx/src/forward_program.rs. Programs, packed layers, requests, their
--   validation, the schedule of passes and the kernel plans. `usize` has 64 bits and wraps around,
--   as a release build does. An error is a constructor for each message.
-- Ennx.Float: tests on `f32` bit patterns (finite, NaN, order).
-- Ennx.Trials: rust/crates/ennx/src/trials.rs, trials/layout.rs, trials/tree.rs and `insert_neighbor`
--   of util.rs. Leaf, Layout, Decode, Perturb and Row are the packed rows and their codes; Slots,
--   Search and its children are `Search` with its slots, history and pending trial over the interface
--   `Engine`; Cpu fills that interface; Tree is the perturbation tree. An operation of `Search` gives
--   the state it leaves also when it fails. The rounded `f32` arithmetic of the hardware (record
--   `F32`), the draws of `thompson_draws` and the resolver of observations are parameters.
-- Ennx.Resident: `ResidentBoState` of rust/crates/ennx/src/forward_program.rs, which wraps `Search`;
--   the evaluator is a parameter.
--
-- Float64: `f64` bit patterns: the tests, `total_cmp` and `<`, and the rounded arithmetic of the
--   hardware as a parameter (record `F64`).
-- Sort: the stable `sort_by` of the standard library as an insertion sort.
-- Ennx.Tracker: rust/crates/ennx/src/incumbent_tracker.rs. Spec has the abstract view, in which the
--   candidates are computed from the whole list of observations, Chosen says what these are without
--   the operations of the code.
-- Ennx.Regions: rust/crates/ennx/src/optimizer/multi_tr.rs. Allocation, Selection and Update are
--   `allocate_with`, `select` and `tell`; the arrays of the state are lists with one element for
--   each region.
-- Ennx.Turbo: rust/crates/ennx/src/trust_region.rs, the trust region of one objective.
-- Ennx.Hash: rust/crates/ennx/src/hash.rs, the 64-bit hash exactly and the batches of variates.
-- Ennx.Flush: rust/crates/ennx/src/backend/flush_controller.rs with the row counts of
--   rust/crates/bpann/src/backend.rs. The caller and the worker's thread are steps in any order; a
--   wait that would block is `none`. What the index build and the writes of an append return are
--   arguments of the step.
--
-- Loops over lists and counters are structural recursion, so there is no other fuel than that of
-- `tile_leaf`, which the length of the leaf bounds, `check_chain`, where it is the depth, and those
-- named above.
-- Not modelled: GPU backends, Python bindings, file-system calls, threads but for
--   the flush worker, and the numeric code
--   whose results are rounded (fits, posteriors), which is not exact arithmetic.
pub mod Prelude
pub mod Float64
pub mod Sort
pub mod Bpann
pub mod Ennx
