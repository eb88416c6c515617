-- ===== src/Memory.antt =====
-- pkg/drivers/memory/memory.go: the in-memory backend.
pub mod Tree
pub mod Entry
pub mod State
pub mod Writes
pub mod Reads
pub mod Compaction
pub mod Watching
pub mod History
pub mod Trim
pub mod CompactedKeys
pub mod Invariant
pub mod Preserved
pub mod Snapshots
pub mod Refinement
pub mod Delivery
pub mod SortedMap
pub mod Runs
pub mod Ordered
pub mod Range
pub mod Listing
pub mod Lookup
pub mod Examples
