-- ===== src/Sqllog.antt =====
-- pkg/logstructured/sqllog: the log in the tables of a database.
pub mod Rows
pub mod Dialect
pub mod Log
pub mod Answers
pub mod Reads
pub mod Refinement
pub mod Lawful
pub mod LogExamples
pub mod Poll
pub mod Consecutive
pub mod Gaps
pub mod Compaction
pub mod Batches
pub mod Relief
pub mod ReliefLoop
pub mod Relieved
pub mod Examples
