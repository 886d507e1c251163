-- ===== src/Lf.antt =====
-- lf/: the structures in which some operation always makes progress.
pub mod Stack
pub mod Queue
pub mod HashMap
pub mod List
pub mod SplitHashMap
