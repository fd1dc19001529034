-- ===== src/Fcntl.antt =====
-- kernel/fcntl.go: descriptors, paths, transfers and file status.
pub mod Table
pub mod Paths
pub mod Transfer
pub mod Status
pub mod Reports
pub mod Obeys
pub mod Tracked
pub mod View
pub mod Edits
pub mod Refines
pub mod Commands
pub mod Flags
pub mod Moves
pub mod Vector
pub mod Encoding
