-- ===== src/Tests.antt =====
-- The theorems at concrete data, on a small machine: its descriptor table is a finite map, its
-- files give one byte at a time and take all that is written to them, and its memory is a log of what
-- is stored in it. The machine of Moves has a memory that is its contents.
pub mod Sample
mod Descriptors
pub mod Dispatch
pub mod Waits
mod VaLists
mod Moves
mod Mappings
mod Tasks
mod Refinements
mod BitWaits
