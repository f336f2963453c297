-- ===== src/Tfs.antt =====
-- The file system TécnicoFS under the broker (p2/fs).
pub mod State
pub mod Dir
pub mod Inodes
pub mod OpenFiles
pub mod Init
pub mod Open
pub mod ReadWrite
pub mod Unlink
pub mod Returns
pub mod Invariant
pub mod Changes
pub mod Demo
mod Tests
mod Witnesses
