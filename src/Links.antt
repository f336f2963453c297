-- ===== src/Links.antt =====
-- The file system TécnicoFS with hard and symbolic links, and with one lock for each table, inode and
-- open file (p1/fs).
pub mod State
pub mod Inodes
pub mod Dir
pub mod OpenFiles
pub mod Init
pub mod Open
pub mod Names
pub mod ReadWrite
pub mod Import
pub mod Returns
pub mod Invariant
pub mod Lookup
pub mod Changes
pub mod Steps
pub mod Entry
pub mod Fresh
pub mod Calls
pub mod Demo
mod Witnesses
