-- ===== src/Fs.antt =====
-- The file system TécnicoFS, fs/.
pub mod State
pub mod Returns
pub mod Layout
pub mod Strings
pub mod Tables
pub mod Inodes
pub mod Directory
pub mod Init
pub mod Operations
pub mod Contents
pub mod History
pub mod Invariant
pub mod Example
mod Tests
