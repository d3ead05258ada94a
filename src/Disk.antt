-- ===== src/Disk.antt =====
-- The disk-image library, src/disk of the repository: one module for each of the files modelled.
pub mod Layout
pub mod Sparse
pub mod Image
pub mod Dates
pub mod Names
pub mod Directory
pub mod Build
