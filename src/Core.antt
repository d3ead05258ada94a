-- ===== src/Core.antt =====
-- The emulated hardware, src/core of the repository: one module for each of its C files.
pub mod Memory
pub mod Timer
pub mod Ramdisk
pub mod Hd
pub mod Keyboard
pub mod Cpu
pub mod Floppy
