-- ===== src/Core/Hd.antt =====
-- src/core/src/hd.c and its header: the paravirtual hard disk, which moves words between its image
-- (or a block backend of the host) and the memory that src/core/src/memory.c models.
-- The host behind the callbacks is a state `H` that they are given and return; `none` is a NULL
-- pointer. `malloc` says whether the C library grants an allocation of that many bytes.
-- A failed assert of the memory is `none`.
pub mod Device
pub mod Controller
pub mod Dma
pub mod Load
pub mod Commands
pub mod Driver
mod Tests
