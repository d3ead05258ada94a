-- ===== src/Core/Floppy.antt =====
-- src/core/src/floppy.c and its header: the floppy disk controller, a state machine on the time that
-- the processor's steps take.
-- `cycles_remaining` falls below zero within a tick, so it is a signed number, and so is the argument
-- of a mechanical event. The host behind the callbacks is a state `H` that they are given and return;
-- `none` is a NULL pointer. A path is a number, and the files of the C library are what it finds
-- under that path; a file that is open stays there, and writing to one opened for it succeeds.
pub mod State
pub mod Device
pub mod Mount
pub mod Commands
pub mod Phases
pub mod Sectors
pub mod Ends
pub mod Seek
pub mod Reading
pub mod Delivery
pub mod Layout
pub mod Locked
pub mod Protect
mod Tests
