-- ===== src/Tty.antt =====
-- The terminals of kernel/src/devices/tty/tty.c, with `tty_t` of kernel/include/devices.h. `Screen` is
-- the buffer of characters, `Cook` the queue of typed lines. A pointer into an array is its index.
pub mod Screen
pub mod Cook
pub mod Line
pub mod Typed
pub mod Read
pub mod Page
pub mod Shows
pub mod Steps
pub mod Settle
pub mod Refine
pub mod Render
pub mod Draw
pub mod Marked
pub mod Marks
pub mod Task
pub mod Session
pub mod Front
mod Tests
