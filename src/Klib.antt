-- ===== src/Klib.antt =====
-- The runtime library abstract-machine/libs/klib: `Mem` is the memory of bytes, `Str` the functions of
-- src/string.c, `Stdlib` those of src/stdlib.c, `Mutex` the
-- mutex of src/pthread.c. The children of `Str` have their laws.
pub mod Mem
pub mod Str
pub mod Stdlib
pub mod Stdio
pub mod Mutex
mod Tests
