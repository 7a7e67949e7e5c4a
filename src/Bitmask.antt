-- ===== src/Bitmask.antt =====
-- hutils/src/bitmask.c: a fixed number of bits in 32-bit words.
pub mod Ops
pub mod Laws
mod Tests
