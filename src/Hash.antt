-- ===== src/Hash.antt =====
-- hutils/src/hash.c: the FNV-1a hash of 32 bits.
pub mod Ops
pub mod Spread
pub mod Tests
