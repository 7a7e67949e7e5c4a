-- ===== src/Bitpack.antt =====
-- hutils/src/bitpack.c: packing fields of 1 to 32 bits into a byte buffer, and taking them out again.
pub mod Ops
pub mod Pack
pub mod Unpack
pub mod RoundTrip
pub mod Strings
pub mod Float
mod Tests
