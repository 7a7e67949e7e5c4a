-- ===== src/Strings.antt =====
-- hutils/src/string.c: comparison with a beginning or an end, concatenation and splitting.
pub mod Ops
pub mod Compare
pub mod Concat
pub mod Tokens
pub mod Tests
