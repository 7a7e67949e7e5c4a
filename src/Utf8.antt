-- ===== src/Utf8.antt =====
-- hutils/src/utf8.c: strings of UTF-8, with a replacement for every invalid byte.
pub mod Ops
pub mod Masks
pub mod Decode
pub mod Table
pub mod RoundTrip
pub mod Text
pub mod Replace
pub mod Create
pub mod Tests
