-- ===== src/Config.antt =====
-- hutils/src/config.c: sections of named values, read from a stream of tokens.
pub mod Ops
pub mod Names
pub mod Values
pub mod Load
pub mod Stream
mod Tests
