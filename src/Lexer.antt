-- ===== src/Lexer.antt =====
-- hutils/src/lexer.c: tokens from a stream that is read through a ring buffer.
pub mod Ops
pub mod Ring
pub mod Peek
pub mod Walk
pub mod Token
pub mod See
pub mod Scan
pub mod Number
pub mod Lexed
pub mod Branches
pub mod Literal
pub mod Kinds
pub mod Gaps
pub mod Got
pub mod Sizes
pub mod Tests
