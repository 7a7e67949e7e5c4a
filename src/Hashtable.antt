-- ===== src/Hashtable.antt =====
-- hutils/include/hutils/hashtable.h: an open table with the displacement of Robin Hood hashing.
pub mod Ops
pub mod Circle
pub mod Find
pub mod Place
pub mod Round
pub mod Insert
pub mod Present
pub mod Gap
pub mod Erase
mod Tests
