-- ===== src/Getopt.antt =====
-- hutils/src/getopt.c: the options of a command line one after the other.
pub mod Ops
pub mod Progress
pub mod Group
pub mod Tests
