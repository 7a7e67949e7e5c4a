-- ===== src/Tailqsort.antt =====
-- hutils/include/hutils/tailqsort.h: a stable merge sort of a tail queue.
pub mod Ops
pub mod Order
pub mod Tests
