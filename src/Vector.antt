-- ===== src/Vector.antt =====
-- hutils/include/hutils/vector.h: the growable array behind VECTOR_HEAD and VECTOR_IMPLEMENT.
-- `none` is a failed check of the source (abort or exit). A returned pointer into `data` is the
-- index of its cell. `realloc` and `calloc` are taken to succeed.
pub mod Ops
pub mod Invariant
pub mod Contents
pub mod Push
pub mod Insert
pub mod Erase
pub mod PopFront
pub mod Reads
pub mod Run
mod Tests
