-- ===== src/Hwt.antt =====
-- hwt: widgets in a window, their layout, the events that they respond to, and their memory.
pub mod Base
pub mod Ops
pub mod Route
pub mod Cells
pub mod Measure
pub mod Links
pub mod Linked
pub mod Below
pub mod Unlink
pub mod Leaks
pub mod Assign
pub mod Registry
mod Tests
