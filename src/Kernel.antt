-- ===== src/Kernel.antt =====
-- The crate kernel/: its memory, its user image, its page tables and its timer.
pub mod Memory
pub mod BootFrames
pub mod Heap
pub mod Allocator
pub mod Image
pub mod Paging
pub mod Timer
