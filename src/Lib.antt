-- ===== src/Lib.antt =====
-- Verification library of the barebone kernel: a model of the repository's code, and theorems about it.
--
-- The program has two parts. The crate fdt/ validates a flattened devicetree and reads it; the crate
-- kernel/ boots a RISC-V hart, and takes its memory from what fdt/ reports.
--
-- Base models what the sources use of the Rust core library: slices as lists of numbers below 256,
-- `u32`, `u64` and a 64-bit `usize` as native numbers with their checked operations, and `Result` with
-- two more outcomes, a panic and the end of a loop's fuel.
--
-- Fdt models fdt/src.
--   Fdt/Reader is reader.rs: `Reader` with `read_bytes`, `read_u8`, `read_u32`, `read_u64`,
--   `align_to_4`, `read_nul_terminated`, `remaining_bytes`. An operation on `&mut Reader` returns its
--   result and the reader that it leaves, on errors too.
--   Fdt/Header is header.rs: `Header::new` is `decode` (the fields) and `validate` (the checks).
--   Fdt/Reservation is reservation.rs: `Reservations::new`, the iterator `next` and the overlap check.
--   The loop that looks for the terminating entry has one unit of fuel more than there are bytes, and
--   takes sixteen bytes in a round.
--   Fdt/Strings is strings.rs: `Strings::validate_property_name`.
--   Fdt/NodeName is structure/name.rs: `validate`, `component` and `unit_address`.
--   Fdt/Structure is structure.rs: `Structure::new` with its loop, `validate_property` and the searches
--   `find_prior_sibling_node` and `find_property`. A loop takes what it does next as an argument of its
--   branch; each has one unit of fuel more than there are bytes, and a round takes four at least.
--   Structure/Items says which bytes encode an item, Structure/Machine which nodes are open behind one.
--
-- Kernel models kernel/src.
--   Kernel/Memory is memory.rs, memory/address.rs and memory/frame.rs: ranges, frames and the
--   alignment helpers over 64-bit addresses.
--   Kernel/BootFrames is memory/frame/boot_allocator.rs: `claim` with its static flag as an argument,
--   and `allocate`, a loop of rounds. The three iterators over the devicetree are lists of regions.
--   `left`, the bytes of memory not passed yet and one for each range, bounds the rounds of a call:
--   each round but the last lowers it.
--   Kernel/Heap is memory/heap.rs: `new`, `allocate` and `back_to` over a parameter for the trait
--   `HeapBacking`. `back_to` has more fuel than the address at which its loop begins.
--   Kernel/Allocator is memory/allocator.rs: `with_state` with its two guards, `alloc`, `with_paging` and
--   `initialize`. An operation under the gate gets the state with the gate held.
--   Kernel/Image is process/image.rs: `Image::parse`; loading into frames is not modelled.
--   Kernel/Timer is arch/riscv64/timer.rs with `set_timer` of firmware/sbi.rs: `init` and
--   `handle_interrupt` on a record of the statics and of the enable bit. The firmware's answer to a
--   deadline and the time counter are parameters; any answer is allowed for.
--   Kernel/Paging is arch/riscv64/paging.rs and paging/access.rs: `page_table_entry`,
--   `intermediate_frame`, `map_page`, `Sv39PageTable` and the methods of `FrameAccess`. Memory is a
--   function from a frame and an index to a word; whether a frame can be reached, and which frame is
--   allocated next, are parameters for the traits `FrameAccess` and `FrameAllocator`.
--   Paging/Tree reads the tables below a root as a tree of paths.
--   Kernel/Paging/Runtime is paging/kernel.rs: the mappers of `KernelPaging` and the pages of the heap
--   that `KernelHeapBacking` gives (Paging/HeapPages). Paging/Frames is `FrameAllocator` for `BootFrameAllocator`.
-- Not modelled: the views of the structure block and the semantic checks of fdt/, and the windows to
-- frames, the switch of roots, traps and process start of kernel/. Boot assembly, the console and
-- logging have no logic to state theorems of.
--
-- Slices are shorter than 2 ^ 63 bytes, as every slice of Rust is. Formatting for Debug is not
-- modelled, and neither is logging.
pub mod Base
pub mod Fdt
pub mod Kernel
