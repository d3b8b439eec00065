-- ===== src/Fdt.antt =====
-- The crate fdt/: a validator and reader of flattened devicetrees.
pub mod Reader
pub mod Header
pub mod Reservation
pub mod Strings
pub mod NodeName
pub mod Structure
