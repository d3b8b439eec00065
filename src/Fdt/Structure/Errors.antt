-- ===== src/Fdt/Structure/Errors.antt =====
-- The errors of fdt/src/structure.rs and fdt/src/structure/semantic.rs.
use barebone_kernel.Base.{ℕ}
use barebone_kernel.Fdt.Reader.{ReadError}
use barebone_kernel.Fdt.Strings.{PropertyNameError}
use barebone_kernel.Fdt.NodeName.{NodeNameError}

pub data SemanticError : Type 0 where
  missing_cpus_node : SemanticError
  missing_memory_node : SemanticError
  unit_address_without_reg : SemanticError
  invalid_address_cells : (length : ℕ) → SemanticError
  invalid_size_cells : (length : ℕ) → SemanticError
  invalid_reg_length : (length entry_size : ℕ) → SemanticError
  reg_entry_size_overflow : (address_cells size_cells : ℕ) → SemanticError
  missing_memory_device_type : SemanticError
  invalid_memory_device_type : SemanticError
  missing_memory_reg : SemanticError
  memory_address_does_not_fit_u64 : SemanticError
  memory_size_does_not_fit_u64 : SemanticError
  invalid_memory_address_cells : SemanticError
  invalid_memory_size_cells : SemanticError
  empty_memory_reg : SemanticError
  zero_memory_size : SemanticError
  missing_reserved_memory_address_cells : SemanticError
  missing_reserved_memory_size_cells : SemanticError
  missing_reserved_memory_ranges : SemanticError
  non_empty_reserved_memory_ranges : SemanticError
  invalid_reserved_memory_address_cells : SemanticError
  invalid_reserved_memory_size_cells : SemanticError
  missing_reserved_memory_allocation : SemanticError
  unsupported_dynamic_reserved_memory : SemanticError
  empty_reserved_memory_reg : SemanticError
  reserved_memory_address_does_not_fit_u64 : SemanticError
  reserved_memory_size_does_not_fit_u64 : SemanticError
  zero_reserved_memory_size : SemanticError
  reserved_memory_range_end_overflow : SemanticError
  memory_range_end_overflow : SemanticError

pub data StructureError : Type 0 where
  read : ReadError → StructureError
  invalid_token : (offset value : ℕ) → StructureError
  expected_root_node : (offset found : ℕ) → StructureError
  root_name_not_empty : (offset first_byte : ℕ) → StructureError
  unterminated_node_name : (offset : ℕ) → StructureError
  invalid_node_name :
      (token_offset name_offset parent_depth : ℕ) (source : NodeNameError) → StructureError
  duplicate_node_name : (first_node_offset duplicate_node_offset parent_depth : ℕ) → StructureError
  property_after_child : (offset depth : ℕ) → StructureError
  invalid_property_name :
      (property_offset name_offset : ℕ) (source : PropertyNameError) → StructureError
  duplicate_property_name :
      (first_property_offset duplicate_property_offset name_offset depth : ℕ) → StructureError
  premature_end : (offset depth : ℕ) → StructureError
  expected_end : (offset found : ℕ) → StructureError
  trailing_data : (offset remaining : ℕ) → StructureError
  semantic : SemanticError → StructureError
