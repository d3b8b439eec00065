-- ===== src/Fdt/Reservation/Spec.antt =====
-- The format of the reservation block, and what its entries must satisfy, independently of the code.
use barebone_kernel.Base.{
  ℕ, ◌+◌, ◌≤◌, ◌<◌, ◌^◌, ◌⊎◌, List, [], ◌∷◌, ◌++◌, Bytes, IsU64, All, to_be_64,
}
use barebone_kernel.Fdt.Reservation.{MemoryReservation}

abbrev pub encode_entry : ℕ → ℕ → Bytes
encode_entry address size = to_be_64 address ++ to_be_64 size

-- The entries in order, with `rest` behind them.
abbrev pub encode_rest : List MemoryReservation → Bytes → Bytes
encode_rest [] rest = rest
encode_rest (r ∷ rs) rest = encode_entry r.address r.size ++ encode_rest rs rest

-- The entries in order, then the terminating entry.
abbrev pub encode : List MemoryReservation → Bytes
encode rs = encode_rest rs (encode_entry 0 0)

-- An entry that is not the terminating one, and whose end is a `u64`.
pub record IsEntry (r : MemoryReservation) : Type 0 where
  pub address_u64 : IsU64 r.address
  pub size_u64 : IsU64 r.size
  pub not_terminator : (0 < r.address) ⊎ (0 < r.size)
  pub end_u64 : r.address + r.size < 2 ^ 64

-- Address `x` is reserved by `r`.
abbrev pub Covers : MemoryReservation → ℕ → Type 0
Covers r x = (r.address ≤ x) × (x < r.address + r.size)

abbrev pub Apart : MemoryReservation → MemoryReservation → Type 0
Apart r s = (x : ℕ) → Covers r x → Covers s x → ⊥

-- No address is reserved by two entries.
abbrev pub PairwiseApart : List MemoryReservation → Type 0
PairwiseApart [] = Unit
PairwiseApart (r ∷ rs) = All (Apart r) rs × PairwiseApart rs
