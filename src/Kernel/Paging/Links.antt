-- ===== src/Kernel/Paging/Links.antt =====
-- What a page table entry says: a link to a table, or a leaf.
use barebone_kernel.Base.{
  ℕ, ◌+◌, ◌*◌, ◌/◌, ◌%◌, ◌^◌, ◌≤◌, ◌≡◌, ◌⊎◌, inl, inr, refl, arith, true, false, ◌||◌, not,
  Bool-cases, Option, none, some, if◌then◌else◌, ◌==◌, ltb, ok, err,
}
use barebone_kernel.Kernel.Memory.{PhysAddr, PhysFrame, from_start}
use barebone_kernel.Kernel.Paging.{
  PagePermissions, read_only, read_write, read_execute, PagePrivilege, supervisor, user,
  invalid_intermediate_entry, physical_address_not_representable, max_physical_address,
  page_table_entry, intermediate_frame, leaf_flags,
}

-- The Sv39 format: a valid entry without permission bits links to the table at its page number.
abbrev pub link : ℕ → Option PhysAddr
link e = if (e % 2 == 0) || not (e / 2 % 8 == 0) then none else some (e / 2 ^ 10 % 2 ^ 44 * 4096)

pub intermediate_frame-link :
    (index e : ℕ)
    → ((f : PhysFrame) × (intermediate_frame index e ≡ ok f) × (link e ≡ some f.start))
      ⊎ (intermediate_frame index e ≡ err (invalid_intermediate_entry index e)) × (link e ≡ none)
unfolding intermediate_frame from_start
intermediate_frame-link index e = elim (Bool-cases ((e % 2 == 0) || not (e / 2 % 8 == 0))) [
  | inl bad ↦ inr (rw bad refl, rw bad refl)
  | inr good ↦
      inl
        (record { start = e / 2 ^ 10 % 2 ^ 44 * 4096 }, rw (good, aligned, fits) refl, rw good refl)
]
  where
    aligned : (e / 2 ^ 10 % 2 ^ 44 * 4096 % 4096 == 0) ≡ true
    aligned = ground arith

    fits : ltb (e / 2 ^ 10 % 2 ^ 44 * 4096 + 4096) (2 ^ 64) ≡ true
    fits = ground arith

pub page_table_entry-cases :
    (address flags : ℕ)
    → ((address ≤ max_physical_address)
        × (page_table_entry address flags ≡ ok (address / 2 ^ 12 * 2 ^ 10 + flags)))
      ⊎ (page_table_entry address flags ≡ err (physical_address_not_representable address))
unfolding page_table_entry
page_table_entry-cases address flags = elim (Bool-cases (ltb max_physical_address address)) [
  | inl above ↦ inr (rw above refl)
  | inr fits ↦ inl (ground arith, rw fits refl)
]

pub valid-link :
    (address : PhysAddr)
    → address % 4096 ≡ 0
    → address ≤ max_physical_address
    → link (address / 2 ^ 12 * 2 ^ 10 + 1) ≡ some address
valid-link address aligned fits = rw (odd, no_leaf) (ground arith)
  where
    odd : ((address / 2 ^ 12 * 2 ^ 10 + 1) % 2 == 0) ≡ false
    odd = ground arith

    no_leaf : ((address / 2 ^ 12 * 2 ^ 10 + 1) / 2 % 8 == 0) ≡ true
    no_leaf = ground arith

abbrev pub Bit : ℕ → ℕ → Type 0
Bit e n = e / 2 ^ n % 2 ≡ 1

abbrev pub NoBit : ℕ → ℕ → Type 0
NoBit e n = e / 2 ^ n % 2 ≡ 0

abbrev pub Permits : PagePermissions → ℕ → Type 0
Permits read_only e = NoBit e 2 × NoBit e 3 × NoBit e 7
Permits read_write e = Bit e 2 × NoBit e 3 × Bit e 7
Permits read_execute e = NoBit e 2 × Bit e 3 × NoBit e 7

abbrev pub Privileged : PagePrivilege → ℕ → Type 0
Privileged supervisor e = NoBit e 4
Privileged user e = Bit e 4

-- The entry maps the frame: it is valid, readable and accessed, writable or executable as the
-- permissions say, dirty where it is writable, and open to user mode as the privilege says.
abbrev pub IsLeaf : ℕ → PhysAddr → PagePermissions → PagePrivilege → Type 0
IsLeaf e frame permissions privilege =
    (e / 2 ^ 10 * 4096 ≡ frame)
    × Bit e 0
    × Bit e 1
    × Bit e 6
    × Permits permissions e
    × Privileged privilege e

leaf_flags-bits :
    (permissions : PagePermissions) (privilege : PagePrivilege) (ppn : ℕ)
    → (e : ℕ) → e ≡ ppn * 2 ^ 10 + leaf_flags permissions privilege
    → (e / 2 ^ 10 ≡ ppn)
      × Bit e 0
      × Bit e 1
      × Bit e 6
      × Permits permissions e
      × Privileged privilege e
leaf_flags-bits read_only supervisor ppn e h = omega arith
leaf_flags-bits read_only user ppn e h = omega arith
leaf_flags-bits read_write supervisor ppn e h = omega arith
leaf_flags-bits read_write user ppn e h = omega arith
leaf_flags-bits read_execute supervisor ppn e h = omega arith
leaf_flags-bits read_execute user ppn e h = omega arith

pub leaf_flags-IsLeaf :
    (frame : PhysAddr) (permissions : PagePermissions) (privilege : PagePrivilege)
    → frame % 4096 ≡ 0
    → IsLeaf
        (frame / 2 ^ 12 * 2 ^ 10 + leaf_flags permissions privilege)
        frame
        permissions
        privilege
leaf_flags-IsLeaf frame permissions privilege aligned =
    let b = leaf_flags-bits permissions privilege (frame / 2 ^ 12) _ refl in
    (omega (arith, b.0, aligned), b.1, b.2, b.3, b.4, b.5)

-- A leaf links to no table.
pub readable-link : (e : ℕ) → Bit e 1 → link e ≡ none
readable-link e h = elim (Bool-cases (e % 2 == 0)) [
  | inl even ↦ rw (leafy, even) refl
  | inr odd ↦ rw (leafy, odd) refl
]
  where
    leafy : (e / 2 % 8 == 0) ≡ false
    leafy = ground arith
