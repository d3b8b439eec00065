-- ===== src/Kernel/Memory/Examples.antt =====
-- The alignment helpers at concrete addresses.
use barebone_kernel.Base.{ℕ, ◌+◌, ◌-◌, ◌%◌, ◌<◌, ◌^◌, ◌≡◌, ◌⊎◌, refl, arith, none, some, IsU64}
use barebone_kernel.Kernel.Memory.{align_up, checked_sub}
use barebone_kernel.Kernel.Memory.Align.{IsAlignedUp, align_up-cases}

aligns : align_up 0x1001 ≡ some 0x2000
unfolding align_up checked_sub
aligns = refl

too_high : align_up (2 ^ 64 - 4095) ≡ none
unfolding align_up checked_sub
too_high = refl

align_up-cases_example :
    ((up : ℕ) × (align_up 0x1001 ≡ some up) × IsAlignedUp 0x1001 up × IsU64 up)
    ⊎ (align_up 0x1001 ≡ none) × (2 ^ 64 < 0x1001 + 4096) × (0 < 0x1001 % 4096)
align_up-cases_example = align_up-cases 0x1001 (omega arith)
