-- ===== src/Kernel/Paging/Keeps.antt =====
-- What a sequence of mappings keeps of the pages' entries.
use barebone_kernel.Base.{ℕ, ◌<◌, ◌≡◌, ◌≢◌, inl, inr, refl, sym, ap, ◌∙◌, subst, List, length}
use barebone_kernel.Kernel.Memory.{PhysAddr}
use barebone_kernel.Kernel.Paging.{Memory}
use barebone_kernel.Kernel.Paging.Tree.{entry_at, IsTree, path-cases}
use barebone_kernel.Kernel.Paging.Tables.{Grows, Sets}

-- Behind `m` the entries that were set are what they were, and so are those of no page in `Within`.
pub record Keeps (Free : PhysAddr → Type 0) (root : PhysAddr) (Within : List ℕ → Type 0)
    (m m' : Memory) : Type 0 where
  pub tree : IsTree Free root m'
  pub kept :
      (q : List ℕ) → 2 < length q → entry_at root m q ≢ 0 → entry_at root m' q ≡ entry_at root m q
  pub outside : (q : List ℕ) → 2 < length q → ¬ (Within q) → entry_at root m' q ≡ entry_at root m q

module _ {Free : PhysAddr → Type 0} {root : PhysAddr} {Within : List ℕ → Type 0} where
  pub Keeps-refl : {m : Memory} → IsTree Free root m → Keeps Free root Within m m
  Keeps-refl t = record { tree = t; kept = λ q l h. refl; outside = λ q l h. refl }

  pub Keeps-trans :
      {Free' : PhysAddr → Type 0} {Later : List ℕ → Type 0} {m m' m'' : Memory}
      → ((q : List ℕ) → Later q → Within q)
      → Keeps Free' root Within m m'
      → Keeps Free root Later m' m''
      → Keeps Free root Within m m''
  Keeps-trans {m = m} {m' = m'} less a z = record {
    tree = z.tree;
    kept = λ q l h. z.kept q l (λ e. h (sym (a.kept q l h) ∙ e)) ∙ a.kept q l h;
    outside = λ q l h. z.outside q l (λ w. h (less q w)) ∙ a.outside q l h;
  }

  pub Keeps-less :
      {Wide : List ℕ → Type 0} {m m' : Memory}
      → ((q : List ℕ) → Within q → Wide q)
      → Keeps Free root Within m m'
      → Keeps Free root Wide m m'
  Keeps-less less a = record {
    tree = a.tree;
    kept = a.kept;
    outside = λ q l h. a.outside q l (λ w. h (less q w));
  }

  pub Grows-Keeps :
      {Before : PhysAddr → Type 0} {m m' : Memory}
      → Grows Before Free root m m'
      → Keeps Free root Within m m'
  Grows-Keeps g = record {
    tree = g.tree;
    kept = λ q l h. g.entries q l;
    outside = λ q l h. g.entries q l;
  }

  pub Sets-Keeps :
      {Before : PhysAddr → Type 0} {m m' : Memory} {path : List ℕ} {e : ℕ}
      → Within path
      → Sets Before Free root path e m m'
      → Keeps Free root Within m m'
  Sets-Keeps {m} {m'} {path} {e} within h = record {
    tree = h.tree;
    kept = λ q l full. elim (path-cases q path) [
      | inl same ↦ absurd (full (ap (entry_at root m) same ∙ h.was_empty))
      | inr other ↦ h.others q l other
    ];
    outside = λ q l away. elim (path-cases q path) [
      | inl same ↦ absurd (away (subst Within (sym same) within))
      | inr other ↦ h.others q l other
    ];
  }
