-- ===== src/Kernel/Paging/Tree.antt =====
-- The tables below a root as a tree, and what a write does to it.
use barebone_kernel.Base.{
  ℕ, ◌%◌, ◌/◌, ◌^◌, ◌≡◌, ◌≢◌, ◌⊎◌, inl, inr, refl, sym, ap, ◌∙◌, subst, arith, List, [], ◌∷◌,
  Bool-cases, ◌==◌, ==_iff, Option, none, some, Option-cases, bytes_eq, bytes_eq-eq, bytes_eq_refl,
  length,
}
use barebone_kernel.Kernel.Memory.{PhysAddr, VirtAddr}
use barebone_kernel.Kernel.Paging.{Memory, write, zeroed}
use barebone_kernel.Kernel.Paging.Links.{link}

abbrev child : Memory → ℕ → Option PhysAddr → Option PhysAddr
child m i none = none
child m i (some f) = link (m f i)

abbrev entry : Memory → ℕ → Option PhysAddr → ℕ
entry m i none = 0
entry m i (some f) = m f i

-- The table at a path: the indices from the root, the last first.
abbrev pub table_at : PhysAddr → Memory → List ℕ → Option PhysAddr
table_at root m [] = some root
table_at root m (i ∷ up) = child m i (table_at root m up)

-- The entry at a path, which is zero where there is no table.
abbrev pub entry_at : PhysAddr → Memory → List ℕ → ℕ
entry_at root m [] = 0
entry_at root m (i ∷ up) = entry m i (table_at root m up)

-- The page numbers of an address.
abbrev pub page_path : VirtAddr → List ℕ
page_path address = address / 2 ^ 12 % 512 ∷ address / 2 ^ 21 % 512 ∷ address / 2 ^ 30 % 512 ∷ []

-- No table stands at two paths, and none is in a frame that is free.
pub record IsTree (Free : PhysAddr → Type 0) (root : PhysAddr) (m : Memory) : Type 0 where
  pub distinct :
      (p q : List ℕ) (f : PhysAddr)
      → table_at root m p ≡ some f
      → table_at root m q ≡ some f
      → p ≡ q
  pub reserved : (p : List ℕ) (f : PhysAddr) → table_at root m p ≡ some f → ¬ Free f

pub path-cases : (p q : List ℕ) → (p ≡ q) ⊎ (p ≢ q)
path-cases p q = elim (Bool-cases (bytes_eq p q)) [
  | inl same ↦ inl (bytes_eq-eq p q same)
  | inr other ↦ inr λ e. cc (other, bytes_eq_refl q, ap (λ x. bytes_eq x q) e)
]

tail-eq : (i j : ℕ) (p q : List ℕ) → (i ∷ p) ≡ (j ∷ q) → p ≡ q
tail-eq i j p q e = cc

-- A path does not end in itself.
longer : (i : ℕ) (p : List ℕ) → p ≢ (i ∷ p)
longer i p e = omega (arith, ap length e)

pub write_here : (m : Memory) (f i e : ℕ) → write m f i e f i ≡ e
write_here m f i e = rw ((==_iff f f).1 refl, (==_iff i i).1 refl) refl

pub write_away : (m : Memory) (f i e g j : ℕ) → (g ≡ f → j ≡ i → ⊥) → write m f i e g j ≡ m g j
write_away m f i e g j away = elim (Bool-cases (g == f)) [
  | inr other ↦ rw other refl
  | inl same ↦ elim (Bool-cases (j == i)) [
    | inr other ↦ rw (same, other) refl
    | inl here ↦ absurd (away ((==_iff g f).0 same) ((==_iff j i).0 here))
  ]
]

pub zeroed_away : (m : Memory) (c g j : ℕ) → g ≢ c → zeroed m c g j ≡ m g j
zeroed_away m c g j away = elim (Bool-cases (g == c)) [
  | inl same ↦ absurd (away ((==_iff g c).0 same))
  | inr other ↦ rw other refl
]

pub zeroed_here : (m : Memory) (c j : ℕ) → zeroed m c c j ≡ 0
zeroed_here m c j = rw ((==_iff c c).1 refl) refl

pub some-eq : (f g : PhysAddr) → (some f ≡ some g) → f ≡ g
some-eq f g e = cc

module _ (root : PhysAddr) (m : Memory) where
  abbrev pub Outside : PhysAddr → Type 0
  Outside c = (q : List ℕ) → ¬ (table_at root m q ≡ some c)

  -- What is written outside the tree leaves it as it is.
  pub zeroed-table_at :
      (c : PhysAddr) → Outside c → (q : List ℕ) → table_at root (zeroed m c) q ≡ table_at root m q
  zeroed-table_at c outside [] = refl
  zeroed-table_at c outside (i ∷ q) = elim (Option-cases (table_at root m q)) [
    | inl e ↦ rw (zeroed-table_at c outside q, e) refl
    | inr (g, e) ↦
        rw (zeroed-table_at c outside q, e)
          (ap link (zeroed_away m c g i (λ same. outside q (e ∙ ap some same))))
  ]

  pub zeroed-entry_at :
      (c : PhysAddr) → Outside c → (q : List ℕ) → entry_at root (zeroed m c) q ≡ entry_at root m q
  zeroed-entry_at c outside [] = refl
  zeroed-entry_at c outside (i ∷ q) = elim (Option-cases (table_at root m q)) [
    | inl e ↦ rw (zeroed-table_at c outside q, e) refl
    | inr (g, e) ↦
        rw (zeroed-table_at c outside q, e)
          (zeroed_away m c g i (λ same. outside q (e ∙ ap some same)))
  ]

-- A write to the entry `i` of the table `f` at the path `p`, where there was nothing.
module _ {Free : PhysAddr → Type 0} (root : PhysAddr) (m : Memory) (tree : IsTree Free root m)
    (p : List ℕ) (f i e : ℕ) (stands : table_at root m p ≡ some f) (empty : m f i ≡ 0) where
  away :
      (q : List ℕ) (j g : ℕ)
      → (j ∷ q) ≢ (i ∷ p)
      → table_at root m q ≡ some g
      → write m f i e g j ≡ m g j
  away q j g other at_q = write_away m f i e g j λ same_table same_index. other (
      ap (λ x. x ∷ q) same_index
      ∙ ap (λ x. i ∷ x) (tree.distinct q p f (at_q ∙ ap some same_table) stands))

  empty_link : table_at root m (i ∷ p) ≡ none
  empty_link = rw (stands, empty) refl

  -- A leaf leaves all tables in place.
  pub leaf-table_at :
      link e ≡ none → (q : List ℕ) → table_at root (write m f i e) q ≡ table_at root m q
  leaf-table_at no_link [] = refl
  leaf-table_at no_link (j ∷ q) = by_path (leaf-table_at no_link q)
    where
      by_path :
          table_at root (write m f i e) q ≡ table_at root m q
          → table_at root (write m f i e) (j ∷ q) ≡ table_at root m (j ∷ q)
      by_path before = elim (path-cases (j ∷ q) (i ∷ p)) [
        | inl same ↦
            let here : table_at root (write m f i e) p ≡ some f =
              subst (λ x. table_at root (write m f i e) x ≡ table_at root m x)
                (tail-eq j i q p same) before
              ∙ stands in
            subst (λ x. table_at root (write m f i e) x ≡ table_at root m x) (sym same)
              (rw (here, write_here m f i e, no_link) (sym empty_link))
        | inr other ↦ elim (Option-cases (table_at root m q)) [
          | inl none_there ↦ rw (before, none_there) refl
          | inr (g, at_q) ↦ rw (before, at_q) (ap link (away q j g other at_q))
        ]
      ]

  pub leaf-entry_at :
      link e ≡ none
      → (q : List ℕ) → q ≢ (i ∷ p)
      → entry_at root (write m f i e) q ≡ entry_at root m q
  leaf-entry_at no_link [] other = refl
  leaf-entry_at no_link (j ∷ q) other = elim (Option-cases (table_at root m q)) [
    | inl none_there ↦ rw (leaf-table_at no_link q, none_there) refl
    | inr (g, at_q) ↦ rw (leaf-table_at no_link q, at_q) (away q j g other at_q)
  ]

  pub leaf-entry_at_here : link e ≡ none → entry_at root (write m f i e) (i ∷ p) ≡ e
  leaf-entry_at_here no_link = rw (leaf-table_at no_link p, stands) (write_here m f i e)

  module _ (c : PhysAddr) (outside : Outside root m c) (blank : (j : ℕ) → m c j ≡ 0)
      (links : link e ≡ some c) where
    -- A link puts the table `c` at its path.
    abbrev Linked : List ℕ → Type 0
    Linked q =
        (q ≡ (i ∷ p) → table_at root (write m f i e) q ≡ some c)
        × (q ≢ (i ∷ p) → table_at root (write m f i e) q ≡ table_at root m q)

    still_blank : (j : ℕ) → write m f i e c j ≡ 0
    still_blank j =
        write_away m f i e c j
          (λ same_table same_index. outside p (stands ∙ ap some (sym same_table)))
        ∙ blank j

    below : (q : List ℕ) (j : ℕ) → q ≡ (i ∷ p) → table_at root m (j ∷ q) ≡ none
    below q j same = rw (same, stands, empty) refl

    table_at-Linked : (q : List ℕ) → Linked q
    table_at-Linked [] = ((λ same. absurd (omega (arith, ap length same))), λ other. refl)
    table_at-Linked (j ∷ q) = by_path (table_at-Linked q)
      where
        by_path : Linked q → Linked (j ∷ q)
        by_path before = (here, elsewhere)
          where
            here : (j ∷ q) ≡ (i ∷ p) → table_at root (write m f i e) (j ∷ q) ≡ some c
            here same =
                let top : table_at root (write m f i e) p ≡ some f =
                  subst (λ x. table_at root (write m f i e) x ≡ table_at root m x)
                    (tail-eq j i q p same)
                    (before.1 (λ longer_one. longer i p (sym (tail-eq j i q p same) ∙ longer_one)))
                  ∙ stands in
                subst (λ x. table_at root (write m f i e) x ≡ some c) (sym same)
                  (rw (top, write_here m f i e) links)

            elsewhere :
                (j ∷ q) ≢ (i ∷ p) → table_at root (write m f i e) (j ∷ q) ≡ table_at root m (j ∷ q)
            elsewhere other = elim (path-cases q (i ∷ p)) [
              | inl same ↦ rw (before.0 same, still_blank j) (sym (below q j same))
              | inr away_from ↦ elim (Option-cases (table_at root m q)) [
                | inl none_there ↦ rw (before.1 away_from, none_there) refl
                | inr (g, at_q) ↦ rw (before.1 away_from, at_q) (ap link (away q j g other at_q))
              ]
            ]

    pub link-table_at_here : table_at root (write m f i e) (i ∷ p) ≡ some c
    link-table_at_here = (table_at-Linked (i ∷ p)).0 refl

    pub link-table_at :
        (q : List ℕ) → q ≢ (i ∷ p) → table_at root (write m f i e) q ≡ table_at root m q
    link-table_at q other = (table_at-Linked q).1 other

    pub link-entry_at :
        (q : List ℕ) → q ≢ (i ∷ p) → entry_at root (write m f i e) q ≡ entry_at root m q
    link-entry_at [] other = refl
    link-entry_at (j ∷ q) other = elim (path-cases q (i ∷ p)) [
      | inl same ↦ rw ((table_at-Linked q).0 same, still_blank j, same, empty_link) refl
      | inr away_from ↦ elim (Option-cases (table_at root m q)) [
        | inl none_there ↦ rw ((table_at-Linked q).1 away_from, none_there) refl
        | inr (g, at_q) ↦ rw ((table_at-Linked q).1 away_from, at_q) (away q j g other at_q)
      ]
    ]
