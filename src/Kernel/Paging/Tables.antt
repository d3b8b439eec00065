-- ===== src/Kernel/Paging/Tables.antt =====
-- What a new table changes of the tree.
use barebone_kernel.Base.{
  ℕ, ◌<◌, ◌≡◌, ◌≢◌, ◌⊎◌, inl, inr, refl, sym, ap, ◌∙◌, subst, arith, List, ◌∷◌, Bool-cases, ◌==◌,
  Option, none, some, length,
}
use barebone_kernel.Kernel.Memory.{PhysAddr}
use barebone_kernel.Kernel.Paging.{Memory, write, zeroed}
use barebone_kernel.Kernel.Paging.Links.{link}
use barebone_kernel.Kernel.Paging.Tree.{
  write_away, zeroed_away, table_at, entry_at, IsTree, Outside, zeroed-table_at, zeroed-entry_at,
  some-eq, leaf-table_at, leaf-entry_at, leaf-entry_at_here, link-table_at_here, link-table_at,
  link-entry_at, path-cases,
}

-- A frame that is not free and is no table stays so, with the same words.
abbrev pub Untouched : (Free Free' : PhysAddr → Type 0) (root : PhysAddr) (m m' : Memory) → Type 0
Untouched Free Free' root m m' =
    (x : PhysAddr)
    → ¬ (Free x)
    → Outside root m x
    → ¬ (Free' x) × Outside root m' x × ((j : ℕ) → m' x j ≡ m x j)

-- Behind `m` the tree has more tables, in frames that were free, and each page's entry is what it was.
pub record Grows (Free Free' : PhysAddr → Type 0) (root : PhysAddr) (m m' : Memory) : Type 0 where
  pub tree : IsTree Free' root m'
  pub tables :
      (q : List ℕ) (f : PhysAddr) → table_at root m q ≡ some f → table_at root m' q ≡ some f
  pub entries : (q : List ℕ) → 2 < length q → entry_at root m' q ≡ entry_at root m q
  pub words : Untouched Free Free' root m m'

module _ {Free : PhysAddr → Type 0} {root : PhysAddr} where
  Untouched-trans :
      {Free' Free'' : PhysAddr → Type 0} {m m' m'' : Memory}
      → Untouched Free Free' root m m'
      → Untouched Free' Free'' root m' m''
      → Untouched Free Free'' root m m''
  Untouched-trans a z x used outside =
      let (used1, outside1, same1) = a x used outside in
      let (used2, outside2, same2) = z x used1 outside1 in (used2, outside2, λ j. same2 j ∙ same1 j)

  pub Grows-trans :
      {Free' Free'' : PhysAddr → Type 0} {m m' m'' : Memory}
      → Grows Free Free' root m m'
      → Grows Free' Free'' root m' m''
      → Grows Free Free'' root m m''
  Grows-trans a z = record {
    tree = z.tree;
    tables = λ q f e. z.tables q f (a.tables q f e);
    entries = λ q h. z.entries q h ∙ a.entries q h;
    words = Untouched-trans a.words z.words;
  }

  pub Grows-refl : {m : Memory} → IsTree Free root m → Grows Free Free root m m
  Grows-refl t = record {
    tree = t;
    tables = λ q f e. e;
    entries = λ q h. refl;
    words = λ x used out. (used, out, λ j. refl);
  }

module _ {Free Free' : PhysAddr → Type 0} {root : PhysAddr} {m : Memory} (t : IsTree Free root m)
    (fewer : (x : PhysAddr) → Free' x → Free x) where
  pub fewer-Grows : Grows Free Free' root m m
  fewer-Grows = record {
    tree = record {
      distinct = t.distinct;
      reserved = λ p f e free. t.reserved p f e (fewer f free);
    };
    tables = λ q f e. e;
    entries = λ q h. refl;
    words = λ x used out. ((λ free. used (fewer x free)), out, λ j. refl);
  }

  module _ (c : PhysAddr) (was_free : Free c) where
    outside : Outside root m c
    outside q e = t.reserved q c e was_free

    pub zeroed-Grows : Grows Free Free' root m (zeroed m c)
    zeroed-Grows = record {
      tree = record {
        distinct = λ p q f a z.
            t.distinct p q f (sym (zeroed-table_at root m c outside p) ∙ a)
              (sym (zeroed-table_at root m c outside q) ∙ z);
        reserved = λ p f e free.
            t.reserved p f (sym (zeroed-table_at root m c outside p) ∙ e) (fewer f free);
      };
      tables = λ q f e. zeroed-table_at root m c outside q ∙ e;
      entries = λ q h. zeroed-entry_at root m c outside q;
      words = λ x used out. (
        (λ free. used (fewer x free)),
        (λ q e. out q (sym (zeroed-table_at root m c outside q) ∙ e)),
        λ j. zeroed_away m c x j (λ same. used (subst Free (sym same) was_free)),
      );
    }

    pub zeroed-Outside : Outside root (zeroed m c) c
    zeroed-Outside q e = outside q (sym (zeroed-table_at root m c outside q) ∙ e)

pub still_empty : (m : Memory) (c f i : ℕ) → m f i ≡ 0 → zeroed m c f i ≡ 0
still_empty m c f i empty = elim (Bool-cases (f == c)) [
  | inl same ↦ rw same refl
  | inr other ↦ rw other empty
]

none-some : (g : PhysAddr) (o : Option PhysAddr) → o ≡ none → ¬ (o ≡ some g)
none-some g o a = λ e. cc

module _ {Free : PhysAddr → Type 0} {root : PhysAddr} {m : Memory} (t : IsTree Free root m)
    (p : List ℕ) (f i e c : ℕ) (stands : table_at root m p ≡ some f) (empty : m f i ≡ 0)
    (outside : Outside root m c) (blank : (j : ℕ) → m c j ≡ 0) (links : link e ≡ some c) where
  abbrev after : Memory
  after = write m f i e

  linked_here : table_at root after (i ∷ p) ≡ some c
  linked_here = link-table_at_here root m t p f i e stands empty c outside blank links

  elsewhere : (q : List ℕ) → q ≢ (i ∷ p) → table_at root after q ≡ table_at root m q
  elsewhere = link-table_at root m t p f i e stands empty c outside blank links

  -- A table behind the link is the new one, or one that was there.
  tables-cases :
      (q : List ℕ) (g : PhysAddr)
      → table_at root after q ≡ some g
      → ((q ≡ (i ∷ p)) × (g ≡ c)) ⊎ (table_at root m q ≡ some g)
  tables-cases q g at_q = elim (path-cases q (i ∷ p)) [
    | inl same ↦ inl (same, some-eq g c (sym at_q ∙ ap (table_at root after) same ∙ linked_here))
    | inr other ↦ inr (sym (elsewhere q other) ∙ at_q)
  ]

  linked-IsTree : ¬ (Free c) → IsTree Free root after
  linked-IsTree taken = record {
    distinct = λ q r g at_q at_r. elim (tables-cases q g at_q) [
      | inl (q_here, new) ↦ elim (tables-cases r g at_r) [
        | inl (r_here, _) ↦ q_here ∙ sym r_here
        | inr old ↦ absurd (outside r (old ∙ ap some new))
      ]
      | inr old ↦ elim (tables-cases r g at_r) [
        | inl (r_here, new) ↦ absurd (outside q (old ∙ ap some new))
        | inr other ↦ t.distinct q r g old other
      ]
    ];
    reserved = λ q g at_q. elim (tables-cases q g at_q) [
      | inl (_, new) ↦ λ free. taken (subst Free new free)
      | inr old ↦ t.reserved q g old
    ];
  }

  -- The new table is in a frame that was free before.
  linked-Untouched :
      {Before : PhysAddr → Type 0}
      → ((x : PhysAddr) → Free x → Before x)
      → Before c
      → Untouched Before Free root m after
  linked-Untouched {Before} fewer was_free x used out = (
    (λ free. used (fewer x free)),
    (λ q at_q. elim (tables-cases q x at_q) [
      | inl (_, new) ↦ used (subst Before (sym new) was_free)
      | inr old ↦ out q old
    ]),
    λ j.
        write_away m f i e x j (λ same_table same_index. out p (stands ∙ ap some (sym same_table))),
  )

  pub link-Grows :
      {Before : PhysAddr → Type 0}
      → ((x : PhysAddr) → Free x → Before x)
      → Before c
      → length p < 2
      → ¬ (Free c)
      → Grows Before Free root m after × (table_at root after (i ∷ p) ≡ some c)
  link-Grows fewer was_free short taken = (
    record {
      tree = linked-IsTree taken;
      tables = λ q g at_q. elsewhere q (λ same. outside_target q g same at_q) ∙ at_q;
      entries = λ q long.
          link-entry_at root m t p f i e stands empty c outside blank links q
            (λ same. absurd (omega (arith, ap length same, long, short)));
      words = linked-Untouched fewer was_free;
    },
    linked_here,
  )
    where
      outside_target : (q : List ℕ) (g : PhysAddr) → q ≡ (i ∷ p) → ¬ (table_at root m q ≡ some g)
      outside_target q g same at_q =
          none-some g (table_at root m q) (rw (same, stands, empty) refl) at_q

-- The page at `path`, and no other, has a new entry; it had none.
pub record Sets (Free Free' : PhysAddr → Type 0) (root : PhysAddr) (path : List ℕ) (e : ℕ)
    (m m' : Memory) : Type 0 where
  pub tree : IsTree Free' root m'
  pub was_empty : entry_at root m path ≡ 0
  pub is_set : entry_at root m' path ≡ e
  pub others : (q : List ℕ) → 2 < length q → q ≢ path → entry_at root m' q ≡ entry_at root m q
  pub words : Untouched Free Free' root m m'

pub leaf-Sets :
    {Free : PhysAddr → Type 0} {root : PhysAddr} {m : Memory}
    → IsTree Free root m
    → (p : List ℕ) (f i e : ℕ) → table_at root m p ≡ some f
    → m f i ≡ 0
    → link e ≡ none
    → Sets Free Free root (i ∷ p) e m (write m f i e)
leaf-Sets {Free} {root} {m} t p f i e stands empty no_link = record {
  tree = record {
    distinct = λ q r g a z. t.distinct q r g (sym (same q) ∙ a) (sym (same r) ∙ z);
    reserved = λ q g a. t.reserved q g (sym (same q) ∙ a);
  };
  was_empty = rw stands empty;
  is_set = leaf-entry_at_here root m t p f i e stands empty no_link;
  others = λ q long other. leaf-entry_at root m t p f i e stands empty no_link q other;
  words = λ x used out. (
    used,
    (λ q at_q. out q (sym (same q) ∙ at_q)),
    λ j.
        write_away m f i e x j (λ same_table same_index. out p (stands ∙ ap some (sym same_table))),
  );
}
  where
    same : (q : List ℕ) → table_at root (write m f i e) q ≡ table_at root m q
    same = leaf-table_at root m t p f i e stands empty no_link

pub Grows-Sets :
    {Free Free' Free'' : PhysAddr → Type 0} {root : PhysAddr} {m m' m'' : Memory} {path : List ℕ}
    {e : ℕ}
    → 2 < length path
    → Grows Free Free' root m m'
    → Sets Free' Free'' root path e m' m''
    → Sets Free Free'' root path e m m''
Grows-Sets {path = path} long g h = record {
  tree = h.tree;
  was_empty = sym (g.entries path long) ∙ h.was_empty;
  is_set = h.is_set;
  others = λ q l other. h.others q l other ∙ g.entries q l;
  words = Untouched-trans g.words h.words;
}
