-- ===== src/Mmu/Reset.antt =====
-- The tables that `reset_root_pgtable` of Mmu.antt gives back.
use sye.Base.{
  ℕ, zero, suc, ◌+◌, ◌≤◌, ◌<◌, ◌≡◌, refl, sym, ◌∙◌, ◌≢◌, ◌⊎◌, inl, inr, Bool, true, false, not,
  ◌&&◌, List, ◌∷◌, arith, ◌==◌, if◌then◌else◌, Bool-cases, count_if, one_if,
}
use sye.Mmu.{Macros, Tables, reset_entry, reset_loop, reset_root_pgtable}
use sye.Mmu.Small.{write-here, write-other}
use sye.Mmu.Walk.{IsMmu, IsTable, IsTables}
use sye.Mmu.NewTable.{zero-IsTables}

module _ (h : Macros) where
  -- The entry is for the table at `a`.
  abbrev pub is_table_at : (w a : ℕ) → Bool
  is_table_at w a = not (w == 0) && (not (h.l1pte_is_sect w) && (a == h.table_of w))

  -- How many of the `left` entries from `i` on are for the table at `a`.
  unfoldable pub tables_at : (ℕ → ℕ) → (left i a : ℕ) → ℕ
  tables_at l1 zero i a = 0
  tables_at l1 (suc left) i a = one_if (is_table_at (l1 i) a) + tables_at l1 left (i + 1) a

  abbrev pub times_freed : ℕ → Tables → ℕ
  times_freed a t = count_if (λ b. a == b) t.freed

  tables_at-agree :
      (l1 l1' : ℕ → ℕ) (left i a : ℕ)
      → ((j : ℕ) → i ≤ j → l1' j ≡ l1 j)
      → tables_at l1' left i a ≡ tables_at l1 left i a
  unfolding tables_at
  tables_at-agree l1 l1' zero i a same = refl
  tables_at-agree l1 l1' (suc left) i a same =
      rw (same i (omega arith), tables_at-agree l1 l1' left (i + 1) a (λ j p. same j (omega arith)))
        refl

  -- The tables after the `left` entries from `i` on are reset.
  record Cleared (left i : ℕ) (t t' : Tables) : Type 0 where
    pub cleared : (j : ℕ) → i ≤ j → j < i + left → t'.l1 j ≡ 0
    pub kept : (j : ℕ) → (j < i) ⊎ (i + left ≤ j) → t'.l1 j ≡ t.l1 j
    pub counted : (a : ℕ) → times_freed a t' ≡ times_freed a t + tables_at t.l1 left i a

  entry-cleared : (i : ℕ) (t : Tables) → (reset_entry h i t).l1 i ≡ 0
  unfolding reset_entry
  entry-cleared i t = elim (Bool-cases (t.l1 i == 0)) [
    | inl e ↦ rw e (ground arith)
    | inr e ↦ rw e (write-here t.l1 i 0)
  ]

  entry-kept : (i j : ℕ) (t : Tables) → i ≢ j → (reset_entry h i t).l1 j ≡ t.l1 j
  unfolding reset_entry
  entry-kept i j t other = elim (Bool-cases (t.l1 i == 0)) [
    | inl e ↦ rw e refl
    | inr e ↦ rw e (write-other t.l1 i j 0 other)
  ]

  entry-counted :
      (i a : ℕ) (t : Tables)
      → times_freed a (reset_entry h i t) ≡ times_freed a t + one_if (is_table_at (t.l1 i) a)
  unfolding reset_entry count_if
  entry-counted i a t = elim (Bool-cases (t.l1 i == 0)) [
    | inl e ↦ rw e (omega arith)
    | inr e ↦ elim (Bool-cases (h.l1pte_is_sect (t.l1 i))) [
      | inl s ↦ rw (e, s) (omega arith)
      | inr s ↦ rw (e, s) (omega arith)
    ]
  ]

  reset_loop-Cleared : (left i : ℕ) (t : Tables) → Cleared left i t (reset_loop h left i t)
  unfolding reset_loop tables_at
  reset_loop-Cleared zero i t = record {
    cleared = λ j p q. absurd (omega arith);
    kept = λ j away. refl;
    counted = λ a. omega arith;
  }
  reset_loop-Cleared (suc left) i t =
      let t1 = reset_entry h i t in
      let r = reset_loop-Cleared left (i + 1) t1 in
      record {
        cleared = λ j p q. elim (Bool-cases (j == i)) [
          | inl e ↦
              let here : j ≡ i = ground arith in
              rw here (r.kept i (inl (omega arith)) ∙ entry-cleared i t)
          | inr e ↦ let past : suc i ≤ j = ground arith in r.cleared j (omega arith) (omega arith)
        ];
        kept = λ j away. elim away [
          | inl p ↦ r.kept j (inl (omega arith)) ∙ entry-kept i j t (λ q. omega arith)
          | inr p ↦ r.kept j (inr (omega arith)) ∙ entry-kept i j t (λ q. omega arith)
        ];
        counted = λ a. omega (
          arith,
          r.counted a,
          entry-counted i a t,
          tables_at-agree t.l1 t1.l1 left (i + 1) a (λ j p. entry-kept i j t (λ q. omega arith)),
        );
      }

  is_table_at-IsTable : (w a : ℕ) → is_table_at w a ≡ true → IsTable h w × (a ≡ h.table_of w)
  is_table_at-IsTable w a e = elim (Bool-cases (w == 0)) [
    | inl z ↦ let no : is_table_at w a ≡ false = rw z refl in cc
    | inr z ↦ elim (Bool-cases (h.l1pte_is_sect w)) [
      | inl s ↦ let no : is_table_at w a ≡ false = rw (z, s) refl in cc
      | inr s ↦
          let at : (a == h.table_of w) ≡ true =
            (let l : is_table_at w a ≡ (a == h.table_of w) = rw (z, s) refl in sym l ∙ e) in
          ((z, s), ground arith)
    ]
  ]

  -- After an entry for the table at `a`, no other is.
  tables_at-none :
      (t : Tables) (k left i a : ℕ)
      → IsTables h t
      → IsTable h (t.l1 k)
      → a ≡ h.table_of (t.l1 k)
      → k < i
      → tables_at t.l1 left i a ≡ 0
  unfolding tables_at
  tables_at-none t k zero i a ok is e p = refl
  tables_at-none t k (suc left) i a ok is e p =
      let rest = tables_at-none t k left (i + 1) a ok is e (omega arith) in
      elim (Bool-cases (is_table_at (t.l1 i) a)) [
        | inl s ↦
            let (is', e') = is_table_at-IsTable (t.l1 i) a s in
            let same = ok.apart k i is is' (sym e ∙ e') in absurd (omega arith)
        | inr s ↦ rw (s, rest) refl
      ]

  tables_at-once : (t : Tables) (left i a : ℕ) → IsTables h t → tables_at t.l1 left i a ≤ 1
  unfolding tables_at
  tables_at-once t zero i a ok = omega arith
  tables_at-once t (suc left) i a ok = elim (Bool-cases (is_table_at (t.l1 i) a)) [
    | inl s ↦
        let (is, e) = is_table_at-IsTable (t.l1 i) a s in
        let rest = tables_at-none t i left (i + 1) a ok is e (omega arith) in
        rw (s, rest) (omega arith)
    | inr s ↦ let rest = tables_at-once t left (i + 1) a ok in rw s (omega arith)
  ]

  -- The tables after a reset with `n` user entries.
  pub record Reset (n pgtable : ℕ) (remove : Bool) (t t' : Tables) : Type 0 where
    pub cleared : (j : ℕ) → j < n → t'.l1 j ≡ 0
    pub kept : (j : ℕ) → n ≤ j → t'.l1 j ≡ t.l1 j
    pub counted :
        (a : ℕ)
        → times_freed a t'
          ≡ times_freed a t + tables_at t.l1 n 0 a + one_if (remove && (a == pgtable))
    pub once : (a : ℕ) → tables_at t.l1 n 0 a ≤ 1

  -- When no two entries share a table, `reset_root_pgtable` sets the entries below the one of the
  -- kernel's first address to 0 and keeps the others. It gives back each second level table as
  -- often as one of those entries is for it, which is once at most, and the first level table when
  -- `remove` is true.
  pub reset_root_pgtable-Reset :
      (kernel_vaddr pgtable : ℕ) (remove : Bool) (t : Tables)
      → IsTables h t
      → Reset
          (h.l1pte_index kernel_vaddr)
          pgtable
          remove
          t
          (reset_root_pgtable h kernel_vaddr pgtable remove t)
  unfolding reset_root_pgtable count_if
  reset_root_pgtable-Reset kernel_vaddr pgtable remove t ok =
      let n = h.l1pte_index kernel_vaddr in
      let r = reset_loop-Cleared n 0 t in
      record {
        cleared = λ j p. r.cleared j (omega arith) (omega arith);
        kept = λ j p. r.kept j (inr (omega arith));
        counted = λ a. root remove a (reset_loop h n 0 t).freed _ (r.counted a);
        once = λ a. tables_at-once t n 0 a ok;
      }
    where
      root :
          (remove : Bool) (a : ℕ) (freed : List ℕ) (n : ℕ)
          → count_if (λ b. a == b) freed ≡ n
          → count_if (λ b. a == b) (if remove then pgtable ∷ freed else freed)
            ≡ n + one_if (remove && (a == pgtable))
      root true a freed n e = omega (arith, e)
      root false a freed n e = omega (arith, e)

-- A reset writes zeros to first level entries and gives tables back; it leaves all else.
module _ (h : Macros) (laws : IsMmu h) where
  pub record Emptied (t t' : Tables) : Type 0 where
    pub tables : IsTables h t'
    pub l2 : t'.l2 ≡ t.l2
    pub pool : t'.pool ≡ t.pool

  reset_entry-Emptied : (i : ℕ) (t : Tables) → IsTables h t → Emptied t (reset_entry h i t)
  unfolding reset_entry
  reset_entry-Emptied i t ok = elim (Bool-cases (t.l1 i == 0)) [
    | inl e ↦ rw e (record { tables = ok; l2 = refl; pool = refl })
    | inr e ↦ rw e (record { tables = zero-IsTables h laws t i _ ok; l2 = refl; pool = refl })
  ]

  reset_loop-Emptied : (left i : ℕ) (t : Tables) → IsTables h t → Emptied t (reset_loop h left i t)
  unfolding reset_loop
  reset_loop-Emptied zero i t ok = record { tables = ok; l2 = refl; pool = refl }
  reset_loop-Emptied (suc left) i t ok =
      let first = reset_entry-Emptied i t ok in
      let rest = reset_loop-Emptied left (i + 1) (reset_entry h i t) first.tables in
      record { tables = rest.tables; l2 = rest.l2 ∙ first.l2; pool = rest.pool ∙ first.pool }

  pub reset_root_pgtable-Emptied :
      (kernel_vaddr pgtable : ℕ) (remove : Bool) (t : Tables)
      → IsTables h t
      → Emptied t (reset_root_pgtable h kernel_vaddr pgtable remove t)
  unfolding reset_root_pgtable
  reset_root_pgtable-Emptied kernel_vaddr pgtable remove t ok =
      let r = reset_loop-Emptied (h.l1pte_index kernel_vaddr) 0 t ok in
      record {
        tables = record {
          apart = r.tables.apart;
          fresh = r.tables.fresh;
          distinct = r.tables.distinct;
          aligned = r.tables.aligned;
        };
        l2 = r.l2;
        pool = r.pool;
      }
