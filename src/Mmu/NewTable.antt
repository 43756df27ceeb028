-- ===== src/Mmu/NewTable.antt =====
-- A first level entry of Mmu.antt that changes: to a section, or to a new table by `table_at`.
use sye.Base.{
  ℕ, suc, ◌%◌, ◌≤◌, ◌<◌, ◌≡◌, refl, sym, ap, ◌∙◌, ◌≢◌, ◌⊎◌, inl, inr, Bool, true, false, some, List,
  ◌∷◌, arith, ◌==◌, Bool-cases, length, get_or, ℕ_discrete, first_element,
}
use sye.Mmu.{Macros, Tables, write, table_at}
use sye.Mmu.Small.{write-here, write-other}
use sye.Mmu.Walk.{IsMmu, walk_entry, walk, IsTable, IsTables, walk_entry-agree}

module _ (h : Macros) (laws : IsMmu h) where
  -- The tables after first level entry `i` was changed at most.
  pub record Kept (i : ℕ) (t t' : Tables) : Type 0 where
    pub tables : IsTables h t'
    pub entries : (j : ℕ) → i ≢ j → t'.l1 j ≡ t.l1 j
    pub room : length t.pool ≤ suc (length t'.pool)

  -- What entry `i` does not reach: the other second level tables, and the blocks that are left for
  -- new ones. Its table is the one of before, or a block.
  pub record Shared (i : ℕ) (t t' : Tables) : Type 0 where
    pub is_table : IsTable h (t'.l1 i)
    pub others : (b : ℕ) → b ≢ h.table_of (t'.l1 i) → t'.l2 b ≡ t.l2 b
    pub blocks :
        (k : ℕ)
        → k < length t'.pool
        → (n : ℕ) × (n < length t.pool) × (get_or t'.pool k 0 ≡ get_or t.pool n 0)
    pub source :
        (IsTable h (t.l1 i) × (t'.l1 i ≡ t.l1 i))
        ⊎ ((n : ℕ) × (n < length t.pool) × (h.table_of (t'.l1 i) ≡ get_or t.pool n 0))

  -- Entry `i` becomes one that is for no table.
  pub no_table-IsTables :
      (t : Tables) (i w : ℕ)
      → ¬ IsTable h w
      → IsTables h t
      → IsTables h (record t { l1 = write t.l1 i w })
  no_table-IsTables t i w s ok = record {
    apart = λ j k p q e.
        ok.apart j k (was j p) (was k q)
          (ap h.table_of (sym (kept j p)) ∙ e ∙ ap h.table_of (kept k q));
    fresh = λ j k p q e. ok.fresh j k (was j p) q (e ∙ ap h.table_of (kept j p));
    distinct = ok.distinct;
    aligned = ok.aligned;
  }
    where
      kept : (j : ℕ) → IsTable h (write t.l1 i w j) → write t.l1 i w j ≡ t.l1 j
      kept j (p, q) = elim (Bool-cases (i == j)) [
        | inl here ↦
            let new : w ≡ write t.l1 i w j = rw here refl in
            absurd (s (ap (λ x. x == 0) new ∙ p, ap h.l1pte_is_sect new ∙ q))
        | inr other ↦ rw other refl
      ]

      was : (j : ℕ) → IsTable h (write t.l1 i w j) → IsTable h (t.l1 j)
      was j (p, q) =
          let e = kept j (p, q) in (ap (λ x. x == 0) (sym e) ∙ p, ap h.l1pte_is_sect (sym e) ∙ q)

  pub zero-IsTables :
      (t : Tables) (i : ℕ) (freed : List ℕ)
      → IsTables h t
      → IsTables h (record t { l1 = write t.l1 i 0; freed = freed })
  zero-IsTables t i freed ok =
      let r = no_table-IsTables t i 0 (λ (p, q). cc) ok in
      record { apart = r.apart; fresh = r.fresh; distinct = r.distinct; aligned = r.aligned }

  -- A new table for entry `i`, which was 0.
  pub new_table-IsTables :
      (t : Tables) (i a : ℕ) (pool : List ℕ) (nocache : Bool)
      → t.pool ≡ a ∷ pool
      → IsTables h t
      → IsTables h (record t {
        l1 = write t.l1 i (h.table_entry a nocache);
        l2 = write t.l2 a (λ k. 0);
        pool = pool;
      })
  new_table-IsTables t i a pool nocache e ok = record {
    apart = λ j k p q same. elim (table_case j p) [
      | inl (here, new) ↦ elim (table_case k q) [
        | inl (here', new') ↦ sym here ∙ here'
        | inr (old, was) ↦ absurd (unused k was (sym new ∙ same ∙ ap h.table_of old))
      ]
      | inr (old, was) ↦ elim (table_case k q) [
        | inl (here, new) ↦ absurd (unused j was (sym new ∙ sym same ∙ ap h.table_of old))
        | inr (old', was') ↦
            ok.apart j k was was' (ap h.table_of (sym old) ∙ same ∙ ap h.table_of old')
      ]
    ];
    fresh = λ j k p q same. elim (table_case j p) [
      | inl (here, new) ↦
          ok.distinct 0 (suc k) (omega arith) (omega (arith, count))
            (first ∙ sym new ∙ sym same ∙ sym (next k))
      | inr (old, was) ↦
          ok.fresh j (suc k) was (omega (arith, count)) (next k ∙ same ∙ ap h.table_of old)
    ];
    distinct = λ k l p q same.
        ok.distinct (suc k) (suc l) (omega arith) (omega (arith, count))
          (next k ∙ same ∙ sym (next l));
    aligned = λ k p. ap (λ x. x % 1024) (sym (next k)) ∙ ok.aligned (suc k) (omega (arith, count));
  }
    where
      count : length t.pool ≡ suc (length pool)
      count = ap length e

      first : get_or t.pool 0 0 ≡ a
      first = ap (λ p. get_or p 0 0) e

      next : (k : ℕ) → get_or t.pool (suc k) 0 ≡ get_or pool k 0
      next k = ap (λ p. get_or p (suc k) 0) e

      even : a % 1024 ≡ 0
      even = ap (λ x. x % 1024) (sym first) ∙ ok.aligned 0 (omega (arith, count))

      unused : (k : ℕ) → IsTable h (t.l1 k) → a ≢ h.table_of (t.l1 k)
      unused k was same = ok.fresh k 0 was (omega (arith, count)) (first ∙ same)

      table_case :
          (j : ℕ)
          → IsTable h (write t.l1 i (h.table_entry a nocache) j)
          → ((i ≡ j) × (h.table_of (write t.l1 i (h.table_entry a nocache) j) ≡ a))
            ⊎ ((write t.l1 i (h.table_entry a nocache) j ≡ t.l1 j) × IsTable h (t.l1 j))
      table_case j (p, q) = elim (ℕ_discrete i j) [
        | yes here ↦ inl (
          here,
          rw (sym here) (ap h.table_of (write-here t.l1 i _) ∙ laws.table_addr a nocache even),
        )
        | no other ↦
            let old = write-other t.l1 i j (h.table_entry a nocache) other in
            inr (old, (ap (λ x. x == 0) (sym old) ∙ p, ap h.l1pte_is_sect (sym old) ∙ q))
      ]

  -- An empty table in place of a 0 changes no address.
  pub new_table-walk :
      (t : Tables) (i a : ℕ) (pool : List ℕ) (nocache : Bool) (v : ℕ)
      → a % 1024 ≡ 0
      → ((j : ℕ) → IsTable h (t.l1 j) → a ≢ h.table_of (t.l1 j))
      → (t.l1 i == 0) ≡ true
      → walk h
          (record t {
            l1 = write t.l1 i (h.table_entry a nocache);
            l2 = write t.l2 a (λ k. 0);
            pool = pool;
          })
          v
        ≡ walk h t v
  unfolding walk
  new_table-walk t i a pool nocache v even unused empty = elim (ℕ_discrete i (h.l1pte_index v)) [
    | yes here ↦
        let empty' : (t.l1 (h.l1pte_index v) == 0) ≡ true = rw (sym here) empty in
        let new : write t.l1 i (h.table_entry a nocache) (h.l1pte_index v)
            ≡ h.table_entry a nocache =
          ap (write t.l1 i _) (sym here) ∙ write-here t.l1 i _ in
        rw
          (
            new,
            empty',
            laws.table_used a nocache even,
            laws.table_kind a nocache even,
            laws.table_addr a nocache even,
            write-here t.l2 a (λ k. 0),
          )
          refl
    | no other ↦
        ap (λ w. walk_entry h (write t.l2 a (λ k. 0)) w v)
          (write-other t.l1 i (h.l1pte_index v) (h.table_entry a nocache) other)
        ∙ walk_entry-agree h t.l2 (write t.l2 a (λ k. 0)) (t.l1 (h.l1pte_index v)) v λ was.
          ap (λ f. f (h.l2pte_index v))
            (write-other t.l2 a (h.table_of (t.l1 (h.l1pte_index v))) (λ k. 0) (unused _ was))
  ]

  table_at-new :
      (i a : ℕ) (pool : List ℕ) (nocache : Bool) (t : Tables)
      → (t.l1 i == 0) ≡ true
      → t.pool ≡ a ∷ pool
      → table_at h i nocache t
        ≡ some (record t {
          l1 = write t.l1 i (h.table_entry a nocache);
          l2 = write t.l2 a (λ k. 0);
          pool = pool;
        })
  unfolding table_at
  table_at-new i a pool nocache t empty e = rw (table_at, empty, e) refl

  -- Entry `i` is for a table after `table_at`, and every address is as before.
  pub table_at-Kept :
      (i : ℕ) (nocache : Bool) (t : Tables)
      → IsTables h t
      → 0 < length t.pool
      → h.l1pte_is_sect (t.l1 i) ≡ false
      → (t' : Tables) × (table_at h i nocache t ≡ some t')
        × IsTable h (t'.l1 i)
        × Kept i t t'
        × ((v : ℕ) → walk h t' v ≡ walk h t v)
        × Shared i t t'
  unfolding table_at
  table_at-Kept i nocache t ok room small = elim (Bool-cases (t.l1 i == 0)) [
    | inr used ↦ (
      t,
      rw used refl,
      (used, small),
      record { tables = ok; entries = λ j other. refl; room = omega arith },
      λ v. refl,
      record {
        is_table = (used, small);
        others = λ b other. refl;
        blocks = λ k p. (k, p, refl);
        source = inl ((used, small), refl);
      },
    )
    | inl empty ↦
        let (a, pool, e) = first_element t.pool room in
        let first : get_or t.pool 0 0 ≡ a = ap (λ p. get_or p 0 0) e in
        let even : a % 1024 ≡ 0 = ap (λ x. x % 1024) (sym first) ∙ ok.aligned 0 room in
        let new = write-here t.l1 i (h.table_entry a nocache) in
        let addr = ap h.table_of new ∙ laws.table_addr a nocache even in
        (
          record t {
            l1 = write t.l1 i (h.table_entry a nocache);
            l2 = write t.l2 a (λ k. 0);
            pool = pool;
          },
          table_at-new i a pool nocache t empty e,
          (
            ap (λ x. x == 0) new ∙ laws.table_used a nocache even,
            ap h.l1pte_is_sect new ∙ laws.table_kind a nocache even,
          ),
          record {
            tables = new_table-IsTables t i a pool nocache e ok;
            entries = λ j other. write-other t.l1 i j _ other;
            room = omega (arith, ap length e);
          },
          λ v.
              new_table-walk t i a pool nocache v even
                (λ j was same. ok.fresh j 0 was room (first ∙ same)) empty,
          record {
            is_table = (
              ap (λ x. x == 0) new ∙ laws.table_used a nocache even,
              ap h.l1pte_is_sect new ∙ laws.table_kind a nocache even,
            );
            others = λ b other. write-other t.l2 a b (λ k. 0) (λ same. other (sym same ∙ sym addr));
            blocks =
                λ k p. (suc k, omega (arith, ap length e), sym (ap (λ l. get_or l (suc k) 0) e));
            source = inr (0, room, addr ∙ sym first);
          },
        )
  ]
