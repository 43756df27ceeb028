-- ===== src/Process/Duplicate/Apart.antt =====
-- The second level tables of a parent and of its child are apart while duplicate_user_space runs.
use sye.Base.{
  ℕ, suc, ◌%◌, ◌<◌, ◌≡◌, sym, ap, ◌∙◌, ◌≢◌, inl, inr, false, List, ◌∷◌, length, get_or, arith,
  ℕ_discrete, ◌==◌,
}
use sye.Mmu.{Macros, Tables, write}
use sye.Mmu.Small.{write-here, write-other}
use sye.Mmu.Walk.{IsMmu, IsTable, IsTables, walk, walk_entry-agree}
use sye.Mmu.NewTable.{Kept, Shared, new_table-IsTables}

module _ (h : Macros) (laws : IsMmu h) (users : ℕ) where
  -- The tables as the child sees them.
  abbrev pub seen : Tables → (ℕ → ℕ) → Tables
  seen t dst = record t { l1 = dst }

  -- The child has no table of the parent below entry `users`; above, it has those of the kernel.
  pub record Apart (t : Tables) (dst : ℕ → ℕ) : Type 0 where
    pub mine : IsTables h t
    pub child : IsTables h (seen t dst)
    pub both :
        (i j : ℕ)
        → j < users
        → IsTable h (t.l1 i)
        → IsTable h (dst j)
        → h.table_of (t.l1 i) ≢ h.table_of (dst j)

  -- Second level entries change no table.
  pub Apart-l2 :
      (t : Tables) (dst : ℕ → ℕ) (l2 : ℕ → ℕ → ℕ) → Apart t dst → Apart (record t { l2 = l2 }) dst
  Apart-l2 t dst l2 r = record {
    mine = record {
      apart = r.mine.apart;
      fresh = r.mine.fresh;
      distinct = r.mine.distinct;
      aligned = r.mine.aligned;
    };
    child = record {
      apart = r.child.apart;
      fresh = r.child.fresh;
      distinct = r.child.distinct;
      aligned = r.child.aligned;
    };
    both = r.both;
  }

  -- Entry `i` of the parent changes, to a table of before or to a block.
  module _ (i : ℕ) (t t' : Tables) (dst : ℕ → ℕ) (kept : Kept h laws i t t')
      (shared : Shared h laws i t t') (r : Apart t dst) where
    child_fresh :
        (j k : ℕ) → IsTable h (dst j) → k < length t'.pool → get_or t'.pool k 0 ≢ h.table_of (dst j)
    child_fresh j k p q same =
        let (n, lt, e) = shared.blocks k q in r.child.fresh j n p lt (sym e ∙ same)

    entry_both :
        (j : ℕ)
        → j < users
        → IsTable h (t'.l1 i)
        → IsTable h (dst j)
        → h.table_of (t'.l1 i) ≢ h.table_of (dst j)
    entry_both j user p q same = elim shared.source [
      | inl (was, e) ↦ r.both i j user was q (ap h.table_of (sym e) ∙ same)
      | inr (n, lt, e) ↦ r.child.fresh j n q lt (sym e ∙ same)
    ]

    pub Apart-kept : Apart t' dst
    Apart-kept = record {
      mine = kept.tables;
      child = record {
        apart = r.child.apart;
        fresh = child_fresh;
        distinct = kept.tables.distinct;
        aligned = kept.tables.aligned;
      };
      both = λ j k user p q same. elim (ℕ_discrete i j) [
        | yes here ↦
            let (a, b) = p in
            entry_both k user
              (ap (λ x. t'.l1 x == 0) here ∙ a, ap (λ x. h.l1pte_is_sect (t'.l1 x)) here ∙ b) q
              (ap (λ x. h.table_of (t'.l1 x)) here ∙ same)
        | no other ↦
            let e = kept.entries j other in
            let (a, b) = p in
            r.both j k user (ap (λ x. x == 0) (sym e) ∙ a, ap h.l1pte_is_sect (sym e) ∙ b) q
              (ap h.table_of (sym e) ∙ same)
      ];
    }

    -- The entries of the child are as before.
    pub child-kept :
        (j : ℕ)
        → j < users
        → IsTable h (t'.l1 i)
        → IsTable h (dst j)
        → t'.l2 (h.table_of (dst j)) ≡ t.l2 (h.table_of (dst j))
    child-kept j user p q =
        shared.others (h.table_of (dst j)) (λ same. entry_both j user p q (sym same))

  -- A block becomes a table of the child.
  pub Apart-new :
      (i b : ℕ) (pool : List ℕ) (t : Tables) (dst : ℕ → ℕ)
      → t.pool ≡ b ∷ pool
      → Apart t dst
      → Apart
          (record t { l2 = write t.l2 b (λ k. 0); pool = pool })
          (write dst i (h.table_entry b false))
  Apart-new i b pool t dst e r =
      let child = new_table-IsTables h laws (seen t dst) i b pool false e r.child in
      let first : get_or t.pool 0 0 ≡ b = ap (λ l. get_or l 0 0) e in
      let count : length t.pool ≡ suc (length pool) = ap length e in
      let even : b % 1024 ≡ 0 =
        ap (λ x. x % 1024) (sym first) ∙ r.mine.aligned 0 (omega (arith, count)) in
      record {
        mine = record {
          apart = r.mine.apart;
          fresh = λ j k p q same.
              r.mine.fresh j (suc k) p (omega (arith, count))
                (ap (λ l. get_or l (suc k) 0) e ∙ same);
          distinct = child.distinct;
          aligned = child.aligned;
        };
        child = child;
        both = λ j k user p q same. elim (ℕ_discrete i k) [
          | yes here ↦
              let new : write dst i (h.table_entry b false) k ≡ h.table_entry b false =
                rw (sym here) (write-here dst i (h.table_entry b false)) in
              r.mine.fresh j 0 p (omega (arith, count))
                (first ∙ sym (laws.table_addr b false even) ∙ ap h.table_of (sym new) ∙ sym same)
          | no other ↦
              let old = write-other dst i k (h.table_entry b false) other in
              let (x, y) = q in
              r.both j k user p (ap (λ w. w == 0) (sym old) ∙ x, ap h.l1pte_is_sect (sym old) ∙ y)
                (same ∙ ap h.table_of old)
        ];
      }

  -- A write to a table of the child changes no address of the parent.
  pub child-walk :
      (t : Tables) (dst : ℕ → ℕ) (j v : ℕ) (table : ℕ → ℕ)
      → Apart t dst
      → j < users
      → IsTable h (dst j)
      → walk h (record t { l2 = write t.l2 (h.table_of (dst j)) table }) v ≡ walk h t v
  unfolding walk
  child-walk t dst j v table r user q =
      walk_entry-agree h t.l2 (write t.l2 (h.table_of (dst j)) table) (t.l1 (h.l1pte_index v)) v
        λ was.
          ap (λ f. f (h.l2pte_index v))
            (write-other t.l2 (h.table_of (dst j)) (h.table_of (t.l1 (h.l1pte_index v))) table
              (λ same. r.both (h.l1pte_index v) j user was q (sym same)))
