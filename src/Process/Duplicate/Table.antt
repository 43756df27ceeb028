-- ===== src/Process/Duplicate/Table.antt =====
-- The pages of one second level table in duplicate_user_space.
use sye.Base.{
  ℕ, zero, suc, ◌+◌, ◌*◌, ◌/◌, ◌<◌, ◌≤◌, ◌≡◌, refl, sym, ap, ◌∙◌, ◌≢◌, inl, inr, true, false, not,
  some, length, get_or, arith, ℕ_discrete, Bool-cases, ◌==◌, one_if,
}
use sye.Mmu.{Macros, page_size, sect_size}
use sye.Mmu.Walk.{IsMmu, IsTable}
use sye.Process.Duplicate.{Spaces, Fixmap, copy_entry, copy_entries}
use sye.Process.Duplicate.State.{
  IsWhole, IsFree, users, CopyOf, no_page, Going, Step, Step-refl, Step-trans, CopyOf-Step,
}
use sye.Process.Duplicate.Entry.{copy_entry-page}

-- The pages of a table, from entry `j` on with `left` to go.
unfoldable pub held : (left j : ℕ) → (ℕ → ℕ) → ℕ
held zero j table = 0
held (suc left) j table = one_if (not (table j == 0)) + held left (j + 1) table

module _ (h : Macros) (laws : IsMmu h) (c : Fixmap) (s0 : Spaces) (whole : IsWhole c)
    (pages : IsFree s0.free_pages) (fuel : ℕ) (enough : 256 ≤ fuel)
    (above : c.kernel_vaddr ≤ c.fixmap) (i : ℕ) (user : i < users h laws c)
    (addr : (j : ℕ) → j < 256 → c.pte_index_to_vaddr i j ≡ i * sect_size + j * page_size)
    (parent : IsTable h (s0.tables.l1 i))
    (in_use : (j k o : ℕ)
      → j < 256
      → k < length s0.free_pages
      → o < page_size
      → (s0.tables.l2 (h.table_of (s0.tables.l1 i)) j == 0) ≡ false
      → (h.small_addr (s0.tables.l2 (h.table_of (s0.tables.l1 i)) j) + o) / page_size
        ≢ get_or s0.free_pages k 0 / page_size) where
  abbrev pub table : ℕ → ℕ
  table = s0.tables.l2 (h.table_of (s0.tables.l1 i))

  copy_entry-none :
      (b j n : ℕ) (s : Spaces)
      → Going h laws c s0 s n
      → (table j == 0) ≡ true
      → copy_entry h c fuel (h.table_of (s0.tables.l1 i)) b i j s ≡ some s
  unfolding copy_entry
  copy_entry-none b j n s going empty =
      let not_fix : c.fixmap / sect_size ≢ i = omega arith in
      rw (going.parents i not_fix parent, empty) refl

  copy_entry-next :
      (b j n : ℕ) (s : Spaces)
      → Going h laws c s0 s n
      → IsTable h (s.dst i)
      → b ≡ h.table_of (s.dst i)
      → j < 256
      → s.tables.l2 b j ≡ 0
      → n + one_if (not (table j == 0)) ≤ length s0.free_pages
      → one_if (not (table j == 0)) ≤ length s.tables.pool
      → (s' : Spaces) × (copy_entry h c fuel (h.table_of (s0.tables.l1 i)) b i j s ≡ some s')
        × Going h laws c s0 s' (n + one_if (not (table j == 0)))
        × Step h laws c s0 s s' n (n + one_if (not (table j == 0))) b j (j + 1)
        × CopyOf h laws c s0.free_pages
            (n + one_if (not (table j == 0)))
            s0.memory
            s'.memory
            (table j)
            (s'.tables.l2 b j)
  copy_entry-next b j n s going mine e short blank fits room = elim (Bool-cases (table j == 0)) [
    | inl empty ↦
        let same : n + 0 ≡ n = omega arith in
        let zero_entry : table j ≡ 0 = ground arith in
        (
          s,
          copy_entry-none b j n s going empty,
          rw (empty, same) going,
          rw (empty, same) (Step-refl h laws c s0 s n b j (j + 1)),
          rw (empty, same) (no_page zero_entry blank),
        )
    | inr used ↦
        let one : n + one_if (not (table j == 0)) ≡ suc n = rw used (omega arith) in
        let next : suc j ≡ j + 1 = omega arith in
        let (s', run, going', step, copy) =
          copy_entry-page h laws c s0 whole pages fuel enough i j user above short (addr j short)
            parent s n going mine used (omega arith) (λ k o p q. in_use j k o short p q used)
            (omega arith) in
        (s', rw e run, rw one going', rw (one, e, ← next) step, rw (one, e) copy)
  ]

  pub copy_entries-CopyOf :
      (left b j n : ℕ) (s : Spaces)
      → j + left ≡ 256
      → Going h laws c s0 s n
      → IsTable h (s.dst i)
      → b ≡ h.table_of (s.dst i)
      → ((x : ℕ) → j ≤ x → x < 256 → s.tables.l2 b x ≡ 0)
      → n + held left j table ≤ length s0.free_pages
      → held left j table ≤ length s.tables.pool
      → (s' : Spaces) × (copy_entries h c fuel left (h.table_of (s0.tables.l1 i)) b i j s ≡ some s')
        × Going h laws c s0 s' (n + held left j table)
        × Step h laws c s0 s s' n (n + held left j table) b j 256
        × ((x : ℕ)
            → j ≤ x
            → x < 256
            → CopyOf h laws c s0.free_pages
                (n + held left j table)
                s0.memory
                s'.memory
                (table x)
                (s'.tables.l2 b x))
  unfolding copy_entries held
  copy_entries-CopyOf zero b j n s e going mine eb blank fits room =
      let same : n + 0 ≡ n = omega arith in
      (
        s,
        refl,
        rw same going,
        rw same (Step-refl h laws c s0 s n b j 256),
        λ x p q. absurd (omega arith),
      )
  copy_entries-CopyOf (suc left) b j n s e going mine eb blank fits room =
      let (s1, run1, going1, step1, copy1) =
        copy_entry-next b j n s going mine eb (omega arith) (blank j (omega arith) (omega arith))
          (omega arith) (omega arith) in
      let n1 = n + one_if (not (table j == 0)) in
      let d : s.dst i ≡ s1.dst i = ap (λ f. f i) (sym step1.dst) in
      let mine1 : IsTable h (s1.dst i) =
        (ap (λ w. w == 0) (sym d) ∙ mine.0, ap h.l1pte_is_sect (sym d) ∙ mine.1) in
      let (s2, run2, going2, step2, copy2) =
        copy_entries-CopyOf left b (j + 1) n1 s1 (omega arith) going1 mine1 (eb ∙ ap h.table_of d)
          (λ x p q. step1.same_table x (inr p) ∙ blank x (omega arith) q) (omega arith)
          (omega (arith, step1.room)) in
      let sum : n1 + held left (j + 1) table
          ≡ n + (one_if (not (table j == 0)) + held left (j + 1) table) =
        omega arith in
      (
        s2,
        rw run1 run2,
        rw (← sum) going2,
        rw (← sum) (
            Step-trans h laws c s0 s s1 s2 n n1 _ b j (j + 1) 256 (omega arith) (omega arith) step1
              step2),
        λ x p q. elim (ℕ_discrete j x) [
          | yes here ↦
              let same = step2.same_table j (inl (omega arith)) in
              let old =
                CopyOf-Step h laws c s0 whole pages s1 s2 n1 _ b (j + 1) 256 (table j)
                  (s1.tables.l2 b j) (omega arith) step2 copy1 in
              rw (← sum, ← here, same) old
          | no other ↦ rw (← sum) (copy2 x (omega arith) q)
        ],
      )
