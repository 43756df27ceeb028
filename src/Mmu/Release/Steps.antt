-- ===== src/Mmu/Release/Steps.antt =====
-- One round of `release_mapping` of Mmu/Release.antt.
use sye.Base.{
  ℕ, zero, suc, ◌+◌, ◌-◌, ◌*◌, ◌/◌, ◌%◌, ◌^◌, u32_below, ◌≤◌, ◌<◌, ◌≡◌, refl, sym, ap, ◌∙◌, ◌⊎◌,
  inl, inr, true, false, none, some, List, arith, ◌==◌, Bool-cases, ℕ_discrete,
}
use sye.Mmu.{Macros, Tables, page_size, sect_size, write}
use sye.Mmu.Small.{write-here, write-other}
use sye.Mmu.Walk.{IsMmu, walk_entry, walk, IsTable, IsTables, walk_entry-agree}
use sye.Mmu.Range.{InSection, same_section, same_table, other_entry}
use sye.Mmu.Release.{free_l2_loop, found}

-- `table'` is `table` after the `n` entries from `p` on were set to 0.
pub record Emptied (p n : ℕ) (table table' : ℕ → ℕ) : Type 0 where
  pub inside : (j : ℕ) → p ≤ j → j < p + n → table' j ≡ 0
  pub outside : (j : ℕ) → (j < p) ⊎ (p + n ≤ j) → table' j ≡ table j

free_l2_loop-suc :
    (n fuel p addr end : ℕ) (table : ℕ → ℕ)
    → n < fuel
    → end ≡ addr + suc n * page_size
    → end < 2 ^ 32
    → (table' : ℕ → ℕ) × (free_l2_loop fuel p addr end table ≡ some table')
      × Emptied p (suc n) table table'
unfolding free_l2_loop
free_l2_loop-suc n zero p addr end table enough e low = absurd (omega arith)
free_l2_loop-suc zero (suc fuel) p addr end table enough e low =
    let next = u32_below (addr + page_size) (omega arith) in
    let stop : (addr + page_size == end) ≡ true = ground arith in
    (
      write table p 0,
      rw (next, stop) refl,
      record {
        inside = λ j a b. let here : j ≡ p = omega arith in rw here (write-here table p 0);
        outside = λ j away.
            write-other table p j 0 (λ q. elim away [ inl a ↦ omega arith | inr a ↦ omega arith ]);
      },
    )
free_l2_loop-suc (suc n) (suc fuel) p addr end table enough e low =
    let next = u32_below (addr + page_size) (omega arith) in
    let go_on : (addr + page_size == end) ≡ false = ground arith in
    let step : free_l2_loop (suc fuel) p addr end table
        ≡ free_l2_loop fuel (p + 1) (addr + page_size) end (write table p 0) =
      rw (next, go_on) refl in
    let (table', run, r) =
      free_l2_loop-suc n fuel (p + 1) (addr + page_size) end (write table p 0) (omega arith)
        (omega arith) low in
    (
      table',
      step ∙ run,
      record {
        inside = λ j a b. elim (Bool-cases (j == p)) [
          | inl t ↦
              let here : j ≡ p = ground arith in
              rw here (r.outside p (inl (omega arith)) ∙ write-here table p 0)
          | inr t ↦ let past : suc p ≤ j = ground arith in r.inside j (omega arith) (omega arith)
        ];
        outside = λ j away. elim away [
          | inl a ↦ r.outside j (inl (omega arith)) ∙ write-other table p j 0 (λ q. omega arith)
          | inr a ↦ r.outside j (inr (omega arith)) ∙ write-other table p j 0 (λ q. omega arith)
        ];
      },
    )

pub free_l2_loop-Emptied :
    (n fuel p addr end : ℕ) (table : ℕ → ℕ)
    → 0 < n
    → n ≤ fuel
    → end ≡ addr + n * page_size
    → end < 2 ^ 32
    → (table' : ℕ → ℕ) × (free_l2_loop fuel p addr end table ≡ some table')
      × Emptied p n table table'
free_l2_loop-Emptied zero fuel p addr end table some_page enough e low = absurd (omega arith)
free_l2_loop-Emptied (suc n) fuel p addr end table some_page enough e low =
    free_l2_loop-suc n fuel p addr end table (omega arith) e low

pub found-false :
    (left i : ℕ) (table : ℕ → ℕ)
    → found left i table ≡ false
    → (j : ℕ) → i ≤ j
    → j < i + left
    → table j ≡ 0
unfolding found
found-false zero i table e j p q = absurd (omega arith)
found-false (suc left) i table e j p q = elim (Bool-cases (table i == 0)) [
  | inr used ↦ let yes_found : found (suc left) i table ≡ true = rw used refl in cc
  | inl empty ↦
      let rest : found left (i + 1) table ≡ false =
        (let l : found (suc left) i table ≡ found left (i + 1) table = rw empty refl in
          sym l ∙ e) in
      elim (Bool-cases (j == i)) [
        | inl t ↦ let here : j ≡ i = ground arith in rw here (ground arith)
        | inr t ↦
            let past : suc i ≤ j = ground arith in
            found-false left (i + 1) table rest j (omega arith) (omega arith)
      ]
]

module _ (h : Macros) (laws : IsMmu h) where
  -- `t'` has no translation from `lo` to `hi`, and elsewhere that of `t`.
  pub record Unmaps (t t' : Tables) (lo hi : ℕ) : Type 0 where
    pub inside : (v : ℕ) → lo ≤ v → v < hi → walk h t' v ≡ none
    pub outside : (v : ℕ) → (v < lo) ⊎ (hi ≤ v) → walk h t' v ≡ walk h t v

  pub entries-Unmaps :
      (t : Tables) (addr next : ℕ) (table : ℕ → ℕ)
      → IsTables h t
      → InSection addr next
      → IsTable h (t.l1 (addr / sect_size))
      → Emptied
          (addr / page_size % 256)
          ((next - addr) / page_size)
          (t.l2 (h.table_of (t.l1 (addr / sect_size))))
          table
      → Unmaps t
          (record t { l2 = write t.l2 (h.table_of (t.l1 (addr / sect_size))) table })
          addr
          next
  unfolding walk
  entries-Unmaps t addr next table ok range (used, small) r = record {
    inside = λ v p q.
        let i : h.l1pte_index v ≡ addr / sect_size =
          laws.l1_index v ∙ same_section addr next v range p q in
        let (low, high) = same_table addr next v range p q in
        rw
          (
            i,
            used,
            small,
            write-here t.l2 (h.table_of (t.l1 (addr / sect_size))) table,
            laws.l2_index v,
            r.inside (v / page_size % 256) low high,
          )
          refl;
    outside = λ v away.
        walk_entry-agree h t.l2 (write t.l2 (h.table_of (t.l1 (addr / sect_size))) table)
          (t.l1 (h.l1pte_index v)) v
          λ was. elim (ℕ_discrete (h.l1pte_index v) (addr / sect_size)) [
            | yes here ↦
                let j = other_entry addr next v range away (sym (laws.l1_index v) ∙ here) in
                rw
                  (
                    here,
                    write-here t.l2 (h.table_of (t.l1 (addr / sect_size))) table,
                    laws.l2_index v,
                  )
                  (r.outside (v / page_size % 256) j)
            | no other ↦
                ap (λ f. f (h.l2pte_index v))
                  (write-other t.l2 (h.table_of (t.l1 (addr / sect_size)))
                    (h.table_of (t.l1 (h.l1pte_index v))) table
                    (λ same. other (sym (ok.apart _ _ (used, small) was same))))
          ];
  }

  -- An entry without a translation is set to 0.
  pub cleared-walk :
      (t : Tables) (i v : ℕ) (freed : List ℕ)
      → (h.l1pte_index v ≡ i → walk h t v ≡ none)
      → walk h (record t { l1 = write t.l1 i 0; freed = freed }) v ≡ walk h t v
  unfolding walk
  cleared-walk t i v freed empty = elim (ℕ_discrete i (h.l1pte_index v)) [
    | yes here ↦
        let new : write t.l1 i 0 (h.l1pte_index v) ≡ 0 =
          ap (write t.l1 i 0) (sym here) ∙ write-here t.l1 i 0 in
        rw new (sym (empty (sym here)))
    | no other ↦ ap (λ w. walk_entry h t.l2 w v) (write-other t.l1 i (h.l1pte_index v) 0 other)
  ]
