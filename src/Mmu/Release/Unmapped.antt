-- ===== src/Mmu/Release/Unmapped.antt =====
-- One round of `release_mapping`, and two of them, of Mmu/Release.antt.
use sye.Base.{
  ℕ, zero, suc, ◌+◌, ◌-◌, ◌*◌, ◌/◌, ◌%◌, ◌^◌, u32_below, ◌≤◌, ◌<◌, ◌≡◌, refl, ap, ◌∙◌, ◌≢◌, ◌⊎◌,
  inl, inr, true, false, ◌&&◌, none, some, ◌∷◌, arith, ◌==◌, if◌then◌else◌, Bool-cases, dec_lt,
}
use sye.Mmu.{Macros, Tables, page_size, sect_size, write, is_aligned}
use sye.Mmu.Small.{write-here, write-other}
use sye.Mmu.Walk.{IsMmu, walk_entry, walk, IsTable, IsTables}
use sye.Mmu.NewTable.{zero-IsTables}
use sye.Mmu.Range.{InSection}
use sye.Mmu.Release.{free_l2_loop, found, free_l2_mapping, free_sect_loop, free_l1_mapping}
use sye.Mmu.Release.Steps.{free_l2_loop-Emptied, found-false, Unmaps, entries-Unmaps, cleared-walk}

module _ (h : Macros) (laws : IsMmu h) where
  -- The tables after first level entry `i` was released at most.
  pub record Left (i : ℕ) (t t' : Tables) : Type 0 where
    pub tables : IsTables h t'
    pub entries : (j : ℕ) → i ≢ j → t'.l1 j ≡ t.l1 j

  new_l2 : (t : Tables) (l2 : ℕ → ℕ → ℕ) → IsTables h t → IsTables h (record t { l2 = l2 })
  new_l2 t l2 ok = record {
    apart = ok.apart;
    fresh = ok.fresh;
    distinct = ok.distinct;
    aligned = ok.aligned;
  }

  free_l2_mapping-run :
      (fuel i addr end : ℕ) (t : Tables) (table : ℕ → ℕ)
      → free_l2_loop fuel (addr / page_size % 256) addr end (t.l2 (h.table_of (t.l1 i)))
        ≡ some table
      → free_l2_mapping h fuel i addr end t
        ≡ some (
            if found 256 0 table
            then record t { l2 = write t.l2 (h.table_of (t.l1 i)) table }
            else record t {
              l1 = write t.l1 i 0;
              l2 = write t.l2 (h.table_of (t.l1 i)) table;
              freed = h.table_of (t.l1 i) ∷ t.freed;
            })
  unfolding free_l2_mapping
  free_l2_mapping-run fuel i addr end t table run =
      rw (free_l2_mapping, laws.l2_index addr, run) refl

  -- A table in which every entry is 0 gives no address.
  empty_table :
      (t : Tables) (i v : ℕ) (table : ℕ → ℕ)
      → IsTable h (t.l1 i)
      → found 256 0 table ≡ false
      → h.l1pte_index v ≡ i
      → walk h (record t { l2 = write t.l2 (h.table_of (t.l1 i)) table }) v ≡ none
  unfolding walk
  empty_table t i v table (used, small) e here =
      let zero_there =
        found-false 256 0 table e (v / page_size % 256) (omega arith) (omega arith) in
      rw
        (
          here,
          used,
          small,
          write-here t.l2 (h.table_of (t.l1 i)) table,
          laws.l2_index v,
          zero_there,
        )
        refl

  free_l2_mapping-Unmaps :
      (fuel addr next : ℕ) (t : Tables)
      → 256 ≤ fuel
      → IsTables h t
      → InSection addr next
      → IsTable h (t.l1 (addr / sect_size))
      → (t' : Tables) × (free_l2_mapping h fuel (addr / sect_size) addr next t ≡ some t')
        × Left (addr / sect_size) t t'
        × Unmaps h laws t t' addr next
  free_l2_mapping-Unmaps fuel addr next t enough ok range is_table =
      let i = addr / sect_size in
      let a = h.table_of (t.l1 i) in
      let (table, loop, r) =
        free_l2_loop-Emptied ((next - addr) / page_size) fuel (addr / page_size % 256) addr next
          (t.l2 a) (omega (arith, range.begins, range.ends, range.some_page))
          (omega (arith, range.begins, range.ends, range.inside))
          (omega (arith, range.begins, range.ends, range.some_page)) range.below in
      let run = free_l2_mapping-run fuel i addr next t table loop in
      let un = entries-Unmaps h laws t addr next table ok range is_table r in
      let ok' = new_l2 t (write t.l2 a table) ok in
      let t1 : Tables = record t { l2 = write t.l2 a table } in
      elim (Bool-cases (found 256 0 table)) [
        | inl used ↦ (
          t1,
          run ∙ ap some (rw used refl),
          record { tables = ok'; entries = λ j other. refl },
          un,
        )
        | inr empty ↦
            let cleared = λ (v : ℕ).
              cleared-walk h laws t1 i v (a ∷ t.freed) (empty_table t i v table is_table empty) in
            (
              record t1 { l1 = write t.l1 i 0; freed = a ∷ t.freed },
              run ∙ ap some (rw empty refl),
              record {
                tables = zero-IsTables h laws t1 i (a ∷ t.freed) ok';
                entries = λ j other. write-other t.l1 i j 0 other;
              },
              record {
                inside = λ v p q. cleared v ∙ un.inside v p q;
                outside = λ v away. cleared v ∙ un.outside v away;
              },
            )
      ]

  free_sect_loop-once :
      (fuel i addr next : ℕ) (t : Tables)
      → 0 < fuel
      → next ≡ addr + sect_size
      → next < 2 ^ 32
      → free_sect_loop fuel i addr next t ≡ some (record t { l1 = write t.l1 i 0 })
  unfolding free_sect_loop
  free_sect_loop-once zero i addr next t enough e low = absurd (omega arith)
  free_sect_loop-once (suc fuel) i addr next t enough e low =
      let sum = u32_below (addr + sect_size) (omega arith) in
      let stop : (addr + sect_size == next) ≡ true = ground arith in rw (sum, stop) refl

  free_sect-Unmaps :
      (t : Tables) (addr next : ℕ)
      → addr % sect_size ≡ 0
      → next ≡ addr + sect_size
      → Unmaps h laws t (record t { l1 = write t.l1 (addr / sect_size) 0 }) addr next
  unfolding walk
  free_sect-Unmaps t addr next whole e = record {
    inside = λ v p q.
        let i : h.l1pte_index v ≡ addr / sect_size = laws.l1_index v ∙ omega arith in
        rw (i, write-here t.l1 (addr / sect_size) 0) refl;
    outside = λ v away.
        let other : addr / sect_size ≢ v / sect_size =
          λ same. elim away [ inl p ↦ omega arith | inr p ↦ omega arith ] in
        ap (λ w. walk_entry h t.l2 w v)
          (write-other t.l1 (addr / sect_size) (h.l1pte_index v) 0
            (λ same. other (same ∙ laws.l1_index v)));
  }

  -- The entry of a section is for a table, unless the range covers the whole section.
  abbrev pub Releasable : Tables → (i addr next : ℕ) → Type 0
  Releasable t i addr next =
      IsTable h (t.l1 i) ⊎ ((addr ≤ i * sect_size) × (i * sect_size + sect_size ≤ next))

  pub free_l1_mapping-Unmaps :
      (fuel addr next : ℕ) (t : Tables)
      → 256 ≤ fuel
      → IsTables h t
      → InSection addr next
      → Releasable t (addr / sect_size) addr next
      → (t' : Tables) × (free_l1_mapping h fuel (addr / sect_size) addr next t ≡ some t')
        × Left (addr / sect_size) t t'
        × Unmaps h laws t t' addr next
  unfolding free_l1_mapping
  free_l1_mapping-Unmaps fuel addr next t enough ok range entry =
      let whole = is_aligned sect_size addr && is_aligned sect_size next in
      elim (Bool-cases whole) [
        | inl sect ↦
            let begins : addr % sect_size ≡ 0 = ground arith in
            let ends : next % sect_size ≡ 0 = ground arith in
            let next' : next ≡ addr + sect_size = omega (arith, range.some_page, range.inside) in
            let tables = zero-IsTables h laws t (addr / sect_size) t.freed ok in
            (
              record t { l1 = write t.l1 (addr / sect_size) 0 },
              rw
                  (
                    sect,
                    free_sect_loop-once fuel (addr / sect_size) addr next t (omega arith) next'
                        range.below,
                  )
                  refl,
              record {
                tables = tables;
                entries = λ j other. write-other t.l1 (addr / sect_size) j 0 other;
              },
              free_sect-Unmaps t addr next begins next',
            )
        | inr pages ↦
            let is_table : IsTable h (t.l1 (addr / sect_size)) = elim entry [
              | inl is ↦ is
              | inr (p, q) ↦
                  let begins : addr % sect_size ≡ 0 = omega (arith, range.inside) in
                  let ends : next % sect_size ≡ 0 = omega (arith, range.inside) in
                  let covered : (is_aligned sect_size addr && is_aligned sect_size next) ≡ true =
                    ground arith in
                  cc
            ] in
            let (t', run, left, maps) =
              free_l2_mapping-Unmaps fuel addr next t enough ok range is_table in
            (t', rw (pages, run) refl, left, maps)
      ]

  pub Unmaps-append :
      (t t1 t2 : Tables) (lo mid hi : ℕ)
      → lo ≤ mid
      → mid ≤ hi
      → Unmaps h laws t t1 lo mid
      → Unmaps h laws t1 t2 mid hi
      → Unmaps h laws t t2 lo hi
  Unmaps-append t t1 t2 lo mid hi a b r s = record {
    inside = λ v p q. elim (dec_lt v mid) [
      | yes early ↦ s.outside v (inl early) ∙ r.inside v p early
      | no late ↦ s.inside v (omega arith) q
    ];
    outside = λ v away. elim away [
      | inl p ↦ s.outside v (inl (omega arith)) ∙ r.outside v (inl p)
      | inr p ↦ s.outside v (inr p) ∙ r.outside v (inr (omega arith))
    ];
  }
