-- ===== src/Mmu/Chunk.antt =====
-- One round of `create_mapping` of Mmu.antt: the range is in one section.
use sye.Base.{
  ℕ, zero, suc, ◌+◌, ◌-◌, ◌*◌, ◌/◌, ◌%◌, ◌^◌, u32_below, ◌≤◌, ◌<◌, ◌≡◌, refl, sym, ap, ◌∙◌, ◌≢◌,
  inl, inr, Bool, true, false, ◌&&◌, some, arith, ◌==◌, Bool-cases, length, ℕ_discrete,
}
use sye.Mmu.{
  Macros, Tables, page_size, sect_size, write, is_aligned, l2_loop, table_at, alloc_init_pte,
  sect_loop, alloc_init_section,
}
use sye.Mmu.Small.{Filled, write-here, write-other, l2_loop-Filled}
use sye.Mmu.Walk.{IsMmu, walk_entry, walk, IsTable, IsTables, Maps, walk_entry-agree}
use sye.Mmu.Range.{InSection, same_section, same_table, page_of, other_entry}
use sye.Mmu.NewTable.{Kept, Shared, no_table-IsTables, table_at-Kept}

module _ (h : Macros) (laws : IsMmu h) where
  -- Pages whose entries `l2_loop` has filled, in the table of their section.
  pub pages-Maps :
      (t : Tables) (addr next phys : ℕ) (nocache : Bool) (table : ℕ → ℕ)
      → IsTables h t
      → InSection addr next
      → phys % page_size ≡ 0
      → IsTable h (t.l1 (addr / sect_size))
      → Filled h
          (addr / page_size % 256)
          ((next - addr) / page_size)
          (phys / page_size)
          nocache
          (t.l2 (h.table_of (t.l1 (addr / sect_size))))
          table
      → Maps h t
          (record t { l2 = write t.l2 (h.table_of (t.l1 (addr / sect_size))) table })
          addr
          next
          phys
  unfolding walk
  pages-Maps t addr next phys nocache table ok range even (used, small) r = record {
    inside = λ v p q.
        let i : h.l1pte_index v ≡ addr / sect_size =
          laws.l1_index v ∙ same_section addr next v range p q in
        let (low, high) = same_table addr next v range p q in
        let page = phys / page_size + (v / page_size % 256 - addr / page_size % 256) in
        let whole : page * page_size % page_size ≡ 0 = omega arith in
        rw
          (
            i,
            used,
            small,
            write-here t.l2 (h.table_of (t.l1 (addr / sect_size))) table,
            laws.l2_index v,
            r.inside (v / page_size % 256) low high,
            laws.small_used (page * page_size) nocache whole,
            laws.small_addr (page * page_size) nocache whole,
            page_of addr next v phys range even p q,
          )
          refl;
    outside = λ v away.
        walk_entry-agree h t.l2 (write t.l2 (h.table_of (t.l1 (addr / sect_size))) table)
          (t.l1 (h.l1pte_index v)) v
          λ was. elim (ℕ_discrete (h.l1pte_index v) (addr / sect_size)) [
            | yes here ↦
                let j = other_entry addr next v range away (sym (laws.l1_index v) ∙ here) in
                rw
                  (
                    here,
                    write-here t.l2 (h.table_of (t.l1 (addr / sect_size))) table,
                    laws.l2_index v,
                  )
                  (r.outside (v / page_size % 256) j)
            | no other ↦
                ap (λ f. f (h.l2pte_index v))
                  (write-other t.l2 (h.table_of (t.l1 (addr / sect_size)))
                    (h.table_of (t.l1 (h.l1pte_index v))) table
                    (λ same. other (sym (ok.apart _ _ (used, small) was same))))
          ];
  }

  -- The entry of the section of the range is set.
  pub section-Maps :
      (t : Tables) (addr next phys : ℕ) (nocache : Bool)
      → addr % sect_size ≡ 0
      → next ≡ addr + sect_size
      → phys % sect_size ≡ 0
      → Maps h t
          (record t { l1 = write t.l1 (addr / sect_size) (h.sect_entry phys nocache) })
          addr
          next
          phys
  unfolding walk
  section-Maps t addr next phys nocache whole e even = record {
    inside = λ v p q.
        let i : h.l1pte_index v ≡ addr / sect_size = laws.l1_index v ∙ omega arith in
        let sum : phys + v % sect_size ≡ phys + (v - addr) = omega arith in
        rw
          (
            i,
            write-here t.l1 (addr / sect_size) (h.sect_entry phys nocache),
            laws.sect_used phys nocache even,
            laws.sect_kind phys nocache even,
            laws.sect_addr phys nocache even,
            sum,
          )
          refl;
    outside = λ v away.
        let other : addr / sect_size ≢ v / sect_size =
          λ same. elim away [ inl p ↦ omega arith | inr p ↦ omega arith ] in
        ap (λ w. walk_entry h t.l2 w v)
          (write-other t.l1 (addr / sect_size) (h.l1pte_index v) _
            (λ same. other (same ∙ laws.l1_index v)));
  }

  alloc_init_pte-run :
      (fuel i addr end pfn : ℕ) (nocache : Bool) (t t1 : Tables) (table : ℕ → ℕ)
      → table_at h i nocache t ≡ some t1
      → l2_loop h fuel (addr / page_size % 256) addr end pfn nocache (t1.l2 (h.table_of (t1.l1 i)))
        ≡ some table
      → alloc_init_pte h fuel i addr end pfn nocache t
        ≡ some (record t1 { l2 = write t1.l2 (h.table_of (t1.l1 i)) table })
  unfolding alloc_init_pte
  alloc_init_pte-run fuel i addr end pfn nocache t t1 table found run =
      rw (alloc_init_pte, found, laws.l2_index addr, run) refl

  -- The table of the range is filled, after it was made if need be.
  pub alloc_init_pte-Maps :
      (fuel addr next phys : ℕ) (nocache : Bool) (t : Tables)
      → 256 ≤ fuel
      → IsTables h t
      → 0 < length t.pool
      → InSection addr next
      → phys + (next - addr) ≤ 2 ^ 32
      → phys % page_size ≡ 0
      → h.l1pte_is_sect (t.l1 (addr / sect_size)) ≡ false
      → (t' : Tables) × (alloc_init_pte h fuel
            (addr / sect_size)
            addr
            next
            (phys / page_size)
            nocache
            t
          ≡ some t')
        × Kept h laws (addr / sect_size) t t'
        × Maps h t t' addr next phys
        × (h.l1pte_is_sect (t'.l1 (addr / sect_size)) ≡ false)
        × Shared h laws (addr / sect_size) t t'
  alloc_init_pte-Maps fuel addr next phys nocache t enough ok room range low even small =
      let (t1, found, is_table, kept, same, shared) =
        table_at-Kept h laws (addr / sect_size) nocache t ok room small in
      let a = h.table_of (t1.l1 (addr / sect_size)) in
      let n = (next - addr) / page_size in
      let (table, run, r) =
        l2_loop-Filled h n fuel (addr / page_size % 256) addr next (phys / page_size) nocache
          (t1.l2 a) (omega (arith, range.begins, range.ends, range.some_page))
          (omega (arith, range.begins, range.ends, range.inside))
          (omega (arith, range.begins, range.ends, range.some_page)) range.below
          (omega (arith, range.begins, range.ends, low, even)) in
      let maps = pages-Maps t1 addr next phys nocache table kept.tables range even is_table r in
      (
        record t1 { l2 = write t1.l2 a table },
        alloc_init_pte-run fuel _ addr next _ nocache t t1 table found run,
        record {
          tables = record {
            apart = kept.tables.apart;
            fresh = kept.tables.fresh;
            distinct = kept.tables.distinct;
            aligned = kept.tables.aligned;
          };
          entries = kept.entries;
          room = kept.room;
        },
        record { inside = maps.inside; outside = λ v away. maps.outside v away ∙ same v },
        is_table.1,
        record {
          is_table = shared.is_table;
          others = λ b other.
              write-other t1.l2 a b table (λ here. other (sym here)) ∙ shared.others b other;
          blocks = shared.blocks;
          source = shared.source;
        },
      )

  sect_loop-once :
      (fuel i addr next phys : ℕ) (nocache : Bool) (t : Tables)
      → 0 < fuel
      → next ≡ addr + sect_size
      → next < 2 ^ 32
      → sect_loop h fuel i addr next phys nocache t
        ≡ some (record t { l1 = write t.l1 i (h.sect_entry phys nocache) })
  unfolding sect_loop
  sect_loop-once zero i addr next phys nocache t enough e low = absurd (omega arith)
  sect_loop-once (suc fuel) i addr next phys nocache t enough e low =
      let sum = u32_below (addr + sect_size) (omega arith) in
      let stop : (addr + sect_size == next) ≡ true = ground arith in rw (sum, stop) refl

  -- The range is mapped, by a section or by pages.
  pub alloc_init_section-Maps :
      (fuel addr next phys : ℕ) (nocache : Bool) (t : Tables)
      → 256 ≤ fuel
      → IsTables h t
      → 0 < length t.pool
      → InSection addr next
      → phys + (next - addr) ≤ 2 ^ 32
      → phys % page_size ≡ 0
      → h.l1pte_is_sect (t.l1 (addr / sect_size)) ≡ false
      → (t' : Tables) × (alloc_init_section h fuel (addr / sect_size) addr next phys nocache t
          ≡ some t')
        × Kept h laws (addr / sect_size) t t'
        × Maps h t t' addr next phys
  unfolding alloc_init_section
  alloc_init_section-Maps fuel addr next phys nocache t enough ok room range low even small =
      let whole =
        is_aligned sect_size addr && (is_aligned sect_size next && is_aligned sect_size phys) in
      elim (Bool-cases whole) [
        | inl sect ↦
            let begins : addr % sect_size ≡ 0 = ground arith in
            let ends : next % sect_size ≡ 0 = ground arith in
            let even' : phys % sect_size ≡ 0 = ground arith in
            let next' : next ≡ addr + sect_size = omega (arith, range.some_page, range.inside) in
            (
              record t { l1 = write t.l1 (addr / sect_size) (h.sect_entry phys nocache) },
              rw
                  (
                    sect,
                    sect_loop-once fuel (addr / sect_size) addr next phys nocache t (omega arith)
                        next' range.below,
                  )
                  refl,
              record {
                tables =
                    no_table-IsTables h laws t (addr / sect_size) (h.sect_entry phys nocache)
                      (λ (p, q). let is = laws.sect_kind phys nocache even' in cc) ok;
                entries = λ j other. write-other t.l1 (addr / sect_size) j _ other;
                room = omega arith;
              },
              section-Maps t addr next phys nocache begins next' even',
            )
        | inr pages ↦
            let (t', run, kept, maps, _, _) =
              alloc_init_pte-Maps fuel addr next phys nocache t enough ok room range low even
                small in
            (t', rw (pages, run) refl, kept, maps)
      ]
