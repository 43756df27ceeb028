-- ===== src/Mmu/Mapping.antt =====
-- The translation after `create_mapping` of Mmu.antt.
use sye.Base.{
  ℕ, zero, suc, ◌+◌, ◌-◌, ◌*◌, ◌/◌, ◌%◌, ◌^◌, u32_below, ◌≤◌, ◌<◌, ◌≡◌, refl, ap, ◌∙◌, Bool, true,
  false, some, arith, ◌==◌, length, dec_lt,
}
use sye.Mmu.{Macros, Tables, page_size, sect_size, alloc_init_section, mapping_loop, create_mapping}
use sye.Mmu.Walk.{IsMmu, IsTables, Maps, Maps-append}
use sye.Mmu.NewTable.{Kept}
use sye.Mmu.Range.{InSection}
use sye.Mmu.Chunk.{alloc_init_section-Maps}

-- The page of an address, and the end of the last page of a range.
abbrev pub page_down : ℕ → ℕ
page_down a = a / page_size * page_size

abbrev pub page_up : ℕ → ℕ
page_up a = (a + (page_size - 1)) / page_size * page_size

module _ (h : Macros) (laws : IsMmu h) where
  -- What `mapping_loop` needs to map the pages from `addr` to `end`: enough rounds and blocks for a
  -- table in every section, no section that is mapped as a whole, and addresses below 2^32.
  pub record Ready (t : Tables) (rounds addr end phys : ℕ) : Type 0 where
    pub tables : IsTables h t
    pub begins : addr % page_size ≡ 0
    pub ends : end % page_size ≡ 0
    pub some_page : addr < end
    pub below : end < 2 ^ 32
    pub phys_below : phys + (end - addr) ≤ 2 ^ 32
    pub even : phys % page_size ≡ 0
    pub enough : (end - 1) / sect_size < addr / sect_size + rounds
    pub room : (end - 1) / sect_size < addr / sect_size + length t.pool
    pub small :
        (j : ℕ)
        → addr / sect_size ≤ j
        → j ≤ (end - 1) / sect_size
        → h.l1pte_is_sect (t.l1 j) ≡ false

  abbrev pub boundary : ℕ → ℕ
  boundary addr = addr / sect_size * sect_size + sect_size

  -- After one round, the next section.
  Ready-next :
      (t t' : Tables) (rounds addr end phys : ℕ)
      → boundary addr < end
      → Kept h laws (addr / sect_size) t t'
      → Ready t (suc rounds) addr end phys
      → Ready t' rounds (boundary addr) end (phys + (boundary addr - addr))
  Ready-next t t' rounds addr end phys more kept r = record {
    tables = kept.tables;
    begins = omega arith;
    ends = r.ends;
    some_page = more;
    below = r.below;
    phys_below = omega (arith, r.phys_below);
    even = omega (arith, r.even, r.begins);
    enough = omega (arith, r.enough);
    room = omega (arith, r.room, kept.room);
    small = λ j p q.
        ap h.l1pte_is_sect (kept.entries j (λ same. omega arith)) ∙ r.small j (omega arith) q;
  }

  pub mapping_loop-last :
      (fuel rounds i addr end phys : ℕ) (nocache : Bool) (t t' : Tables)
      → end ≤ boundary addr
      → alloc_init_section h fuel i addr end phys nocache t ≡ some t'
      → mapping_loop h fuel (suc rounds) i addr end phys nocache t ≡ some t'
  unfolding mapping_loop
  mapping_loop-last fuel rounds i addr end phys nocache t t' last run =
      let next = laws.next_end addr end last in
      let stop : (h.l1sect_addr_end addr end == end) ≡ true = ground arith in
      rw (mapping_loop, next, run, stop) refl

  mapping_loop-next :
      (fuel rounds i addr end phys : ℕ) (nocache : Bool) (t t1 : Tables)
      → boundary addr < end
      → phys + (boundary addr - addr) < 2 ^ 32
      → alloc_init_section h fuel i addr (boundary addr) phys nocache t ≡ some t1
      → mapping_loop h fuel (suc rounds) i addr end phys nocache t
        ≡ mapping_loop h fuel rounds
            (i + 1)
            (boundary addr)
            end
            (phys + (boundary addr - addr))
            nocache
            t1
  unfolding mapping_loop
  mapping_loop-next fuel rounds i addr end phys nocache t t1 more low run =
      let next = laws.next_section addr end more in
      let go_on : (h.l1sect_addr_end addr end == end) ≡ false = ground arith in
      let sum = u32_below (phys + (boundary addr - addr)) low in
      rw (mapping_loop, next, run, go_on, next, sum) refl

  pub mapping_loop-Maps :
      (fuel rounds addr end phys : ℕ) (nocache : Bool) (t : Tables)
      → 256 ≤ fuel
      → Ready t rounds addr end phys
      → (t' : Tables) × (mapping_loop h fuel rounds (addr / sect_size) addr end phys nocache t
          ≡ some t')
        × IsTables h t'
        × Maps h t t' addr end phys
  mapping_loop-Maps fuel zero addr end phys nocache t many r =
      absurd (omega (arith, r.enough, r.some_page))
  mapping_loop-Maps fuel (suc rounds) addr end phys nocache t many r =
      let room : 0 < length t.pool = omega (arith, r.room, r.some_page) in
      let small = r.small (addr / sect_size) (omega arith) (omega (arith, r.some_page)) in
      elim (dec_lt (boundary addr) end) [
        | no last ↦
            let range : InSection addr end = record {
              begins = r.begins;
              ends = r.ends;
              some_page = r.some_page;
              inside = omega arith;
              below = omega (arith, r.below);
            } in
            let (t', run, kept, maps) =
              alloc_init_section-Maps h laws fuel addr end phys nocache t many r.tables room range
                (omega (arith, r.phys_below)) r.even small in
            (
              t',
              mapping_loop-last fuel rounds _ addr end phys nocache t t' (omega arith) run,
              kept.tables,
              maps,
            )
        | yes more ↦
            let range : InSection addr (boundary addr) = record {
              begins = r.begins;
              ends = omega arith;
              some_page = omega arith;
              inside = omega arith;
              below = omega (arith, r.below);
            } in
            let (t1, run, kept, maps) =
              alloc_init_section-Maps h laws fuel addr (boundary addr) phys nocache t many r.tables
                room range (omega (arith, r.phys_below)) r.even small in
            let (t', rest, tables, maps') =
              mapping_loop-Maps fuel rounds (boundary addr) end (phys + (boundary addr - addr))
                nocache t1 many (Ready-next t t1 rounds addr end phys more kept r) in
            let i : addr / sect_size + 1 ≡ boundary addr / sect_size = omega arith in
            (
              t',
              mapping_loop-next fuel rounds _ addr end phys nocache t t1 more
                    (omega (arith, r.phys_below)) run
                  ∙ ap
                      (λ j.
                        mapping_loop h fuel rounds j (boundary addr) end
                          (phys + (boundary addr - addr)) nocache t1)
                      i
                  ∙ rest,
              tables,
              Maps-append h t t1 t' addr (boundary addr) end phys (omega arith) (omega arith) maps
                  maps',
            )
      ]

  -- Some bytes and a physical address that is a multiple of 4096 are given, in tables that are
  -- `Ready` for the pages of the range. With fuel for 256 entries and for every section,
  -- `create_mapping` succeeds. After it the walk of the MMU takes each address of those pages, from
  -- the page of `virt_base` on, to the one as far from `phys_base`, and any other address where it
  -- did before; the tables are still apart.
  pub create_mapping-Maps :
      (fuel virt_base phys_base size : ℕ) (nocache : Bool) (t : Tables)
      → 256 ≤ fuel
      → Ready t fuel
          (page_down virt_base)
          (page_down virt_base + page_up (size + virt_base % page_size))
          phys_base
      → (t' : Tables) × (create_mapping h fuel virt_base phys_base size nocache t ≡ some t')
        × IsTables h t'
        × Maps h t t'
            (page_down virt_base)
            (page_down virt_base + page_up (size + virt_base % page_size))
            phys_base
  unfolding create_mapping
  create_mapping-Maps fuel virt_base phys_base size nocache t many r =
      let i = laws.l1_index (page_down virt_base) in
      let bytes = u32_below (size + virt_base % page_size) (omega (arith, r.below)) in
      let up =
        u32_below (size + virt_base % page_size + (page_size - 1)) (omega (arith, r.below)) in
      let end = u32_below (page_down virt_base + page_up (size + virt_base % page_size)) r.below in
      let (t', run, tables, maps) =
        mapping_loop-Maps fuel fuel (page_down virt_base)
          (page_down virt_base + page_up (size + virt_base % page_size)) phys_base nocache t many
          r in
      (t', rw (bytes, up, end, i) run, tables, maps)
