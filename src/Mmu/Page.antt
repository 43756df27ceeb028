-- ===== src/Mmu/Page.antt =====
-- One page of Mmu.antt: `create_mapping` of 4096 bytes, as the rest of the kernel calls it.
use sye.Base.{
  ℕ, zero, suc, ◌+◌, ◌-◌, ◌*◌, ◌/◌, ◌%◌, ◌^◌, u32_below, ◌≤◌, ◌<◌, ◌≡◌, refl, ◌∙◌, inl, inr, Bool,
  false, ◌&&◌, some, arith, Bool-cases, length,
}
use sye.Mmu.{
  Macros, Tables, page_size, sect_size, is_aligned, alloc_init_pte, alloc_init_section,
  create_mapping,
}
use sye.Mmu.Walk.{IsMmu, IsTables, Maps}
use sye.Mmu.Range.{InSection}
use sye.Mmu.NewTable.{Kept, Shared}
use sye.Mmu.Chunk.{alloc_init_pte-Maps}
use sye.Mmu.Mapping.{mapping_loop-last}

module _ (h : Macros) (laws : IsMmu h) where
  -- A page is smaller than a section.
  alloc_init_section-page :
      (fuel i addr phys : ℕ) (nocache : Bool) (t : Tables)
      → alloc_init_section h fuel i addr (addr + page_size) phys nocache t
        ≡ alloc_init_pte h fuel i addr (addr + page_size) (phys / page_size) nocache t
  unfolding alloc_init_section
  alloc_init_section-page fuel i addr phys nocache t =
      let whole =
        is_aligned sect_size addr
        && (is_aligned sect_size (addr + page_size) && is_aligned sect_size phys) in
      elim (Bool-cases whole) [ inl all ↦ absurd (ground arith) | inr some_not ↦ rw some_not refl ]

  -- The tables after one page was mapped.
  pub record PageMapped (t t' : Tables) (virt phys : ℕ) : Type 0 where
    pub kept : Kept h laws (virt / sect_size) t t'
    pub maps : Maps h t t' virt (virt + page_size) phys
    pub small : h.l1pte_is_sect (t'.l1 (virt / sect_size)) ≡ false
    pub shared : Shared h laws (virt / sect_size) t t'

  pub create_mapping-page :
      (fuel virt phys : ℕ) (nocache : Bool) (t : Tables)
      → 256 ≤ fuel
      → IsTables h t
      → 0 < length t.pool
      → virt % page_size ≡ 0
      → phys % page_size ≡ 0
      → virt + page_size < 2 ^ 32
      → phys + page_size ≤ 2 ^ 32
      → h.l1pte_is_sect (t.l1 (virt / sect_size)) ≡ false
      → (t' : Tables) × (create_mapping h fuel virt phys page_size nocache t ≡ some t')
        × PageMapped t t' virt phys
  unfolding create_mapping
  create_mapping-page zero virt phys nocache t enough ok room v p low phys_low small =
      absurd (omega arith)
  create_mapping-page (suc fuel) virt phys nocache t enough ok room v p low phys_low small =
      let range : InSection virt (virt + page_size) = record {
        begins = v;
        ends = omega arith;
        some_page = omega arith;
        inside = omega arith;
        below = low;
      } in
      let (t', run, kept, maps, small', shared) =
        alloc_init_pte-Maps h laws (suc fuel) virt (virt + page_size) phys nocache t enough ok room
          range (omega arith) p small in
      let section = alloc_init_section-page (suc fuel) (virt / sect_size) virt phys nocache t in
      let i = laws.l1_index virt in
      let down : virt / page_size * page_size ≡ virt = omega arith in
      let up : (page_size + virt % page_size + (page_size - 1)) / page_size * page_size
          ≡ page_size =
        omega arith in
      let bytes = u32_below (page_size + virt % page_size) (omega arith) in
      let round = u32_below (page_size + virt % page_size + (page_size - 1)) (omega arith) in
      let end = u32_below (virt + page_size) low in
      (
        t',
        rw (bytes, round, down, up, end, i)
            (mapping_loop-last h laws (suc fuel) fuel (virt / sect_size) virt (virt + page_size)
              phys nocache t t' (omega arith) (section ∙ run)),
        record { kept = kept; maps = maps; small = small'; shared = shared },
      )
