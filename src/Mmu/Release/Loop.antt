-- ===== src/Mmu/Release/Loop.antt =====
-- The translation after `release_mapping` of Mmu/Release.antt.
use sye.Base.{
  ℕ, zero, suc, ◌+◌, ◌-◌, ◌*◌, ◌/◌, ◌%◌, ◌^◌, u32_below, ◌≤◌, ◌<◌, ◌≡◌, refl, ap, ◌∙◌, inl, inr,
  true, false, some, arith, ◌==◌, dec_lt,
}
use sye.Mmu.{Macros, Tables, page_size, sect_size}
use sye.Mmu.Walk.{IsMmu, IsTables}
use sye.Mmu.Range.{InSection}
use sye.Mmu.Mapping.{page_down, page_up}
use sye.Mmu.Release.{free_l1_mapping, release_mapping_loop, release_mapping}
use sye.Mmu.Release.Steps.{Unmaps}
use sye.Mmu.Release.Unmapped.{Left, Releasable, free_l1_mapping-Unmaps, Unmaps-append}

module _ (h : Macros) (laws : IsMmu h) where
  -- What `release_mapping_loop` needs for the pages from `addr` to `end`: enough rounds, and a table
  -- in every section that they do not cover; the pages end below 2^32.
  pub record Mapped (t : Tables) (rounds addr end : ℕ) : Type 0 where
    pub tables : IsTables h t
    pub begins : addr % page_size ≡ 0
    pub ends : end % page_size ≡ 0
    pub some_page : addr < end
    pub below : end < 2 ^ 32
    pub enough : (end - 1) / sect_size < addr / sect_size + rounds
    pub entries :
        (j : ℕ) → addr / sect_size ≤ j → j ≤ (end - 1) / sect_size → Releasable h laws t j addr end

  abbrev boundary : ℕ → ℕ
  boundary addr = addr / sect_size * sect_size + sect_size

  Mapped-next :
      (t t' : Tables) (rounds addr end : ℕ)
      → boundary addr < end
      → Left h laws (addr / sect_size) t t'
      → Mapped t (suc rounds) addr end
      → Mapped t' rounds (boundary addr) end
  Mapped-next t t' rounds addr end more left r = record {
    tables = left.tables;
    begins = omega arith;
    ends = r.ends;
    some_page = more;
    below = r.below;
    enough = omega (arith, r.enough);
    entries = λ j p q. elim (r.entries j (omega arith) q) [
      | inl is ↦
          let same = left.entries j (λ e. omega arith) in
          inl (ap (λ w. w == 0) same ∙ is.0, ap h.l1pte_is_sect same ∙ is.1)
      | inr (a, b) ↦ inr (omega arith, b)
    ];
  }

  release_mapping_loop-last :
      (fuel rounds i addr end : ℕ) (t t' : Tables)
      → end ≤ boundary addr
      → free_l1_mapping h fuel i addr end t ≡ some t'
      → release_mapping_loop h fuel (suc rounds) i addr end t ≡ some t'
  unfolding release_mapping_loop
  release_mapping_loop-last fuel rounds i addr end t t' last run =
      let next = laws.next_end addr end last in
      let stop : (h.l1sect_addr_end addr end == end) ≡ true = ground arith in
      rw (release_mapping_loop, next, run, stop) refl

  release_mapping_loop-next :
      (fuel rounds i addr end : ℕ) (t t1 : Tables)
      → boundary addr < end
      → free_l1_mapping h fuel i addr (boundary addr) t ≡ some t1
      → release_mapping_loop h fuel (suc rounds) i addr end t
        ≡ release_mapping_loop h fuel rounds (i + 1) (boundary addr) end t1
  unfolding release_mapping_loop
  release_mapping_loop-next fuel rounds i addr end t t1 more run =
      let next = laws.next_section addr end more in
      let go_on : (h.l1sect_addr_end addr end == end) ≡ false = ground arith in
      rw (release_mapping_loop, next, run, go_on, next) refl

  release_mapping_loop-Unmaps :
      (fuel rounds addr end : ℕ) (t : Tables)
      → 256 ≤ fuel
      → Mapped t rounds addr end
      → (t' : Tables) × (release_mapping_loop h fuel rounds (addr / sect_size) addr end t ≡ some t')
        × IsTables h t'
        × Unmaps h laws t t' addr end
  release_mapping_loop-Unmaps fuel zero addr end t many r =
      absurd (omega (arith, r.enough, r.some_page))
  release_mapping_loop-Unmaps fuel (suc rounds) addr end t many r =
      let entry = r.entries (addr / sect_size) (omega arith) (omega (arith, r.some_page)) in
      elim (dec_lt (boundary addr) end) [
        | no last ↦
            let range : InSection addr end = record {
              begins = r.begins;
              ends = r.ends;
              some_page = r.some_page;
              inside = omega arith;
              below = omega (arith, r.below);
            } in
            let (t', run, left, maps) =
              free_l1_mapping-Unmaps h laws fuel addr end t many r.tables range entry in
            (
              t',
              release_mapping_loop-last fuel rounds _ addr end t t' (omega arith) run,
              left.tables,
              maps,
            )
        | yes more ↦
            let range : InSection addr (boundary addr) = record {
              begins = r.begins;
              ends = omega arith;
              some_page = omega arith;
              inside = omega arith;
              below = omega (arith, r.below);
            } in
            let entry' : Releasable h laws t (addr / sect_size) addr (boundary addr) = elim entry [
              | inl is ↦ inl is
              | inr (a, b) ↦ inr (a, omega arith)
            ] in
            let (t1, run, left, maps) =
              free_l1_mapping-Unmaps h laws fuel addr (boundary addr) t many r.tables range
                entry' in
            let (t', rest, tables, maps') =
              release_mapping_loop-Unmaps fuel rounds (boundary addr) end t1 many
                (Mapped-next t t1 rounds addr end more left r) in
            let i : addr / sect_size + 1 ≡ boundary addr / sect_size = omega arith in
            (
              t',
              release_mapping_loop-next fuel rounds _ addr end t t1 more run
                  ∙ ap (λ j. release_mapping_loop h fuel rounds j (boundary addr) end t1) i
                  ∙ rest,
              tables,
              Unmaps-append h laws t t1 t' addr (boundary addr) end (omega arith) (omega arith) maps
                  maps',
            )
      ]

  -- Some bytes are given, in tables that are `Mapped` at the pages of the range. With fuel for 256
  -- entries and for every section, `release_mapping` succeeds. After it the walk of the MMU finds
  -- no address of those pages, and any other address where it did before; the tables are still
  -- apart.
  pub release_mapping-Unmaps :
      (fuel virt_base size : ℕ) (t : Tables)
      → 256 ≤ fuel
      → Mapped t fuel
          (page_down virt_base)
          (page_down virt_base + page_up (size + virt_base % page_size))
      → (t' : Tables) × (release_mapping h fuel virt_base size t ≡ some t')
        × IsTables h t'
        × Unmaps h laws t t'
            (page_down virt_base)
            (page_down virt_base + page_up (size + virt_base % page_size))
  unfolding release_mapping
  release_mapping-Unmaps fuel virt_base size t many r =
      let i = laws.l1_index (page_down virt_base) in
      let bytes = u32_below (size + virt_base % page_size) (omega (arith, r.below)) in
      let up =
        u32_below (size + virt_base % page_size + (page_size - 1)) (omega (arith, r.below)) in
      let end = u32_below (page_down virt_base + page_up (size + virt_base % page_size)) r.below in
      let (t', run, tables, maps) =
        release_mapping_loop-Unmaps fuel fuel (page_down virt_base)
          (page_down virt_base + page_up (size + virt_base % page_size)) t many r in
      (t', rw (bytes, up, end, i) run, tables, maps)
