-- ===== src/Mmu/Release/Page.antt =====
-- One page of Mmu/Release.antt: `release_mapping` of 4096 bytes, as the rest of the kernel calls it.
use sye.Base.{
  ℕ, zero, suc, ◌+◌, ◌-◌, ◌*◌, ◌/◌, ◌%◌, ◌^◌, u32_below, ◌<◌, ◌≡◌, refl, sym, ◌≢◌, inl, inr, true,
  false, ◌&&◌, some, arith, Bool-cases, ◌==◌, ◌∷◌,
}
use sye.Mmu.{Macros, Tables, page_size, sect_size, write, is_aligned}
use sye.Mmu.Small.{write-other}
use sye.Mmu.Walk.{IsMmu}
use sye.Mmu.Release.{
  free_l2_loop, found, free_l2_mapping, free_l1_mapping, release_mapping_loop, release_mapping,
}

module _ (h : Macros) (laws : IsMmu h) where
  -- Only entry `i` and its table changed.
  pub record PageReleased (i : ℕ) (t t' : Tables) : Type 0 where
    pub entries : (x : ℕ) → i ≢ x → t'.l1 x ≡ t.l1 x
    pub others : (b : ℕ) → b ≢ h.table_of (t.l1 i) → t'.l2 b ≡ t.l2 b

  free_l2_mapping-page :
      (fuel i addr : ℕ) (t : Tables)
      → addr + page_size < 2 ^ 32
      → (t' : Tables) × (free_l2_mapping h (suc fuel) i addr (addr + page_size) t ≡ some t')
        × PageReleased i t t'
  unfolding free_l2_mapping free_l2_loop
  free_l2_mapping-page fuel i addr t low =
      let next = u32_below (addr + page_size) low in
      let stop : (addr + page_size == addr + page_size) ≡ true = ground arith in
      let table = write (t.l2 (h.table_of (t.l1 i))) (h.l2pte_index addr) 0 in
      let one : free_l2_loop (suc fuel) (h.l2pte_index addr) addr (addr + page_size)
            (t.l2 (h.table_of (t.l1 i)))
          ≡ some table =
        rw (free_l2_loop, next, stop) refl in
      elim (Bool-cases (found 256 0 table)) [
        | inl some_page ↦ (
          record t { l2 = write t.l2 (h.table_of (t.l1 i)) table },
          rw (free_l2_mapping, one, some_page) refl,
          record {
            entries = λ x ne. refl;
            others = λ b ne. write-other t.l2 (h.table_of (t.l1 i)) b table (λ e. ne (sym e));
          },
        )
        | inr no_page ↦ (
          record t {
            l1 = write t.l1 i 0;
            l2 = write t.l2 (h.table_of (t.l1 i)) table;
            freed = h.table_of (t.l1 i) ∷ t.freed;
          },
          rw (free_l2_mapping, one, no_page) refl,
          record {
            entries = λ x ne. write-other t.l1 i x 0 ne;
            others = λ b ne. write-other t.l2 (h.table_of (t.l1 i)) b table (λ e. ne (sym e));
          },
        )
      ]

  pub release_mapping-page :
      (fuel virt : ℕ) (t : Tables)
      → 0 < fuel
      → virt % page_size ≡ 0
      → virt + page_size < 2 ^ 32
      → (t' : Tables) × (release_mapping h fuel virt page_size t ≡ some t')
        × PageReleased (virt / sect_size) t t'
  unfolding release_mapping release_mapping_loop free_l1_mapping
  release_mapping-page zero virt t enough v low = absurd (omega arith)
  release_mapping-page (suc fuel) virt t enough v low =
      let (t', run, r) = free_l2_mapping-page fuel (virt / sect_size) virt t low in
      let bytes = u32_below (page_size + virt % page_size) (omega arith) in
      let round_up = u32_below (page_size + virt % page_size + (page_size - 1)) (omega arith) in
      let end = u32_below (virt + page_size) low in
      let down : virt / page_size * page_size ≡ virt = omega arith in
      let up : (page_size + virt % page_size + (page_size - 1)) / page_size * page_size
          ≡ page_size =
        omega arith in
      let i = laws.l1_index virt in
      let next = laws.next_end virt (virt + page_size) (omega arith) in
      let whole = is_aligned sect_size virt && is_aligned sect_size (virt + page_size) in
      let small : whole ≡ false = elim (Bool-cases whole) [
        | inl all ↦ absurd (ground arith)
        | inr e ↦ e
      ] in
      let stop : (virt + page_size == virt + page_size) ≡ true = ground arith in
      let section : free_l1_mapping h (suc fuel) (virt / sect_size) virt (virt + page_size) t
          ≡ some t' =
        rw (free_l1_mapping, small) run in
      let round : release_mapping_loop h (suc fuel) (suc fuel) (virt / sect_size) virt
            (virt + page_size) t
          ≡ some t' =
        rw (release_mapping_loop, next, section, next, stop) refl in
      (t', rw (bytes, round_up, down, up, end, i) round, r)
