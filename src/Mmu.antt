-- ===== src/Mmu.antt =====
-- l5-scheduling-memory/so3/arch/arm32/mmu.c: the two levels of page tables. The macros of asm/mmu.h,
-- which is not in the repository, are the fields of `Macros`; sums of addresses wrap at 2^32.
pub mod Small
pub mod Walk
pub mod NewTable
pub mod Range
pub mod Chunk
pub mod Mapping
pub mod Page
pub mod ShortFormat
pub mod Reset
pub mod Release
mod Tests
use sye.Base.{
  ℕ, zero, suc, ◌+◌, ◌-◌, ◌*◌, ◌/◌, ◌%◌, ◌^◌, ◌≤◌, ◌<◌, ◌≡◌, refl, sym, ap, ap₂, ◌∙◌, ◌≢◌, ◌⊎◌, inl,
  inr, Bool, true, false, not, ◌&&◌, ◌||◌, Option, none, some, List, [], ◌∷◌, ◌++◌, map, arith, ltb,
  leb, ◌==◌, if◌then◌else◌, Bool-cases, Option-cases, length, get_elem?, get_or, set, take, drop,
  replicate, bit_and, bit_or, u8, u16, u32, ◌<<<◌, ◌>>>◌, get_or-set, length-set, count_if, one_if,
  count_if-set,
}

abbrev pub page_size : ℕ
page_size = 4096

-- TTB_SECT_SIZE
abbrev pub sect_size : ℕ
sect_size = 0x100000

pub record Macros : Type 0 where
  -- The index of the first level entry and of the second level entry of an address.
  pub l1pte_index : ℕ → ℕ
  pub l2pte_index : ℕ → ℕ
  -- The end of the section of an address, or the second argument if that comes first.
  pub l1sect_addr_end : ℕ → ℕ → ℕ
  -- A first level entry for a table or a section, a second level entry; the Boolean is `nocache`.
  pub table_entry : ℕ → Bool → ℕ
  pub sect_entry : ℕ → Bool → ℕ
  pub small_entry : ℕ → Bool → ℕ
  -- The address in an entry under its mask, TTB_L1_PAGE_ADDR_MASK, TTB_L1_SECT_ADDR_MASK and
  -- TTB_L2_ADDR_MASK; that of a table is a virtual one.
  pub table_of : ℕ → ℕ
  pub sect_addr : ℕ → ℕ
  pub small_addr : ℕ → ℕ
  pub l1pte_is_sect : ℕ → Bool

-- A first level table, the second level tables by their addresses, the addresses that memalign will
-- return, in order, and those given to free, the last one first.
pub record Tables : Type 0 where
  pub l1 : ℕ → ℕ
  pub l2 : ℕ → ℕ → ℕ
  pub pool : List ℕ
  pub freed : List ℕ

abbrev pub write {ℓ} : {A : Type ℓ} → (ℕ → A) → ℕ → A → ℕ → A
write f i v j = if i == j then v else f j

abbrev pub is_aligned : ℕ → ℕ → Bool
is_aligned size a = a % size == 0

module _ (h : Macros) where
  -- The loop over second level entries, at entry `l2pte`; `none` is out of fuel.
  pub l2_loop : (fuel l2pte addr end pfn : ℕ) → Bool → (ℕ → ℕ) → Option (ℕ → ℕ)
  l2_loop zero l2pte addr end pfn nocache table = none
  l2_loop (suc fuel) l2pte addr end pfn nocache table =
      let table' = write table l2pte (h.small_entry (u32 (pfn * page_size)) nocache) in
      let next = u32 (addr + page_size) in
      let rest = l2_loop fuel (l2pte + 1) next end (pfn + 1) nocache table' in
      if next == end then some table' else rest

  -- The table of entry `i`, a new one if the entry is 0; `none` is a failed assertion.
  pub table_at : (i : ℕ) → Bool → Tables → Option Tables
  table_at i nocache t =
      if t.l1 i == 0
      then elim t.pool [
        | [] ↦ none
        | a ∷ pool ↦ some (record t {
          l1 = write t.l1 i (h.table_entry a nocache);
          l2 = write t.l2 a (λ k. 0);
          pool = pool;
        })
      ]
      else some t

  pub alloc_init_pte : (fuel i addr end pfn : ℕ) → Bool → Tables → Option Tables
  alloc_init_pte fuel i addr end pfn nocache t = elim (table_at i nocache t) [
    | none ↦ none
    | some t' ↦
        let a = h.table_of (t'.l1 i) in
        elim (l2_loop fuel (h.l2pte_index addr) addr end pfn nocache (t'.l2 a)) [
          | none ↦ none
          | some table ↦ some (record t' { l2 = write t'.l2 a table })
        ]
  ]

  -- The loop over section entries.
  pub sect_loop : (fuel i addr end phys : ℕ) → Bool → Tables → Option Tables
  sect_loop zero i addr end phys nocache t = none
  sect_loop (suc fuel) i addr end phys nocache t =
      let t' = record t { l1 = write t.l1 i (h.sect_entry phys nocache) } in
      let next = u32 (addr + sect_size) in
      let rest = sect_loop fuel (i + 1) next end (u32 (phys + sect_size)) nocache t' in
      if next == end then some t' else rest

  pub alloc_init_section : (fuel i addr end phys : ℕ) → Bool → Tables → Option Tables
  alloc_init_section fuel i addr end phys nocache t =
      let aligned =
        is_aligned sect_size addr && (is_aligned sect_size end && is_aligned sect_size phys) in
      if aligned
      then sect_loop fuel i addr end phys nocache t
      else alloc_init_pte fuel i addr end (phys / page_size) nocache t

  -- The loop of `create_mapping`, with `rounds` of fuel of its own.
  pub mapping_loop : (fuel rounds i addr end phys : ℕ) → Bool → Tables → Option Tables
  mapping_loop fuel zero i addr end phys nocache t = none
  mapping_loop fuel (suc rounds) i addr end phys nocache t =
      let next = h.l1sect_addr_end addr end in
      elim (alloc_init_section fuel i addr next phys nocache t) [
        | none ↦ none
        | some t' ↦
            let rest =
              mapping_loop fuel rounds (i + 1) next end (u32 (phys + (next - addr))) nocache t' in
            if next == end then some t' else rest
      ]

  pub create_mapping : (fuel virt_base phys_base size : ℕ) → Bool → Tables → Option Tables
  create_mapping fuel virt_base phys_base size nocache t =
      let addr = virt_base / page_size * page_size in
      let bytes = u32 (size + virt_base % page_size) in
      let bytes_up = u32 (bytes + (page_size - 1)) / page_size * page_size in
      mapping_loop fuel fuel (h.l1pte_index addr) addr (u32 (addr + bytes_up)) phys_base nocache t

  -- `none` is a BUG. The low bits of a masked entry are 0, so that | adds the offset.
  pub virt_to_phys_pt : ℕ → Tables → Option ℕ
  virt_to_phys_pt vaddr t =
      let w = t.l1 (h.l1pte_index vaddr) in
      let offset = vaddr % page_size in
      if w == 0
      then none
      else if h.l1pte_is_sect w
      then some (h.sect_addr w + offset)
      else some (h.small_addr (t.l2 (h.table_of w) (h.l2pte_index vaddr)) + offset)

  pub clear_l1pte : ℕ → Tables → Tables
  clear_l1pte vaddr t = record t { l1 = write t.l1 (h.l1pte_index vaddr) 0 }

  -- One round of the loop of `reset_root_pgtable`.
  pub reset_entry : (i : ℕ) → Tables → Tables
  reset_entry i t =
      let w = t.l1 i in
      if w == 0 then t else record t {
        l1 = write t.l1 i 0;
        freed = if h.l1pte_is_sect w then t.freed else h.table_of w ∷ t.freed;
      }

  -- The loop, with `left` rounds to go.
  pub reset_loop : (left i : ℕ) → Tables → Tables
  reset_loop zero i t = t
  reset_loop (suc left) i t = reset_loop left (i + 1) (reset_entry i t)

  -- `kernel_vaddr` is CONFIG_KERNEL_VADDR and `pgtable` the address of the first level table.
  pub reset_root_pgtable : (kernel_vaddr pgtable : ℕ) → (remove : Bool) → Tables → Tables
  reset_root_pgtable kernel_vaddr pgtable remove t =
      let t' = reset_loop (h.l1pte_index kernel_vaddr) 0 t in
      record t' { freed = if remove then pgtable ∷ t'.freed else t'.freed }

  -- The copy of the entries from the one of `kernel_vaddr` on, of a first level table with 4096.
  pub copy_kernel_loop : (left i : ℕ) → (sys : ℕ → ℕ) → Tables → Tables
  copy_kernel_loop zero i sys t = t
  copy_kernel_loop (suc left) i sys t =
      copy_kernel_loop left (i + 1) sys (record t { l1 = write t.l1 i (sys i) })

  pub pgtable_copy_kernel_area : (kernel_vaddr : ℕ) → (sys : ℕ → ℕ) → Tables → Tables
  pgtable_copy_kernel_area kernel_vaddr sys t =
      let i = h.l1pte_index kernel_vaddr in copy_kernel_loop (4096 - i) i sys t
