-- ===== src/Mmu/Release.antt =====
-- l5-scheduling-memory/so3/arch/arm32/mmu.c: `release_mapping`, the reverse of `create_mapping`.
pub mod Steps
pub mod Unmapped
pub mod Loop
pub mod Page
use sye.Base.{
  u32, ℕ, zero, suc, ◌+◌, ◌-◌, ◌*◌, ◌/◌, ◌%◌, ◌^◌, ◌≤◌, ◌<◌, ◌≡◌, refl, sym, ap, ap₂, ◌∙◌, ◌≢◌, ◌⊎◌,
  inl, inr, Bool, true, false, not, ◌&&◌, ◌||◌, Option, none, some, List, [], ◌∷◌, ◌++◌, map, arith,
  ltb, leb, ◌==◌, if◌then◌else◌, Bool-cases, Option-cases, length, get_elem?, get_or, set, take,
  drop, replicate, bit_and, bit_or, u8, u16, u32, ◌<<<◌, ◌>>>◌, get_or-set, length-set, count_if,
  one_if, count_if-set,
}
use sye.Mmu.{Macros, Tables, page_size, sect_size, write, is_aligned}

-- The loop that sets second level entries to 0, from `l2pte` on; `none` is out of fuel.
pub free_l2_loop : (fuel l2pte addr end : ℕ) → (ℕ → ℕ) → Option (ℕ → ℕ)
free_l2_loop zero l2pte addr end table = none
free_l2_loop (suc fuel) l2pte addr end table =
    let table' = write table l2pte 0 in
    let next = u32 (addr + page_size) in
    let rest = free_l2_loop fuel (l2pte + 1) next end table' in
    if next == end then some table' else rest

-- Whether one of the `left` entries from `i` on is not 0.
pub found : (left i : ℕ) → (ℕ → ℕ) → Bool
found zero i table = false
found (suc left) i table =
    let rest = found left (i + 1) table in if table i == 0 then rest else true

-- The loop that sets first level entries to 0.
pub free_sect_loop : (fuel i addr end : ℕ) → Tables → Option Tables
free_sect_loop zero i addr end t = none
free_sect_loop (suc fuel) i addr end t =
    let t' = record t { l1 = write t.l1 i 0 } in
    let next = u32 (addr + sect_size) in
    let rest = free_sect_loop fuel (i + 1) next end t' in if next == end then some t' else rest

module _ (h : Macros) where
  pub free_l2_mapping : (fuel i addr end : ℕ) → Tables → Option Tables
  free_l2_mapping fuel i addr end t =
      let a = h.table_of (t.l1 i) in
      elim (free_l2_loop fuel (h.l2pte_index addr) addr end (t.l2 a)) [
        | none ↦ none
        | some table ↦
            let t' = record t { l2 = write t.l2 a table } in
            some (
              if found 256 0 table
              then t'
              else record t' { l1 = write t.l1 i 0; freed = a ∷ t.freed })
      ]

  pub free_l1_mapping : (fuel i addr end : ℕ) → Tables → Option Tables
  free_l1_mapping fuel i addr end t =
      let aligned = is_aligned sect_size addr && is_aligned sect_size end in
      if aligned then free_sect_loop fuel i addr end t else free_l2_mapping fuel i addr end t

  -- The loop of `release_mapping`, with `rounds` of fuel of its own.
  pub release_mapping_loop : (fuel rounds i addr end : ℕ) → Tables → Option Tables
  release_mapping_loop fuel zero i addr end t = none
  release_mapping_loop fuel (suc rounds) i addr end t =
      let next = h.l1sect_addr_end addr end in
      elim (free_l1_mapping fuel i addr next t) [
        | none ↦ none
        | some t' ↦
            let rest = release_mapping_loop fuel rounds (i + 1) next end t' in
            if next == end then some t' else rest
      ]

  pub release_mapping : (fuel virt_base size : ℕ) → Tables → Option Tables
  release_mapping fuel virt_base size t =
      let addr = virt_base / page_size * page_size in
      let bytes = u32 (size + virt_base % page_size) in
      let bytes_up = u32 (bytes + (page_size - 1)) / page_size * page_size in
      release_mapping_loop fuel fuel (h.l1pte_index addr) addr (u32 (addr + bytes_up)) t
