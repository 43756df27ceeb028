-- ===== src/Process/Duplicate.antt =====
-- l5-scheduling-memory/so3/arch/arm32/mmu.c: duplicate_user_space, which gives a child that fork
-- makes a copy of every page of its parent, over the page tables of Mmu.antt.
pub mod Apart
pub mod Bytes
pub mod State
pub mod Entry
pub mod Table
pub mod Copied
pub mod Child
mod Tests
use sye.Base.{
  ℕ, zero, suc, ◌+◌, ◌*◌, ◌≡◌, refl, Bool, true, false, Option, none, some, List, [], ◌∷◌, ◌==◌,
  if◌then◌else◌, arith, ◌>>=◌,
}
use sye.Mmu.{Macros, Tables, page_size, write, create_mapping}
use sye.Mmu.Walk.{walk}
use sye.Mmu.Release.{release_mapping}
use sye.Process.{Pcb, Frames, add_page_to_proc}

-- What the function changes. The parent is the running process, so that `from->pgtable` is the
-- current first level table, of `tables`; `dst` is that of the child. The second level tables of both
-- are in `tables`. The memory is read and written by physical addresses.
pub record Spaces : Type 0 where
  pub tables : Tables
  pub dst : ℕ → ℕ
  pub child : Pcb
  pub frames : Frames
  pub free_pages : List ℕ
  pub memory : ℕ → ℕ

-- FIXMAP_MAPPING, CONFIG_KERNEL_VADDR, and the macros of a page structure and of the address of an
-- entry.
pub record Fixmap : Type 0 where
  pub fixmap : ℕ
  pub kernel_vaddr : ℕ
  pub phys_to_page : ℕ → ℕ
  pub pte_index_to_vaddr : ℕ → ℕ → ℕ

module _ (h : Macros) where
  -- The memcpy between virtual addresses, at byte `k` with `left` to go; `none` is a fault.
  pub copy_bytes : (left k dst src : ℕ) → Tables → (ℕ → ℕ) → Option (ℕ → ℕ)
  copy_bytes zero k dst src t m = some m
  copy_bytes (suc left) k dst src t m = do
    p ← walk h t (src + k)
    q ← walk h t (dst + k)
    copy_bytes left (k + 1) dst src t (write m q (m p))

  module _ (c : Fixmap) (fuel : ℕ) where
    -- One round of the inner loop; `a` is the table of the parent and `b` that of the child.
    -- `none` is a BUG or a fault.
    pub copy_entry : (a b i j : ℕ) → Spaces → Option Spaces
    copy_entry a b i j s = if s.tables.l2 a j == 0 then some s else elim s.free_pages [
      | [] ↦ none
      | paddr ∷ rest ↦ do
        t ← create_mapping h fuel c.fixmap paddr page_size false s.tables
        let (child, f) = add_page_to_proc (c.phys_to_page paddr) (s.child, s.frames)
        let t' = record t { l2 = write t.l2 b (write (t.l2 b) j (h.small_entry paddr false)) }
        m ← copy_bytes page_size 0 c.fixmap (c.pte_index_to_vaddr i j) t' s.memory
        some (record s { tables = t'; child = child; frames = f; free_pages = rest; memory = m })
    ]

    pub copy_entries : (left a b i j : ℕ) → Spaces → Option Spaces
    copy_entries zero a b i j s = some s
    copy_entries (suc left) a b i j s = do
      s' ← copy_entry a b i j s
      copy_entries left a b i (j + 1) s'

    -- A new table of zeros for entry `i` of the child.
    abbrev pub with_table : (i b : ℕ) → List ℕ → Spaces → Spaces
    with_table i b pool s = record s {
      tables = record s.tables { l2 = write s.tables.l2 b (λ k. 0); pool = pool };
      dst = write s.dst i (h.table_entry b false);
    }

    -- One round of the outer loop.
    pub copy_table : (i : ℕ) → Spaces → Option Spaces
    copy_table i s =
        let w = s.tables.l1 i in
        if w == 0 then some s else if h.l1pte_is_sect w then none else elim s.tables.pool [
          | [] ↦ none
          | b ∷ pool ↦ copy_entries 256 (h.table_of w) b i 0 (with_table i b pool s)
        ]

    pub copy_tables : (left i : ℕ) → Spaces → Option Spaces
    copy_tables zero i s = some s
    copy_tables (suc left) i s = do s' ← copy_table i s; copy_tables left (i + 1) s'

    pub duplicate_user_space : Spaces → Option Spaces
    duplicate_user_space s = do
      s' ← copy_tables (h.l1pte_index c.kernel_vaddr) 0 s
      t ← release_mapping h fuel c.fixmap page_size s'.tables
      some (record s' { tables = t })
