-- ===== src/Process/Image.antt =====
-- The image of a program in process.c: the pages that exec maps, over the page tables of Mmu.antt,
-- and the arguments page of Process/Args.antt.
pub mod Allocate
pub mod Layout
pub mod Exec
pub mod Sample
mod Tests
use sye.Base.{
  ℕ, zero, suc, ◌+◌, ◌-◌, ◌*◌, ◌/◌, ◌%◌, ◌^◌, ◌≤◌, ◌<◌, ◌≡◌, refl, sym, ap, ap₂, ◌∙◌, ◌≢◌, ◌⊎◌, inl,
  inr, Bool, true, false, not, ◌&&◌, ◌||◌, Option, none, some, List, [], ◌∷◌, ◌++◌, map, arith, ltb,
  leb, ◌==◌, if◌then◌else◌, Bool-cases, Option-cases, length, get_elem?, get_or, set, take, drop,
  replicate, bit_and, bit_or, u8, u16, u32, ◌<<<◌, ◌>>>◌, get_or-set, length-set, count_if, one_if,
  count_if-set, ◌>>=◌,
}
use sye.Mmu.{Macros, Tables, create_mapping, reset_root_pgtable}
use sye.Process.{Pcb, Errno, Frames, add_page_to_proc, release_proc_pages}
use sye.Process.Args.{
  Memory, page_size, Preserved, failed, preserved, preserve_args_and_env, post_setup_image,
}

-- What the functions of this file change: the process, its page tables, the frames, the physical
-- addresses that get_free_page will return, in order, and `bin_image_entry`.
pub record Space : Type 0 where
  pub pcb : Pcb
  pub tables : Tables
  pub frames : Frames
  pub free_pages : List ℕ
  pub entry : ℕ

-- What the kernel's configuration and the architecture give: the sizes of a stack and of a heap,
-- arch_get_args_base, the kernel's first address, and the page structure of a physical address.
pub record Arch : Type 0 where
  pub stack_size : ℕ
  pub heap_size : ℕ
  pub args_base : ℕ
  pub kernel_vaddr : ℕ
  pub phys_to_page : ℕ → ℕ

-- ALIGN_UP(size, PAGE_SIZE) >> PAGE_SHIFT
abbrev pub pages_of : ℕ → ℕ
pages_of size = (size + (page_size - 1)) / page_size

module _ (h : Macros) (c : Arch) where
  -- The loop of `allocate_page`, at page `i` with `left` to go; `none` is a BUG.
  pub allocate_loop : (fuel left i virt_addr : ℕ) → Space → Option Space
  allocate_loop fuel zero i virt_addr s = some s
  allocate_loop fuel (suc left) i virt_addr s = elim s.free_pages [
    | [] ↦ none
    | page ∷ rest ↦
        elim (create_mapping h fuel (virt_addr + i * page_size) page page_size false s.tables) [
          | none ↦ none
          | some t ↦
              let (pcb, f) = add_page_to_proc (c.phys_to_page page) (s.pcb, s.frames) in
              allocate_loop fuel left (i + 1) virt_addr
                (record s { pcb = pcb; tables = t; frames = f; free_pages = rest })
        ]
  ]

  pub allocate_page : (fuel virt_addr nr_pages : ℕ) → Space → Option Space
  allocate_page fuel virt_addr nr_pages s = allocate_loop fuel nr_pages 0 virt_addr s

  pub reset_process_stack : Pcb → Pcb
  reset_process_stack pcb = record pcb {
    page_count = pages_of c.stack_size;
    stack_top = c.args_base;
  }

  -- The old image is gone: no entry of the user space, no page.
  pub drop_image : (pgtable : ℕ) → Space → Space
  drop_image pgtable s =
      let t = reset_root_pgtable h c.kernel_vaddr pgtable false s.tables in
      let (pcb, f) = release_proc_pages (reset_process_stack s.pcb, s.frames) in
      record s { pcb = pcb; tables = t; frames = f }

  -- What is set before the segments, the heap and the arguments are mapped.
  abbrev pub with_segments : (e_entry segment_pages : ℕ) → Space → Space
  with_segments e_entry segment_pages s = record s {
    pcb = record s.pcb { page_count = s.pcb.page_count + segment_pages };
    entry = e_entry;
  }

  abbrev pub with_heap : Space → Space
  with_heap s =
      let heap = (s.pcb.page_count + 1) * page_size in
      record s {
        pcb = record s.pcb {
          heap_base = heap;
          heap_pointer = heap;
          page_count = s.pcb.page_count + pages_of c.heap_size;
        };
      }

  abbrev pub with_args : Space → Space
  with_args s = record s { pcb = record s.pcb { page_count = s.pcb.page_count + 1 } }

  -- The image is mapped: the stack, the segments, the heap and the page of the arguments.
  pub map_image : (fuel e_entry segment_pages : ℕ) → Space → Option Space
  map_image fuel e_entry segment_pages s = do
    s1 ← allocate_page fuel (s.pcb.stack_top - s.pcb.page_count * page_size) s.pcb.page_count s
    s2 ← allocate_page fuel e_entry segment_pages (with_segments e_entry segment_pages s1)
    let s2' = with_heap s2
    s3 ← allocate_page fuel s2'.pcb.heap_base (pages_of c.heap_size) s2'
    allocate_page fuel c.args_base 1 (with_args s3)

  -- `args` is the address that malloc returns for the temporary page, and `remap` the memory as the
  -- kernel reads it after the user space was mapped anew; `none` is a BUG. The result is the space
  -- and the memory. The test of a negative pointer is never true, so that an error of
  -- `preserve_args_and_env`, which returns NULL, is passed over.
  pub setup_proc_image_replace :
      (fuel pgtable args e_entry segment_pages : ℕ) (argc : ℕ)
      → (argv envp : Option (List (List ℕ))) → (remap : Memory → Memory) → Memory
      → Space
      → Option (Space × Memory)
  setup_proc_image_replace fuel pgtable args e_entry segment_pages argc argv envp remap m s = do
    s' ← map_image fuel e_entry segment_pages (drop_image pgtable s)
    elim (preserve_args_and_env m args s.pcb.name argc argv envp) [
      | failed e ↦ some (s', remap m)
      | preserved m1 ↦ elim (post_setup_image page_size args c.args_base (remap m1)) [
        | none ↦ none
        | some m2 ↦ some (s', m2)
      ]
    ]
