-- ===== src/Process/Image/Sample.antt =====
-- A small image and a process for it: two pages of stack, one of code and one of heap.
use sye.Base.{
  ℕ, ◌+◌, ◌*◌, ◌/◌, ◌<◌, ◌≡◌, refl, true, none, List, [], ◌∷◌, arith, ◌==◌, if◌then◌else◌, get_or,
  count_if, all_below, all_below_sound,
}
use sye.Mmu.{page_size}
use sye.Mmu.ShortFormat.{short_format, short_format-IsMmu}
use sye.Mmu.Walk.{IsTables}
use sye.Process.{running, no_request}
use sye.Process.Args.{Memory}
use sye.Process.Image.{Space, Arch}
use sye.Process.Image.Layout.{Fits}
use sye.Process.Image.Exec.{CanLoad}

abbrev pub zeros : Memory
zeros b = 0

-- "ls" and "A=1"
abbrev pub ls : List (List ℕ)
ls = (108 ∷ 115 ∷ []) ∷ []

abbrev pub env : List (List ℕ)
env = (65 ∷ 61 ∷ 49 ∷ []) ∷ []

abbrev pub small : Arch
small = record {
  stack_size = 8192;
  heap_size = 4096;
  args_base = 0x80000;
  kernel_vaddr = 0x100000;
  phys_to_page = λ p. p / page_size;
}

abbrev pub blocks : List ℕ
blocks = 0x8000 ∷ 0x8400 ∷ 0x8800 ∷ 0x8c00 ∷ 0x9000 ∷ []

abbrev pub free : List ℕ
free = 0x200000 ∷ 0x201000 ∷ 0x202000 ∷ 0x203000 ∷ 0x204000 ∷ []

-- The old image of the process has page 7 twice.
abbrev pub space : Space
space = record {
  pcb = record {
    ptr = 0x100;
    pid = 1;
    state = running;
    parent = none;
    main_thread = none;
    fd_array = [];
    page_list = 7 ∷ 7 ∷ [];
    exit_status = 0;
    ptrace_pending_req = no_request;
    page_count = 0;
    stack_top = 0x80000;
    stack_slots = [];
    name = 97 ∷ [];
    heap_base = 0;
    heap_pointer = 0;
  };
  tables = record { l1 = λ i. 0; l2 = λ a j. 0; pool = blocks; freed = [] };
  frames = record { refcount = λ q. if q == 7 then 2 else 0; freed = [] };
  free_pages = free;
  entry = 0;
}

block_at : (k : ℕ) → k < 5 → get_or blocks k 0 ≡ 0x8000 + 1024 * k
unfolding all_below
block_at k p =
    let t = all_below_sound 5 (λ i. get_or blocks i 0 == 0x8000 + 1024 * i) k table p in
    ground arith
  where
    table : all_below 5 (λ i. get_or blocks i 0 == 0x8000 + 1024 * i) ≡ true
    table = refl

free_at : (k : ℕ) → k < 5 → get_or free k 0 ≡ 0x200000 + 4096 * k
unfolding all_below
free_at k p =
    let t = all_below_sound 5 (λ i. get_or free i 0 == 0x200000 + 4096 * i) k table p in
    ground arith
  where
    table : all_below 5 (λ i. get_or free i 0 == 0x200000 + 4096 * i) ≡ true
    table = refl

space-IsTables : IsTables short_format space.tables
space-IsTables = record {
  apart = λ i j (p, q) r e. cc;
  fresh = λ i k (p, q) r e. cc;
  distinct = λ k l p q e. omega (arith, block_at k (omega arith), block_at l q);
  aligned = λ k p. omega (arith, block_at k p);
}

pub space-CanLoad : CanLoad short_format short_format-IsMmu small 5 space
unfolding count_if
space-CanLoad = record {
  tables = space-IsTables;
  room = omega arith;
  enough = omega arith;
  even = λ k p. omega (arith, free_at k p);
  phys = λ k p. omega (arith, free_at k p);
  low = omega arith;
  held = λ q. ground arith;
}

pub small-Fits : Fits short_format short_format-IsMmu small 1 2 1 1 0x1000
small-Fits = record {
  args_even = refl;
  entry_even = refl;
  segments = omega arith;
  heap = omega arith;
  args = omega arith;
}
