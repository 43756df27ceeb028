-- ===== src/Process/Duplicate/Tests.antt =====
-- duplicate_user_space of mmu.c on a parent with one page, in a user space of one section.
use sye.Base.{
  ℕ, zero, suc, ◌+◌, ◌*◌, ◌<◌, ◌≡◌, refl, sym, ap, ◌∙◌, ◌/◌, ◌≢◌, true, false, ◌&&◌, none, some, [],
  ◌∷◌, arith, ◌==◌, if◌then◌else◌, get_or, inl, inr, Bool-cases,
}
use sye.Mmu.{page_size, sect_size}
use sye.Mmu.ShortFormat.{short_format, short_format-IsMmu}
use sye.Mmu.Walk.{IsTables, IsTable}
use sye.Process.{running, no_request}
use sye.Process.Duplicate.{Spaces, Fixmap, duplicate_user_space}
use sye.Process.Duplicate.Table.{held}
use sye.Process.Duplicate.Copied.{CanCopy, all_pages}
use sye.Process.Duplicate.Child.{Duplicated, duplicate_user_space-Duplicated}

abbrev config : Fixmap
config = record {
  fixmap = 0x100000;
  kernel_vaddr = 0x100000;
  phys_to_page = λ p. p;
  pte_index_to_vaddr = λ i j. i * sect_size + j * page_size;
}

-- Page 3 of the parent is at 0x50000, and 0x60000 is free.
abbrev parent : Spaces
parent = record {
  tables = record {
    l1 = λ i. if i == 0 then 0x8001 else 0;
    l2 = λ a j. if a == 0x8000 && j == 3 then 0x5000e else 0;
    pool = 0x9000 ∷ 0x9400 ∷ [];
    freed = [];
  };
  dst = λ i. 0;
  child = record {
    ptr = 0x100;
    pid = 2;
    state = running;
    parent = none;
    main_thread = none;
    fd_array = [];
    page_list = [];
    exit_status = 0;
    ptrace_pending_req = no_request;
    page_count = 0;
    stack_top = 0;
    stack_slots = [];
    name = [];
    heap_base = 0;
    heap_pointer = 0;
  };
  frames = record { refcount = λ q. 0; freed = [] };
  free_pages = 0x60000 ∷ [];
  memory = λ q. q + 7;
}

first_only : (i : ℕ) → IsTable short_format (parent.tables.l1 i) → i ≡ 0
first_only i (p, q) = ground arith

block_at : (k : ℕ) → k < 2 → get_or parent.tables.pool k 0 ≡ 0x9000 + 1024 * k
block_at zero p = refl
block_at (suc zero) p = refl
block_at (suc (suc k)) p = absurd (omega arith)

parent-IsTables : IsTables short_format parent.tables
parent-IsTables = record {
  apart = λ i j p q e. let a = first_only i p in let b = first_only j q in omega arith;
  fresh = λ i k p lt e.
      let a = first_only i p in
      let table : 0x8000 ≡ get_or parent.tables.pool k 0 =
        sym (e ∙ ap (λ x. short_format.table_of (parent.tables.l1 x)) a) in
      omega (arith, block_at k lt);
  distinct = λ k l p q e. omega (arith, block_at k (omega arith), block_at l q);
  aligned = λ k p. omega (arith, block_at k p);
}

child-IsTables : IsTables short_format (record parent.tables { l1 = λ i. 0 })
child-IsTables = record {
  apart = λ i j (p, q) r e. cc;
  fresh = λ i k (p, q) r e. cc;
  distinct = parent-IsTables.distinct;
  aligned = parent-IsTables.aligned;
}

page_at : (k : ℕ) → k < 1 → get_or parent.free_pages k 0 ≡ 0x60000
page_at zero p = refl
page_at (suc k) p = absurd (omega arith)

no_sections : (i : ℕ) → i < 1 → short_format.l1pte_is_sect (parent.tables.l1 i) ≡ false
no_sections zero p = refl
no_sections (suc i) p = absurd (omega arith)

abbrev entry_at : ℕ → ℕ → ℕ
entry_at i j = parent.tables.l2 (short_format.table_of (parent.tables.l1 i)) j

other_page :
    (i j k o : ℕ)
    → i < 1
    → k < 1
    → o < page_size
    → (entry_at i j == 0) ≡ false
    → (short_format.small_addr (entry_at i j) + o) / page_size
      ≢ get_or parent.free_pages k 0 / page_size
other_page (suc i) j k o a b lt used = absurd (omega arith)
other_page zero j (suc k) o a b lt used = absurd (omega arith)
other_page zero j zero o a b lt used = elim (Bool-cases (j == 3)) [
  | inl t ↦ rw t (λ e. omega arith)
  | inr t ↦ let empty : (entry_at 0 j == 0) ≡ true = rw t refl in cc
]

one_page_each : all_pages short_format short_format-IsMmu config 1 0 parent.tables ≡ 1
unfolding all_pages held
one_page_each = refl

can : CanCopy short_format short_format-IsMmu config parent
can = record {
  whole = (refl, omega arith);
  above = omega arith;
  pages = record {
    even = λ k p. omega (arith, page_at k p);
    below = λ k p. omega (arith, page_at k p);
    distinct = λ k l p q. absurd (omega arith);
  };
  apart = record { mine = parent-IsTables; child = child-IsTables; both = λ i j p a b. cc };
  no_pages = λ i p. refl;
  small = λ i p. no_sections i p;
  small_fixmap = refl;
  addr = λ i j p q. refl;
  in_use = λ i j k o a is b q lt used. other_page i j k o a q lt used;
}

duplicate_user_space-Duplicated_example :
    (s : Spaces) × (duplicate_user_space short_format config 256 parent ≡ some s)
    × Duplicated short_format short_format-IsMmu config parent can
        (all_pages short_format short_format-IsMmu config 1 0 parent.tables)
        s
duplicate_user_space-Duplicated_example =
    duplicate_user_space-Duplicated short_format short_format-IsMmu config parent can 256
      (omega arith) (omega (arith, one_page_each)) (omega (arith, one_page_each))
      (omega (arith, one_page_each))
