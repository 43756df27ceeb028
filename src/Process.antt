-- ===== src/Process.antt =====
-- l5-scheduling-memory/so3/kernel/process.c: the process table of the SO3 kernel, the file
-- descriptors, the break and the pages of a process. FD_MAX, which is 64, and HEAP_SIZE are
-- arguments. The structure of a process is in l2-syscalls-fork/so3/include/process.h. A pointer
-- is a number; `ptr` is the address of the structure itself.
pub mod Table
pub mod Create
pub mod Fd
pub mod Heap
pub mod Pages
pub mod Wait
pub mod Fork
pub mod Duplicate
pub mod Exit
pub mod Args
pub mod Image
pub mod Load
pub mod Execve
mod Tests
use sye.Base.{
  ℕ, zero, suc, ◌+◌, ◌-◌, ◌*◌, ◌/◌, ◌%◌, ◌^◌, ◌≤◌, ◌<◌, ◌≡◌, refl, sym, ap, ap₂, ◌∙◌, ◌≢◌, ◌⊎◌, inl,
  inr, Bool, true, false, not, ◌&&◌, ◌||◌, Option, none, some, List, [], ◌∷◌, ◌++◌, map, arith, ltb,
  leb, ◌==◌, if◌then◌else◌, Bool-cases, Option-cases, length, get_elem?, get_or, set, take, drop,
  replicate, bit_and, bit_or, u8, u16, u32, ◌<<<◌, ◌>>>◌, get_or-set, length-set, count_if, one_if,
  count_if-set, ℤ, pos, negsuc, ◌==ℤ◌,
}

pub data ProcState : Type 0 where
  new ready running waiting zombie : ProcState

-- The ptrace requests that process.c tells apart: none, PTRACE_TRACEME and the others.
pub data Ptrace : Type 0 where
  no_request trace_me other_request : Ptrace

-- What set_errno receives.
pub data Errno : Type 0 where
  echild enomem esrch enfile einval enoent : Errno

-- The part of the thread structure that process.c writes.
pub record Thread : Type 0 where
  pub prio : ℕ

pub record Pcb : Type 0 where
  pub ptr : ℕ
  pub pid : ℕ
  pub state : ProcState
  pub parent : Option ℕ
  pub main_thread : Option Thread
  pub fd_array : List ℤ
  pub page_list : List ℕ
  pub exit_status : ℕ
  pub ptrace_pending_req : Ptrace
  pub page_count : ℕ
  pub stack_top : ℕ
  pub stack_slots : List Bool
  pub name : List ℕ
  pub heap_base : ℕ
  pub heap_pointer : ℕ

pub record Kernel : Type 0 where
  pub proc_list : List Pcb
  pub pid_current : ℕ
  pub errno : Option Errno
  pub irq_off : Bool
  pub schedule_softirq : Bool

-- A call returns, or dereferences NULL.
pub data Result : Type 0 where
  returns : ℤ → Kernel → Result
  fault : Result

-- The loops `list_for_each` that return the first process that passes a test.
pub first_that : (Pcb → Bool) → List Pcb → Option Pcb
first_that test [] = none
first_that test (p ∷ ps) = let rest = first_that test ps in if test p then some p else rest

pub find_proc_by_pid : ℕ → List Pcb → Option Pcb
find_proc_by_pid pid ps = first_that (λ p. p.pid == pid) ps

abbrev pub is_zombie : ProcState → Bool
is_zombie zombie = true
is_zombie _ = false

abbrev pub has_thread : Pcb → Bool
has_thread p = elim p.main_thread [ none ↦ false | some t ↦ true ]

pub find_proc_zombie_to_clean : List Pcb → Option Pcb
find_proc_zombie_to_clean ps = first_that (λ p. is_zombie p.state && has_thread p) ps

abbrev pub is_child_of : ℕ → Pcb → Bool
is_child_of parent p = elim p.parent [ none ↦ false | some q ↦ q == parent ]

pub find_proc_by_parent : ℕ → List Pcb → Option Pcb
find_proc_by_parent parent ps = first_that (is_child_of parent) ps

-- A write through a pointer to a process of the list.
pub write_proc : Pcb → List Pcb → List Pcb
write_proc p [] = []
write_proc p (q ∷ ps) = let rest = write_proc p ps in if q.ptr == p.ptr then p ∷ ps else q ∷ rest

-- `proc > 0` is a test for NULL.
pub do_renice : ℕ → ℕ → Kernel → Result
do_renice pid new_prio k =
    if new_prio == 0 then returns (negsuc 0) k else elim (find_proc_by_pid pid k.proc_list) [
      | none ↦ returns (pos 0) k
      | some p ↦ elim p.main_thread [
        | none ↦ fault
        | some t ↦ returns (pos 0) (record k {
          proc_list =
              write_proc (record p { main_thread = some (record t { prio = new_prio }) })
                k.proc_list;
        })
      ]
    ]

pub remove_proc : ℕ → List Pcb → List Pcb
remove_proc pcb [] = []
remove_proc pcb (p ∷ ps) = let rest = remove_proc pcb ps in if p.ptr == pcb then ps else p ∷ rest

-- The process that `new_process` puts at the end of the list; `address` is what malloc returned.
-- The fields not set are 0, the file descriptors too.
pub new_process : (fd_max address : ℕ) → Kernel → Pcb × Kernel
new_process fd_max address k =
    let pcb : Pcb = record {
      ptr = address;
      pid = k.pid_current;
      state = new;
      parent = none;
      main_thread = none;
      fd_array = replicate fd_max (pos 0);
      page_list = [];
      exit_status = 0;
      page_count = 0;
      stack_top = 0;
      stack_slots = replicate 32 false;
      name = [];
      ptrace_pending_req = no_request;
      heap_base = 0;
      heap_pointer = 0;
    } in
    (pcb, record k { proc_list = k.proc_list ++ pcb ∷ []; pid_current = u32 (k.pid_current + 1) })

-- The loop of `proc_new_fd` at index `i`; `none` is -1.
pub new_fd_loop : (left i : ℕ) → List ℤ → Option ℕ
new_fd_loop zero i fds = none
new_fd_loop (suc left) i fds =
    let rest = new_fd_loop left (i + 1) fds in
    if get_or fds i (pos 0) ==ℤ negsuc 0 then some i else rest

pub proc_new_fd : (fd_max : ℕ) → Pcb → Option ℕ
proc_new_fd fd_max pcb = new_fd_loop fd_max 0 pcb.fd_array

-- What is returned, the error set and the current process after; `none` is a thread without one.
pub proc_register_fd : (fd_max : ℕ) → ℤ → Option Pcb → ℤ × Option Errno × Option Pcb
proc_register_fd fd_max gfd none = (negsuc 0, none, none)
proc_register_fd fd_max gfd (some pcb) = elim (proc_new_fd fd_max pcb) [
  | none ↦ (negsuc 0, some enfile, some pcb)
  | some fd ↦ (pos fd, none, some (record pcb { fd_array = set pcb.fd_array fd gfd }))
]

-- `do_sbrk` on 32-bit words; a word from 2^31 on is a negative int, 2^32 - 1 is -1.
pub do_sbrk : (heap_size increment : ℕ) → Option Pcb → ℕ × Option Errno × Option Pcb
do_sbrk heap_size increment none = (2 ^ 32 - 1, some esrch, none)
do_sbrk heap_size increment (some pcb) =
    let cur_sz = u32 (pcb.heap_pointer + 2 ^ 32 - pcb.heap_base) in
    let req_sz = u32 (cur_sz + increment) in
    if leb heap_size req_sz || leb (2 ^ 31) req_sz then (2 ^ 32 - 1, some enomem, some pcb) else (
      pcb.heap_pointer,
      none,
      some (record pcb { heap_pointer = u32 (pcb.heap_pointer + increment) }),
    )

-- The frames: the reference count of each, and those given back by free_page, the last one first.
pub record Frames : Type 0 where
  pub refcount : ℕ → ℕ
  pub freed : List ℕ

abbrev pub count_at : Frames → ℕ → ℕ → Frames
count_at f page n = record f { refcount = λ q. if q == page then n else f.refcount q }

pub add_page_to_proc : ℕ → Pcb × Frames → Pcb × Frames
add_page_to_proc page (pcb, f) =
    (record pcb { page_list = pcb.page_list ++ page ∷ [] }, count_at f page (f.refcount page + 1))

-- The loop of `release_proc_pages` over the pages of the process. The count of a page that a
-- process holds is not 0, so it does not go below 0.
pub release_loop : List ℕ → Frames → Frames
release_loop [] f = f
release_loop (page ∷ pages) f =
    let f' = count_at f page (f.refcount page - 1) in
    release_loop pages (if f'.refcount page == 0 then record f' { freed = page ∷ f'.freed } else f')

pub release_proc_pages : Pcb × Frames → Pcb × Frames
release_proc_pages (pcb, f) = (record pcb { page_list = [] }, release_loop pcb.page_list f)
