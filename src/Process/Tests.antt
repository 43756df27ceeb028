-- ===== src/Process/Tests.antt =====
-- process.c on a small table, and its theorems there.
use sye.Base.{
  ℕ, ◌-◌, ◌^◌, ◌≤◌, ◌≡◌, refl, Bool, true, false, Option, none, some, List, [], ◌∷◌, map, arith,
  ◌==◌, if◌then◌else◌, set, replicate, u8, ◌<<<◌, count_if, ◌==ℤ◌, ℤ, pos, negsuc,
}
use sye.Process.{
  find_proc_by_parent, Thread, Pcb, Kernel, Frames, running, zombie, no_request, first_that,
  find_proc_by_pid, do_renice, new_process, proc_register_fd, do_sbrk, release_proc_pages,
}
use sye.Process.Table.{Distinct, nobody, one_more, Becomes, Reniced, do_renice-Reniced}
use sye.Process.Create.{below_none, below_more, IsTable, new_process-IsTable}
use sye.Process.Wait.{Reaped, do_waitpid, do_waitpid-Reaped, waited, pid_word}
use sye.Process.Fork.Life.{fork-exit-waitpid}
use sye.Process.Exit.{exited, root_panic, no_process, do_exit}
use sye.Process.Fork.{do_fork, forked}
use sye.Process.Fd.{Registered, proc_register_fd-Registered}
use sye.Process.Heap.{InHeap, Moved, do_sbrk-Moved}
use sye.Process.Pages.{uses, Released, release_proc_pages-Released}

abbrev proc : ℕ → ℕ → Pcb
proc ptr pid = record {
  ptr = ptr;
  pid = pid;
  state = running;
  parent = none;
  main_thread = some (record { prio = 5 });
  fd_array = pos 0 ∷ pos 1 ∷ negsuc 0 ∷ negsuc 0 ∷ [];
  page_list = 7 ∷ 9 ∷ [];
  exit_status = 0x103;
  page_count = 3;
  stack_top = 0xbffff000;
  stack_slots = replicate 32 false;
  name = 97 ∷ [];
  ptrace_pending_req = no_request;
  heap_base = 4096;
  heap_pointer = 5000;
}

abbrev table : Kernel
table = record {
  proc_list = proc 0x100 1 ∷ proc 0x200 2 ∷ [];
  pid_current = 3;
  errno = none;
  irq_off = false;
  schedule_softirq = false;
}

first_table : Distinct (proc 0x100 1 ∷ proc 0x200 2 ∷ [])
unfolding first_that find_proc_by_pid
first_table = one_more refl refl (one_more refl refl nobody)

two_found : find_proc_by_pid 2 table.proc_list ≡ some (proc 0x200 2)
unfolding first_that find_proc_by_pid
two_found = refl

table_ok : IsTable table
table_ok = record {
  distinct = first_table;
  below = below_more (omega arith) (below_more (omega arith) below_none);
}

fresh_address : first_that (λ q. q.ptr == 0x300) table.proc_list ≡ none
unfolding first_that
fresh_address = refl

-- Page 7 is shared with another process, page 9 is not.
abbrev frames : Frames
frames = record { refcount = λ q. if q == 7 then 2 else if q == 9 then 1 else 0; freed = [] }

enough_counts : (q : ℕ) → uses q (7 ∷ 9 ∷ []) ≤ frames.refcount q
unfolding count_if
enough_counts q = ground arith

break_inside : InHeap 8192 (proc 0x100 1)
break_inside = record { above = omega arith; inside = omega arith }

do_renice-Reniced_example : Reniced 2 9 table (do_renice 2 9 table)
do_renice-Reniced_example = do_renice-Reniced table 2 9 first_table (omega arith)

new_process-IsTable_example :
    IsTable (new_process 4 0x300 table).1
    × Becomes 3
        (some (new_process 4 0x300 table).0)
        table.proc_list
        (new_process 4 0x300 table).1.proc_list
new_process-IsTable_example = new_process-IsTable 4 0x300 table table_ok (omega arith) fresh_address

proc_register_fd-Registered_example :
    Registered 4 (pos 12) (proc 0x100 1) (proc_register_fd 4 (pos 12) (some (proc 0x100 1)))
proc_register_fd-Registered_example = proc_register_fd-Registered 4 (pos 12) (proc 0x100 1) refl

-- An increment of -100.
do_sbrk-Moved_example :
    Moved 8192 (2 ^ 32 - 100) (proc 0x100 1) (do_sbrk 8192 (2 ^ 32 - 100) (some (proc 0x100 1)))
do_sbrk-Moved_example =
    do_sbrk-Moved 8192 (2 ^ 32 - 100) (proc 0x100 1) (omega arith) (omega arith) (omega arith)
      break_inside

release_proc_pages-Released_example :
    Released (7 ∷ 9 ∷ []) frames (release_proc_pages (proc 0x100 1, frames)).1
    × ((release_proc_pages (proc 0x100 1, frames)).0.page_list ≡ [])
release_proc_pages-Released_example =
    release_proc_pages-Released (proc 0x100 1) frames enough_counts

-- A scheduler that lets the process at the address run until it exits.
abbrev run_to_end : ℕ → Kernel → Kernel
run_to_end ptr k = record k {
  proc_list = map (λ p. if p.ptr == ptr then record p { state = zombie } else p) k.proc_list;
}

abbrev masked_table : Kernel
masked_table = record table { irq_off = true }

abbrev dead_child : Pcb
dead_child = record (proc 0x200 2) { state = zombie }

ended_table : Distinct (run_to_end 0x200 masked_table).proc_list
unfolding first_that find_proc_by_pid
ended_table = one_more refl refl (one_more refl refl nobody)

dead_found : find_proc_by_pid 2 (run_to_end 0x200 masked_table).proc_list ≡ some dead_child
unfolding first_that find_proc_by_pid
dead_found = refl

do_waitpid-Reaped_example :
    Reaped 2 true false dead_child
      (run_to_end 0x200 masked_table)
      (do_waitpid run_to_end run_to_end (pos 2) true false table)
do_waitpid-Reaped_example =
    do_waitpid-Reaped run_to_end run_to_end 2 true false table (proc 0x200 2) dead_child
      (omega arith) first_table two_found refl refl refl ended_table dead_found refl refl refl

nobody_found : find_proc_by_pid (pid_word (pos 8)) table.proc_list ≡ none
unfolding first_that find_proc_by_pid
nobody_found = refl

eight_positive : (pos 8 ==ℤ negsuc 0) ≡ false
unfolding ◌==ℤ◌
eight_positive = refl

abbrev clone : List ℤ → Option (List ℤ)
clone fds = some fds

abbrev new_thread : Pcb → Thread × List Bool
new_thread p = (record { prio = 5 }, p.stack_slots)

abbrev first_name : List ℕ → ℕ → List ℕ
first_name name pid = pid ∷ name

abbrev no_pages : Pcb → List ℕ
no_pages p = []

abbrev close : ℕ → List ℤ → List ℤ
close i fds = set fds i (negsuc 0)

abbrev no_signal : ℕ → Kernel → Kernel
no_signal p k = k

abbrev ends : Kernel → Kernel
ends k = k

-- A scheduler that lets the child run until it exits with status 0x105.
abbrev run_child : ℕ → Kernel → Kernel
run_child ptr k = elim (do_exit close no_signal ends 4 true ptr 0x105 k frames) [
  | exited k' f' ↦ k'
  | root_panic ↦ k
  | no_process ↦ k
]

child_runs :
    (m m' : Kernel) (f' : Frames)
    → do_exit close no_signal ends 4 true 0x300 0x105 m frames ≡ exited m' f'
    → (run_child 0x300 m).proc_list ≡ m'.proc_list
child_runs m m' f' e = rw (e, run_child) refl

no_orphan : find_proc_by_parent 0x300 table.proc_list ≡ none
unfolding find_proc_by_parent first_that
no_orphan = refl

nothing_held : (q : ℕ) → uses q [] ≤ frames.refcount q
unfolding count_if
nothing_held q = omega arith

fork-exit-waitpid_example :
    (k1 : Kernel) × (k2 : Kernel) × (do_fork clone new_thread first_name no_pages 4 0x300 true
        (proc 0x100 1)
        table
      ≡ forked (pos 3) k1)
    × (do_waitpid run_child no_signal (pos 3) true false k1
        ≡ waited (pos 3) (some (u8 0x105 <<< 8)) k2)
    × ((n : ℕ) → find_proc_by_pid n k2.proc_list ≡ find_proc_by_pid n table.proc_list)
    × Distinct k2.proc_list
    × (k2.irq_off ≡ false)
fork-exit-waitpid_example =
    fork-exit-waitpid clone new_thread first_name no_pages close no_signal ends run_child no_signal
      4 0x300 0x105 true (proc 0x100 1) (proc 0x100 1).fd_array table frames refl table_ok
      (omega arith) fresh_address no_orphan (λ e. omega arith) (λ p k. (refl, refl))
      (λ k. (refl, refl)) child_runs nothing_held
