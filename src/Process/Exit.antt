-- ===== src/Process/Exit.antt =====
-- do_exit of process.c. do_close, as what it leaves of the descriptors of the running process,
-- do_kill and thread_exit are parameters; serial_cleanup changes nothing that is modelled.
use sye.Base.{
  ℕ, zero, suc, ◌+◌, ◌≤◌, ◌<◌, ◌≡◌, refl, ap, ◌∙◌, Bool, true, false, Option, none, some, List, [],
  if◌then◌else◌, ℤ,
}
use sye.Process.{
  Pcb, Kernel, zombie, Frames, find_proc_by_pid, write_proc, release_loop, release_proc_pages,
}
use sye.Process.Wait.{at}
use sye.Process.Table.{Becomes, find-address}
use sye.Process.Create.{IsTable}
use sye.Process.Fork.{write-IsTable}
use sye.Process.Pages.{uses, Released, release_proc_pages-Released}

-- `no_process` follows the pointer to a process that is not in the list.
pub data Exited : Type 0 where
  exited : Kernel → Frames → Exited
  root_panic : Exited
  no_process : Exited

-- The loop over the descriptors.
pub close_loop : (ℕ → List ℤ → List ℤ) → (left i : ℕ) → List ℤ → List ℤ
close_loop close zero i fds = fds
close_loop close (suc left) i fds = close_loop close left (i + 1) (close i fds)

-- The process table is kept by what delivers the signal and by what ends a thread.
abbrev pub KeepsTable : (Kernel → Kernel) → Type 0
KeepsTable g = (k : Kernel) → ((g k).proc_list ≡ k.proc_list) × ((g k).pid_current ≡ k.pid_current)

told-proc_list :
    (do_kill : ℕ → Kernel → Kernel) (thread_exit : Kernel → Kernel) (signal : Bool) (parent : ℕ)
    (k : Kernel)
    → ((p : ℕ) → KeepsTable (do_kill p))
    → KeepsTable thread_exit
    → let k' = thread_exit (if signal then do_kill parent k else k) in
      (k'.proc_list ≡ k.proc_list) × (k'.pid_current ≡ k.pid_current)
told-proc_list do_kill thread_exit true parent k kills ends =
    let (a, b) = ends (do_kill parent k) in let (a', b') = kills parent k in (a ∙ a', b ∙ b')
told-proc_list do_kill thread_exit false parent k kills ends = ends k

module _ (do_close : ℕ → List ℤ → List ℤ) (do_kill : ℕ → Kernel → Kernel)
    (thread_exit : Kernel → Kernel) where
  -- The process that dies, from the closed descriptors on.
  unfoldable pub dead_of : (fd_max exit_status : ℕ) → Pcb → Pcb
  dead_of fd_max exit_status pcb = record pcb {
    fd_array = close_loop do_close fd_max 0 pcb.fd_array;
    state = zombie;
    exit_status = exit_status;
  }

  -- From the test of the parent on; `signal` is CONFIG_IPC_SIGNAL.
  pub exit_child :
      (fd_max : ℕ) (signal : Bool) (exit_status : ℕ) → Option ℕ → Pcb → Kernel → Frames → Exited
  exit_child fd_max signal exit_status none pcb k f = root_panic
  exit_child fd_max signal exit_status (some parent) pcb k f =
      let (left, f') = release_proc_pages (dead_of fd_max exit_status pcb, f) in
      let k' = record k { proc_list = write_proc left k.proc_list; irq_off = true } in
      let told = if signal then do_kill parent k' else k' in exited (thread_exit told) f'

  -- `ptr` is the running process.
  pub do_exit : (fd_max : ℕ) (signal : Bool) (ptr exit_status : ℕ) → Kernel → Frames → Exited
  do_exit fd_max signal ptr exit_status k f = elim (at ptr k) [
    | none ↦ no_process
    | some pcb ↦ exit_child fd_max signal exit_status pcb.parent pcb k f
  ]

  -- The process that `do_exit` leaves.
  abbrev pub remains : (fd_max exit_status : ℕ) → Pcb → Pcb
  remains fd_max exit_status pcb = record (dead_of fd_max exit_status pcb) { page_list = [] }

  -- A process with a parent, in a table with distinct addresses and pids below the next one, ends
  -- by `do_exit` as a zombie with the exit status, closed descriptors and no pages: its pid finds
  -- it so, and every other pid what it found before. The frames are lowered by its uses, and those
  -- that no process uses are given back, if each count was at least the uses of the process, and
  -- do_kill and thread_exit keep the table.
  pub do_exit-Becomes :
      (fd_max : ℕ) (signal : Bool) (n exit_status parent : ℕ) (pcb : Pcb) (k : Kernel) (f : Frames)
      → ((p : ℕ) → KeepsTable (do_kill p))
      → KeepsTable thread_exit
      → IsTable k
      → n < k.pid_current
      → find_proc_by_pid n k.proc_list ≡ some pcb
      → pcb.pid ≡ n
      → pcb.parent ≡ some parent
      → ((q : ℕ) → uses q pcb.page_list ≤ f.refcount q)
      → (k' : Kernel) × (f' : Frames) × (do_exit fd_max signal pcb.ptr exit_status k f
          ≡ exited k' f')
        × IsTable k'
        × Becomes n (some (remains fd_max exit_status pcb)) k.proc_list k'.proc_list
        × (k'.proc_list ≡ write_proc (remains fd_max exit_status pcb) k.proc_list)
        × Released pcb.page_list f f'
  unfolding do_exit exit_child release_proc_pages dead_of
  do_exit-Becomes fd_max signal n exit_status parent pcb k f kills ends ok lt found pid up enough =
      let there = find-address n k.proc_list pcb ok.distinct found in
      let left = remains fd_max exit_status pcb in
      let k1 = record k { proc_list = write_proc left k.proc_list; irq_off = true } in
      let k' = thread_exit (if signal then do_kill parent k1 else k1) in
      let (procs, next) = told-proc_list do_kill thread_exit signal parent k1 kills ends in
      let (ok', b) = write-IsTable n pcb left k ok lt found refl pid in
      let (freed, _) = release_proc_pages-Released pcb f enough in
      (
        k',
        release_loop pcb.page_list f,
        rw (there, do_exit) (ap (λ q. exit_child fd_max signal exit_status q pcb k f) up),
        record { distinct = rw procs ok'.distinct; below = rw (procs, next) ok'.below },
        rw procs b,
        procs,
        freed,
      )
