-- ===== src/Process/Fork.antt =====
-- duplicate_process, do_fork and do_fork2 of process.c. vfs_clone_fd, the format of the
-- child's name, duplicate_user_space, which gives the child its pages, and user_thread, which gives
-- it a thread and a stack slot, are parameters. The
-- copies of the kernel stack and of the registers change nothing that is modelled.
pub mod Life
pub mod Child
use sye.Base.{
  ℕ, ◌-◌, ◌^◌, ◌<◌, ◌≡◌, refl, ◌∙◌, inl, inr, Bool, true, false, Option, none, some, List, [], ◌∷◌,
  arith, ◌==◌, Bool-cases, ℤ, pos, negsuc, as_int,
}
use sye.Process.Table.{Becomes, write-Becomes, write-Distinct}
use sye.Process.Create.{IsTable, Below, below_more, new_process-IsTable}
use sye.Process.{Pcb, Thread, Kernel, ready, first_that, find_proc_by_pid, write_proc, new_process}

-- What a call of fork leaves: its result and the kernel, or a panic.
pub data Forked : Type 0 where
  forked : ℤ → Kernel → Forked
  panic : Forked

write-Below :
    (bound : ℕ) (q : Pcb) (ps : List Pcb)
    → Below bound ps
    → q.pid < bound
    → Below bound (write_proc q ps)
unfolding write_proc
write-Below bound q [] b lt = b
write-Below bound q (p ∷ ps) (below_more lt' b) lt = elim (Bool-cases (p.ptr == q.ptr)) [
  | inl t ↦ rw (t, write_proc) (below_more lt b)
  | inr t ↦ rw (t, write_proc) (below_more lt' (write-Below bound q ps b lt))
]

-- A write to a process that keeps its address and pid keeps the table.
pub write-IsTable :
    (n : ℕ) (p q : Pcb) (k : Kernel)
    → IsTable k
    → n < k.pid_current
    → find_proc_by_pid n k.proc_list ≡ some p
    → q.ptr ≡ p.ptr
    → q.pid ≡ n
    → IsTable (record k { proc_list = write_proc q k.proc_list })
      × Becomes n (some q) k.proc_list (write_proc q k.proc_list)
write-IsTable n p q k ok lt e a b = (
  record {
    distinct = write-Distinct n k.proc_list p q ok.distinct e a b;
    below = write-Below k.pid_current q k.proc_list ok.below (rw b lt);
  },
  write-Becomes n k.proc_list p q ok.distinct e a b,
)

pub Becomes-trans :
    (n : ℕ) (found found' : Option Pcb) (ps qs rs : List Pcb)
    → Becomes n found ps qs
    → Becomes n found' qs rs
    → Becomes n found' ps rs
Becomes-trans n found found' ps qs rs b c = record {
  now = c.now;
  others = λ m ne. c.others m ne ∙ b.others m ne;
}

module _ (clone_fd : List ℤ → Option (List ℤ)) (user_thread : Pcb → Thread × List Bool)
    (child_name : List ℕ → ℕ → List ℕ) (user_pages : Pcb → List ℕ) where
  -- The new process with the fields that the parent hands down.
  pub inherit : Pcb → List ℤ → Pcb → Pcb
  inherit parent fds pcb = record pcb {
    page_count = parent.page_count;
    parent = some parent.ptr;
    stack_top = parent.stack_top;
    heap_base = parent.heap_base;
    heap_pointer = parent.heap_pointer;
    stack_slots = parent.stack_slots;
    fd_array = fds;
  }

  -- `none` is a kernel panic.
  pub duplicate_process : (fd_max address : ℕ) → Pcb → Kernel → Option (Pcb × Kernel)
  duplicate_process fd_max address parent k =
      let (pcb, k') = new_process fd_max address k in
      elim (clone_fd parent.fd_array) [
        | none ↦ none
        | some fds ↦
            let child = inherit parent fds pcb in
            some (child, record k' { proc_list = write_proc child k'.proc_list })
      ]

  -- The child as `do_fork` leaves it.
  pub start_child : Pcb → Pcb → Pcb
  start_child parent newp =
      let named = record newp {
        page_list = user_pages parent;
        name = child_name parent.name newp.pid;
      } in
      let (thread, slots) = user_thread named in
      record named { main_thread = some thread; stack_slots = slots; state = ready }

  -- `is_main` says that the running thread is the main thread of the process.
  pub do_fork : (fd_max address : ℕ) (is_main : Bool) → Pcb → Kernel → Forked
  do_fork fd_max address false parent k = forked (negsuc 0) (record k { irq_off = true })
  do_fork fd_max address true parent k =
      elim (duplicate_process fd_max address parent (record k { irq_off = true })) [
        | none ↦ panic
        | some (newp, k') ↦ forked (as_int newp.pid) (record k' {
          proc_list = write_proc (start_child parent newp) k'.proc_list;
          schedule_softirq = true;
          irq_off = k.irq_off;
        })
      ]

  -- The text of `do_fork2` is that of `do_fork`.
  pub do_fork2 : (fd_max address : ℕ) (is_main : Bool) → Pcb → Kernel → Forked
  do_fork2 fd_max address false parent k = forked (negsuc 0) (record k { irq_off = true })
  do_fork2 fd_max address true parent k =
      elim (duplicate_process fd_max address parent (record k { irq_off = true })) [
        | none ↦ panic
        | some (newp, k') ↦ forked (as_int newp.pid) (record k' {
          proc_list = write_proc (start_child parent newp) k'.proc_list;
          schedule_softirq = true;
          irq_off = k.irq_off;
        })
      ]

  duplicated :
      (fd_max address : ℕ) (parent : Pcb) (fds : List ℤ) (k : Kernel)
      → clone_fd parent.fd_array ≡ some fds
      → duplicate_process fd_max address parent k
        ≡ some (
          inherit parent fds (new_process fd_max address k).0,
          record ((new_process fd_max address k).1) {
            proc_list =
                write_proc
                  (inherit parent fds (new_process fd_max address k).0)
                  (new_process fd_max address k).1.proc_list;
          },
        )
  unfolding duplicate_process
  duplicated fd_max address parent fds k e = rw (e, duplicate_process) refl

  -- The child that a fork adds.
  abbrev pub child_of : (fd_max address : ℕ) → Pcb → List ℤ → Kernel → Pcb
  child_of fd_max address parent fds k =
      start_child parent
        (inherit parent fds (new_process fd_max address (record k { irq_off = true })).0)

  -- From the main thread, when the file descriptors can be cloned, and the table has distinct
  -- addresses and pids below the next pid, which is below 2^32 - 1, `do_fork` at an address that
  -- no process has returns the next pid as an int, and `do_fork2` does the same. The child is found by it,
  -- with the fields handed down by the parent; the searches for every other pid are as before, the
  -- table stays so, the scheduler is to run and the interrupt flag is the one before.
  pub do_fork-Becomes :
      (fd_max address : ℕ) (parent : Pcb) (fds : List ℤ) (k : Kernel)
      → clone_fd parent.fd_array ≡ some fds
      → IsTable k
      → k.pid_current < 2 ^ 32 - 1
      → first_that (λ q. q.ptr == address) k.proc_list ≡ none
      → (k' : Kernel) × (do_fork fd_max address true parent k ≡ forked (as_int k.pid_current) k')
        × (do_fork2 fd_max address true parent k ≡ forked (as_int k.pid_current) k')
        × IsTable k'
        × Becomes k.pid_current
            (some (child_of fd_max address parent fds k))
            k.proc_list
            k'.proc_list
        × (k'.irq_off ≡ k.irq_off)
        × (k'.schedule_softirq ≡ true)
  unfolding do_fork do_fork2 inherit start_child new_process
  do_fork-Becomes fd_max address parent fds k cloned ok room fresh =
      let n = k.pid_current in
      let k0 = record k { irq_off = true } in
      let p1 = (new_process fd_max address k0).0 in
      let k1 = (new_process fd_max address k0).1 in
      let q2 = inherit parent fds p1 in
      let q3 = start_child parent q2 in
      let copied = duplicated fd_max address parent fds k0 cloned in
      let ok0 : IsTable k0 = record { distinct = ok.distinct; below = ok.below } in
      let (ok1, b1) = new_process-IsTable fd_max address k0 ok0 room fresh in
      let later : n < k1.pid_current = omega arith in
      let (ok2, b2) = write-IsTable n p1 q2 k1 ok1 later b1.now refl refl in
      let k2 = record k1 { proc_list = write_proc q2 k1.proc_list } in
      let (ok3, b3) = write-IsTable n q2 q3 k2 ok2 later b2.now refl refl in
      let b13 = Becomes-trans n (some p1) (some q2) k.proc_list k1.proc_list k2.proc_list b1 b2 in
      let k3 = record k2 {
        proc_list = write_proc q3 k2.proc_list;
        schedule_softirq = true;
        irq_off = k.irq_off;
      } in
      (
        k3,
        rw (copied, do_fork) refl,
        rw (copied, do_fork2) refl,
        record { distinct = ok3.distinct; below = ok3.below },
        Becomes-trans n (some q2) (some q3) k.proc_list k2.proc_list k3.proc_list b13 b3,
        refl,
        refl,
      )
