-- ===== src/Process/Fork/Life.antt =====
-- A child from fork to waitpid: do_fork, do_exit and do_waitpid of process.c one after the other.
use sye.Base.{
  ℕ, ◌^◌, ◌≤◌, ◌<◌, ◌≡◌, refl, sym, ap, ◌∙◌, ◌≢◌, inl, inr, Bool, true, false, Option, none, some,
  List, [], ◌∷◌, arith, ◌==◌, if◌then◌else◌, Bool-cases, u8, ◌<<<◌, ℤ, pos, as_int, as_int-below,
  dec_lt, ℕ_discrete,
}
use sye.Process.{
  Pcb, Thread, Kernel, Frames, first_that, find_proc_by_pid, is_child_of, find_proc_by_parent,
  write_proc, new_process,
}
use sye.Process.Table.{Distinct, Becomes, first_that-hit, first_that-skip}
use sye.Process.Create.{IsTable, Below, Below-find, append-none}
use sye.Process.Wait.{
  Waited, waited, exit_bits, Reaped, removed, kept, do_waitpid, do_waitpid-Reaped,
}
use sye.Process.Fork.{
  Forked, forked, panic, inherit, duplicated, duplicate_process, start_child, do_fork, child_of,
  do_fork-Becomes,
}
use sye.Process.Exit.{exited, KeepsTable, do_exit, dead_of, remains, do_exit-Becomes}
use sye.Process.Pages.{uses}

write-none :
    (test : Pcb → Bool) (q : Pcb) (ps : List Pcb)
    → first_that test ps ≡ none
    → test q ≡ false
    → first_that test (write_proc q ps) ≡ none
unfolding write_proc
write-none test q [] e t = e
write-none test q (p ∷ ps) e t = elim (Bool-cases (test p)) [
  | inl hit ↦ let e' = sym (first_that-hit test p ps hit) ∙ e in cc
  | inr skip ↦
      let rest = sym (first_that-skip test p ps skip) ∙ e in
      elim (Bool-cases (p.ptr == q.ptr)) [
        | inl here ↦ rw (here, write_proc) (first_that-skip test q ps t ∙ rest)
        | inr later ↦
            rw (later, write_proc)
              (first_that-skip test p (write_proc q ps) skip ∙ write-none test q ps rest t)
      ]
]

Below-found :
    (n bound : ℕ) (ps : List Pcb) (p : Pcb)
    → Below bound ps
    → find_proc_by_pid n ps ≡ some p
    → n < bound
Below-found n bound ps p b e = elim (dec_lt n bound) [
  | yes lt ↦ lt
  | no ge ↦ let gone = Below-find n bound ps b (omega arith) in absurd (none_some (sym gone ∙ e))
]
  where
    none_some : ◌≡◌ {A = Option Pcb} none (some p) → ⊥
    none_some x = cc

-- What waitpid leaves of a process without children.
Reaped-removed :
    {n : ℕ} {stored flags : Bool} {c : Pcb} {k : Kernel} {w : Waited}
    → Reaped n stored flags c k w
    → find_proc_by_parent c.ptr k.proc_list ≡ none
    → (ps : List Pcb) × (w
        ≡ waited
            (pos n)
            (if stored then some (exit_bits c) else none)
            (record k { proc_list = ps; irq_off = flags }))
      × Becomes n none k.proc_list ps
      × Distinct ps
Reaped-removed (removed ps none_left b d) e = (ps, refl, b, d)
Reaped-removed (kept q left) e = absurd (cc)

abbrev proc_list_of : Forked → List Pcb
proc_list_of (forked r k) = k.proc_list
proc_list_of panic = []

module _ (clone_fd : List ℤ → Option (List ℤ)) (user_thread : Pcb → Thread × List Bool)
    (child_name : List ℕ → ℕ → List ℕ) (user_pages : Pcb → List ℕ) where
  -- The only process that a fork adds is a child of the running one.
  do_fork-no_child :
      (fd_max address a : ℕ) (r : ℤ) (parent : Pcb) (fds : List ℤ) (k k' : Kernel)
      → clone_fd parent.fd_array ≡ some fds
      → do_fork clone_fd user_thread child_name user_pages fd_max address true parent k
        ≡ forked r k'
      → parent.ptr ≢ a
      → find_proc_by_parent a k.proc_list ≡ none
      → find_proc_by_parent a k'.proc_list ≡ none
  unfolding do_fork duplicate_process new_process find_proc_by_parent inherit start_child
  do_fork-no_child fd_max address a r parent fds k k' cloned run apart none_now =
      let k0 = record k { irq_off = true } in
      let p1 = (new_process fd_max address k0).0 in
      let q2 = inherit clone_fd user_thread child_name user_pages parent fds p1 in
      let q3 = start_child clone_fd user_thread child_name user_pages parent q2 in
      let l1 = (new_process fd_max address k0).1.proc_list in
      let copied =
        duplicated clone_fd user_thread child_name user_pages fd_max address parent fds k0 cloned in
      let other : (parent.ptr == a) ≡ false = ground arith in
      let added = append-none (is_child_of a) k.proc_list p1 none_now refl in
      let handed = write-none (is_child_of a) q2 l1 added other in
      let computed : do_fork clone_fd user_thread child_name user_pages fd_max address true parent k
          ≡ forked (as_int p1.pid) (record ((new_process fd_max address k0).1) {
            proc_list = write_proc q3 (write_proc q2 l1);
            schedule_softirq = true;
            irq_off = k.irq_off;
          }) =
        rw (copied, do_fork) refl in
      let same : k'.proc_list ≡ write_proc q3 (write_proc q2 l1) =
        ap proc_list_of (sym run ∙ computed) in
      rw same (write-none (is_child_of a) q3 (write_proc q2 l1) handed other)

  module _ (do_close : ℕ → List ℤ → List ℤ) (do_kill : ℕ → Kernel → Kernel)
      (thread_exit : Kernel → Kernel) (thread_join make_ready : ℕ → Kernel → Kernel) where
    -- A kernel with distinct addresses and pids below the next one, which is below 2^31, forks from
    -- the main thread at an address that no process has, as itself or as its parent. do_kill and
    -- thread_exit keep the table, thread_join lets the child run until it has called `do_exit`,
    -- and each frame count is at least the uses of the child. Then `do_waitpid` of the pid that
    -- `do_fork` returned, without WNOHANG, returns that pid, stores the low byte of the exit status
    -- shifted by 8, and restores the interrupt flag; every search by pid gives what it gave before
    -- the fork.
    pub fork-exit-waitpid :
        (fd_max address exit_status : ℕ) (signal : Bool) (parent : Pcb) (fds : List ℤ) (k : Kernel)
        (f : Frames)
        → clone_fd parent.fd_array ≡ some fds
        → IsTable k
        → k.pid_current < 2 ^ 31
        → first_that (λ q. q.ptr == address) k.proc_list ≡ none
        → find_proc_by_parent address k.proc_list ≡ none
        → parent.ptr ≢ address
        → ((p : ℕ) → KeepsTable (do_kill p))
        → KeepsTable thread_exit
        → ((m m' : Kernel) (f' : Frames)
            → do_exit do_close do_kill thread_exit fd_max signal address exit_status m f
              ≡ exited m' f'
            → (thread_join address m).proc_list ≡ m'.proc_list)
        → ((q : ℕ) → uses q (user_pages parent) ≤ f.refcount q)
        → (k1 : Kernel) × (k2 : Kernel) × (do_fork clone_fd user_thread child_name user_pages fd_max
              address true parent k
            ≡ forked (pos k.pid_current) k1)
          × (do_waitpid thread_join make_ready (pos k.pid_current) true false k1
              ≡ waited (pos k.pid_current) (some (u8 exit_status <<< 8)) k2)
          × ((n : ℕ) → find_proc_by_pid n k2.proc_list ≡ find_proc_by_pid n k.proc_list)
          × Distinct k2.proc_list
          × (k2.irq_off ≡ k.irq_off)
    unfolding inherit start_child new_process find_proc_by_parent dead_of
    fork-exit-waitpid fd_max address exit_status signal parent fds k f cloned ok small fresh orphan
          apart kills ends joins enough =
        let n = k.pid_current in
        let (k1, run, _, ok1, b1, irq, _) =
          do_fork-Becomes clone_fd user_thread child_name user_pages fd_max address parent fds k
            cloned ok (omega arith) fresh in
        let c = child_of clone_fd user_thread child_name user_pages fd_max address parent fds k in
        let m = record k1 { irq_off = true } in
        let lt = Below-found n k1.pid_current k1.proc_list c ok1.below b1.now in
        let (k', f', exit, ok', b', procs, _) =
          do_exit-Becomes do_close do_kill thread_exit fd_max signal n exit_status parent.ptr c m f
            kills ends (record { distinct = ok1.distinct; below = ok1.below }) lt b1.now refl refl
            enough in
        let joined = joins m k' f' exit in
        let dead = remains do_close do_kill thread_exit fd_max exit_status c in
        let after = thread_join address m in
        let childless =
          do_fork-no_child fd_max address address (as_int n) parent fds k k1 cloned run apart
            orphan in
        let other : (parent.ptr == address) ≡ false = ground arith in
        let no_heir : find_proc_by_parent address after.proc_list ≡ none =
          ap (find_proc_by_parent address) (joined ∙ procs)
          ∙ write-none (is_child_of address) dead k1.proc_list childless other in
        let found : find_proc_by_pid n after.proc_list ≡ some dead =
          ap (find_proc_by_pid n) joined ∙ b'.now in
        let reaped =
          do_waitpid-Reaped thread_join make_ready n true false k1 c dead small ok1.distinct b1.now
            refl refl refl (rw joined ok'.distinct) found refl refl refl in
        let (ps, w, b2, d) = Reaped-removed reaped no_heir in
        (
          k1,
          record after { proc_list = ps; irq_off = k1.irq_off },
          run ∙ ap (λ r. forked r k1) (as_int-below n small),
          w,
          λ i. elim (ℕ_discrete i n) [
            | yes here ↦ rw here (b2.now ∙ sym (Below-find n n k.proc_list ok.below (omega arith)))
            | no other ↦
                b2.others i other
                ∙ ap (find_proc_by_pid i) joined
                ∙ b'.others i other
                ∙ b1.others i other
          ],
          d,
          irq,
        )
