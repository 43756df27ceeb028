-- ===== src/Process/Create.antt =====
-- new_process of process.c, and the invariant of the process table that it keeps.
use sye.Base.{
  ℕ, ◌+◌, ◌-◌, ◌^◌, ◌≤◌, ◌<◌, ◌≡◌, refl, sym, ◌∙◌, inl, inr, Bool, false, none, some, List, [], ◌∷◌,
  ◌++◌, arith, ◌==◌, Bool-cases, u32,
}
use sye.Process.{Pcb, Kernel, first_that, find_proc_by_pid, new_process}
use sye.Process.Table.{
  Distinct, nobody, one_more, Becomes, Becomes-cons, first_that-hit, first_that-skip, find-here,
  find-later,
}

-- Every pid of the list is below the next one.
pub data Below (bound : ℕ) : List Pcb → Type 0 where
  below_none : Below bound []
  below_more : {p : Pcb} {ps : List Pcb} → p.pid < bound → Below bound ps → Below bound (p ∷ ps)

pub Below-find :
    (pid bound : ℕ) (ps : List Pcb) → Below bound ps → bound ≤ pid → find_proc_by_pid pid ps ≡ none
unfolding find_proc_by_pid first_that
Below-find pid bound [] b le = refl
Below-find pid bound (p ∷ ps) (below_more lt b) le =
    find-later pid p ps (λ e. absurd (omega arith)) ∙ Below-find pid bound ps b le

Below-append :
    (bound : ℕ) (q : Pcb) (ps : List Pcb)
    → Below bound ps
    → q.pid < bound + 1
    → Below (bound + 1) (ps ++ q ∷ [])
Below-append bound q [] b lt = below_more lt below_none
Below-append bound q (p ∷ ps) (below_more lt' b) lt =
    below_more (omega arith) (Below-append bound q ps b lt)

pub append-none :
    (test : Pcb → Bool) (ps : List Pcb) (q : Pcb)
    → first_that test ps ≡ none
    → test q ≡ false
    → first_that test (ps ++ q ∷ []) ≡ none
unfolding first_that
append-none test [] q e t = first_that-skip test q [] t
append-none test (p ∷ ps) q e t = elim (Bool-cases (test p)) [
  | inl o ↦ let e' = sym (first_that-hit test p ps o) ∙ e in cc
  | inr o ↦
      first_that-skip test p (ps ++ q ∷ []) o
      ∙ append-none test ps q (sym (first_that-skip test p ps o) ∙ e) t
]

append-Becomes :
    (bound : ℕ) (ps : List Pcb) (q : Pcb)
    → Below bound ps
    → q.pid ≡ bound
    → Becomes bound (some q) ps (ps ++ q ∷ [])
append-Becomes bound [] q b e = record {
  now = find-here bound q [] e;
  others = λ n ne. find-later n q [] (λ x. ne (sym x ∙ e));
}
append-Becomes bound (p ∷ ps) q (below_more lt b) e =
    Becomes-cons bound (some q) p ps (ps ++ q ∷ []) (λ x. absurd (omega arith))
      (append-Becomes bound ps q b e)

append-Distinct :
    (bound : ℕ) (ps : List Pcb) (q : Pcb)
    → Below bound ps
    → q.pid ≡ bound
    → first_that (λ x. x.ptr == q.ptr) ps ≡ none
    → Distinct ps
    → Distinct (ps ++ q ∷ [])
unfolding first_that find_proc_by_pid
append-Distinct bound [] q b e fresh nobody = one_more refl refl nobody
append-Distinct bound (p ∷ ps) q (below_more lt b) e fresh (one_more no_ptr no_pid d) =
    elim (Bool-cases (p.ptr == q.ptr)) [
      | inl same ↦ let n = sym (first_that-hit (λ x. x.ptr == q.ptr) p ps same) ∙ fresh in cc
      | inr other ↦
          one_more (append-none (λ x. x.ptr == p.ptr) ps q no_ptr (ground arith))
            (append-none (λ x. x.pid == p.pid) ps q no_pid (ground arith))
            (append-Distinct bound ps q b e
              (sym (first_that-skip (λ x. x.ptr == q.ptr) p ps other) ∙ fresh) d)
    ]

-- What holds of the list and of the next pid between two calls.
pub record IsTable (k : Kernel) : Type 0 where
  pub distinct : Distinct k.proc_list
  pub below : Below k.pid_current k.proc_list

-- In a table where addresses and pids are distinct and below the next pid, which is below
-- 2^32 - 1, `new_process` at an address that no process has adds a process that is found by its
-- pid, leaves the searches for every other pid, and keeps the table so.
pub new_process-IsTable :
    (fd_max address : ℕ) (k : Kernel)
    → IsTable k
    → k.pid_current < 2 ^ 32 - 1
    → first_that (λ q. q.ptr == address) k.proc_list ≡ none
    → IsTable (new_process fd_max address k).1
      × Becomes k.pid_current
          (some (new_process fd_max address k).0)
          k.proc_list
          (new_process fd_max address k).1.proc_list
unfolding new_process
new_process-IsTable fd_max address k ok room fresh =
    let next : u32 (k.pid_current + 1) ≡ k.pid_current + 1 = omega arith in
    let q = (new_process fd_max address k).0 in
    (
      record {
        distinct = append-Distinct k.pid_current k.proc_list q ok.below refl fresh ok.distinct;
        below = rw next (Below-append k.pid_current q k.proc_list ok.below (omega arith));
      },
      append-Becomes k.pid_current k.proc_list q ok.below refl,
    )
