-- ===== src/Process/Table.antt =====
-- The process list of process.c: find_proc_by_pid, do_renice, and remove_proc.
use sye.Base.{
  ℕ, ◌<◌, ◌≡◌, refl, sym, ◌∙◌, ◌≢◌, inl, inr, Bool, true, false, Option, none, some, List, [], ◌∷◌,
  arith, ◌==◌, Bool-cases, Option-cases, ℕ_discrete, pos,
}
use sye.Process.{
  Pcb, Thread, Kernel, Result, returns, fault, first_that, find_proc_by_pid, write_proc, do_renice,
  remove_proc,
}

-- No two processes of the list have the same address or the same pid.
pub data Distinct : List Pcb → Type 0 where
  nobody : Distinct []
  one_more :
      {p : Pcb} {ps : List Pcb}
      → first_that (λ q. q.ptr == p.ptr) ps ≡ none
      → find_proc_by_pid p.pid ps ≡ none
      → Distinct ps
      → Distinct (p ∷ ps)

pub first_that-hit :
    (test : Pcb → Bool) (p : Pcb) (ps : List Pcb)
    → test p ≡ true
    → first_that test (p ∷ ps) ≡ some p
unfolding first_that
first_that-hit test p ps t = rw t refl

pub first_that-skip :
    (test : Pcb → Bool) (p : Pcb) (ps : List Pcb)
    → test p ≡ false
    → first_that test (p ∷ ps) ≡ first_that test ps
unfolding first_that
first_that-skip test p ps t = rw t refl

first_that-passes :
    (test : Pcb → Bool) (ps : List Pcb) (p : Pcb) → first_that test ps ≡ some p → test p ≡ true
unfolding first_that
first_that-passes test [] p e = cc
first_that-passes test (q ∷ ps) p e = elim (Bool-cases (test q)) [
  | inl t ↦ let e' = sym (first_that-hit test q ps t) ∙ e in let same : q ≡ p = cc in rw (← same) t
  | inr t ↦ first_that-passes test ps p (sym (first_that-skip test q ps t) ∙ e)
]

-- A test that no process passes fails on the process found by another.
first_that-fails :
    (test other : Pcb → Bool) (ps : List Pcb) (p : Pcb)
    → first_that test ps ≡ some p
    → first_that other ps ≡ none
    → other p ≡ false
unfolding first_that
first_that-fails test other [] p e n = cc
first_that-fails test other (q ∷ ps) p e n = elim (Bool-cases (other q)) [
  | inl o ↦ let n' = sym (first_that-hit other q ps o) ∙ n in cc
  | inr o ↦ elim (Bool-cases (test q)) [
    | inl t ↦
        let e' = sym (first_that-hit test q ps t) ∙ e in let same : q ≡ p = cc in rw (← same) o
    | inr t ↦
        first_that-fails test other ps p (sym (first_that-skip test q ps t) ∙ e)
          (sym (first_that-skip other q ps o) ∙ n)
  ]
]

pub find-pid : (pid : ℕ) (ps : List Pcb) (p : Pcb) → find_proc_by_pid pid ps ≡ some p → p.pid ≡ pid
unfolding find_proc_by_pid
find-pid pid ps p e = let t = first_that-passes (λ q. q.pid == pid) ps p e in ground arith

pub find-here :
    (pid : ℕ) (p : Pcb) (ps : List Pcb) → p.pid ≡ pid → find_proc_by_pid pid (p ∷ ps) ≡ some p
unfolding find_proc_by_pid
find-here pid p ps e = first_that-hit (λ q. q.pid == pid) p ps (ground arith)

pub find-later :
    (pid : ℕ) (p : Pcb) (ps : List Pcb)
    → p.pid ≢ pid
    → find_proc_by_pid pid (p ∷ ps) ≡ find_proc_by_pid pid ps
unfolding find_proc_by_pid
find-later pid p ps e = first_that-skip (λ q. q.pid == pid) p ps (ground arith)

-- A process found in the tail is not at the address of the head.
other_address :
    (pid : ℕ) (ps : List Pcb) (p r : Pcb)
    → find_proc_by_pid pid ps ≡ some p
    → first_that (λ q. q.ptr == r.ptr) ps ≡ none
    → p.ptr ≢ r.ptr
unfolding find_proc_by_pid
other_address pid ps p r e n =
    let t = first_that-fails (λ q. q.pid == pid) (λ q. q.ptr == r.ptr) ps p e n in
    λ same. absurd (ground arith)

-- A process found by its pid is the one found by its address.
pub find-address :
    (pid : ℕ) (ps : List Pcb) (p : Pcb)
    → Distinct ps
    → find_proc_by_pid pid ps ≡ some p
    → first_that (λ q. q.ptr == p.ptr) ps ≡ some p
unfolding find_proc_by_pid first_that
find-address pid [] p d e = cc
find-address pid (r ∷ ps) p (one_more no_ptr no_pid d) e = elim (ℕ_discrete r.pid pid) [
  | yes here ↦
      let e' = sym (find-here pid r ps here) ∙ e in
      let same : r ≡ p = cc in
      let at_r : r.ptr ≡ p.ptr = rw same refl in
      first_that-hit (λ q. q.ptr == p.ptr) r ps (ground arith) ∙ e'
  | no later ↦
      let e' = sym (find-later pid r ps later) ∙ e in
      let apart = other_address pid ps p r e' no_ptr in
      first_that-skip (λ q. q.ptr == p.ptr) r ps (ground arith) ∙ find-address pid ps p d e'
]

-- What the list is after a change of the process with the pid.
pub record Becomes (pid : ℕ) (found : Option Pcb) (ps rest : List Pcb) : Type 0 where
  pub now : find_proc_by_pid pid rest ≡ found
  pub others : (n : ℕ) → n ≢ pid → find_proc_by_pid n rest ≡ find_proc_by_pid n ps

-- The same head before two lists.
pub Becomes-cons :
    (pid : ℕ) (found : Option Pcb) (r : Pcb) (ps rest : List Pcb)
    → r.pid ≢ pid
    → Becomes pid found ps rest
    → Becomes pid found (r ∷ ps) (r ∷ rest)
Becomes-cons pid found r ps rest ne b = record {
  now = find-later pid r rest ne ∙ b.now;
  others = λ n ne'. elim (ℕ_discrete r.pid n) [
    | yes e ↦ find-here n r rest e ∙ sym (find-here n r ps e)
    | no e ↦ find-later n r rest e ∙ b.others n ne' ∙ sym (find-later n r ps e)
  ];
}

pub write-Becomes :
    (pid : ℕ) (ps : List Pcb) (p q : Pcb)
    → Distinct ps
    → find_proc_by_pid pid ps ≡ some p
    → q.ptr ≡ p.ptr
    → q.pid ≡ pid
    → Becomes pid (some q) ps (write_proc q ps)
unfolding write_proc find_proc_by_pid first_that
write-Becomes pid [] p q d e a b = cc
write-Becomes pid (r ∷ ps) p q (one_more no_ptr no_pid d) e a b = elim (ℕ_discrete r.pid pid) [
  | yes here ↦
      let e' = sym (find-here pid r ps here) ∙ e in
      let same : r ≡ p = cc in
      let t : (r.ptr == q.ptr) ≡ true = rw same (ground arith) in
      rw (t, write_proc)
        (record {
          now = find-here pid q ps b;
          others = λ n ne.
              find-later n q ps (λ x. ne (sym x ∙ b))
              ∙ sym (find-later n r ps λ x. ne (sym x ∙ here));
        })
  | no later ↦
      let e' = sym (find-later pid r ps later) ∙ e in
      let apart = other_address pid ps p r e' no_ptr in
      let t : (r.ptr == q.ptr) ≡ false = ground arith in
      rw (t, write_proc)
        (Becomes-cons pid (some q) r ps (write_proc q ps) later (write-Becomes pid ps p q d e' a b))
]

write-none :
    (test : Pcb → Bool) (ps : List Pcb) (q : Pcb)
    → first_that test ps ≡ none
    → test q ≡ false
    → first_that test (write_proc q ps) ≡ none
unfolding write_proc first_that
write-none test [] q e t = refl
write-none test (r ∷ ps) q e t = elim (Bool-cases (test r)) [
  | inl o ↦ let e' = sym (first_that-hit test r ps o) ∙ e in cc
  | inr o ↦ elim (Bool-cases (r.ptr == q.ptr)) [
    | inl w ↦
        rw (w, write_proc) (first_that-skip test q ps t ∙ sym (first_that-skip test r ps o) ∙ e)
    | inr w ↦
        rw (w, write_proc)
          (first_that-skip test r (write_proc q ps) o
            ∙ write-none test ps q (sym (first_that-skip test r ps o) ∙ e) t)
  ]
]

remove-none :
    (test : Pcb → Bool) (ps : List Pcb) (ptr : ℕ)
    → first_that test ps ≡ none
    → first_that test (remove_proc ptr ps) ≡ none
unfolding remove_proc first_that
remove-none test [] ptr e = refl
remove-none test (r ∷ ps) ptr e = elim (Bool-cases (test r)) [
  | inl o ↦ let e' = sym (first_that-hit test r ps o) ∙ e in cc
  | inr o ↦
      let e' = sym (first_that-skip test r ps o) ∙ e in
      elim (Bool-cases (r.ptr == ptr)) [
        | inl w ↦ rw (w, remove_proc) e'
        | inr w ↦
            rw (w, remove_proc)
              (first_that-skip test r (remove_proc ptr ps) o ∙ remove-none test ps ptr e')
      ]
]

remove-Becomes :
    (pid : ℕ) (ps : List Pcb) (p : Pcb)
    → Distinct ps
    → find_proc_by_pid pid ps ≡ some p
    → Becomes pid none ps (remove_proc p.ptr ps)
unfolding remove_proc find_proc_by_pid first_that
remove-Becomes pid [] p d e = cc
remove-Becomes pid (r ∷ ps) p (one_more no_ptr no_pid d) e = elim (ℕ_discrete r.pid pid) [
  | yes here ↦
      let e' = sym (find-here pid r ps here) ∙ e in
      let same : r ≡ p = cc in
      let t : (r.ptr == p.ptr) ≡ true = rw same (ground arith) in
      rw (t, remove_proc)
        (record {
          now = rw (← here) no_pid;
          others = λ n ne. sym (find-later n r ps λ x. ne (sym x ∙ here));
        })
  | no later ↦
      let e' = sym (find-later pid r ps later) ∙ e in
      let apart = other_address pid ps p r e' no_ptr in
      let t : (r.ptr == p.ptr) ≡ false = ground arith in
      rw (t, remove_proc)
        (Becomes-cons pid none r ps (remove_proc p.ptr ps) later (remove-Becomes pid ps p d e'))
]

remove-Distinct : (ps : List Pcb) (ptr : ℕ) → Distinct ps → Distinct (remove_proc ptr ps)
unfolding remove_proc find_proc_by_pid
remove-Distinct [] ptr d = nobody
remove-Distinct (r ∷ ps) ptr (one_more no_ptr no_pid d) = elim (Bool-cases (r.ptr == ptr)) [
  | inl w ↦ rw (w, remove_proc) d
  | inr w ↦
      rw (w, remove_proc)
        (one_more (remove-none _ ps ptr no_ptr) (remove-none _ ps ptr no_pid)
          (remove-Distinct ps ptr d))
]

-- In a table where addresses and pids are distinct, `remove_proc` of the process found for a pid
-- removes it from the searches by pid, leaves those for every other pid, and keeps addresses and
-- pids distinct.
pub remove_proc_lem :
    (pid : ℕ) (ps : List Pcb) (p : Pcb)
    → Distinct ps
    → find_proc_by_pid pid ps ≡ some p
    → Becomes pid none ps (remove_proc p.ptr ps) × Distinct (remove_proc p.ptr ps)
remove_proc_lem pid ps p d e = (remove-Becomes pid ps p d e, remove-Distinct ps p.ptr d)

pub write-Distinct :
    (pid : ℕ) (ps : List Pcb) (p q : Pcb)
    → Distinct ps
    → find_proc_by_pid pid ps ≡ some p
    → q.ptr ≡ p.ptr
    → q.pid ≡ pid
    → Distinct (write_proc q ps)
unfolding write_proc find_proc_by_pid first_that
write-Distinct pid [] p q d e a b = cc
write-Distinct pid (r ∷ ps) p q (one_more no_ptr no_pid d) e a b = elim (ℕ_discrete r.pid pid) [
  | yes here ↦
      let e' = sym (find-here pid r ps here) ∙ e in
      let same : r ≡ p = cc in
      let t : (r.ptr == q.ptr) ≡ true = rw same (ground arith) in
      let ptrs : q.ptr ≡ r.ptr = rw same a in
      let pids : q.pid ≡ r.pid = rw here b in
      rw (t, write_proc) (one_more (rw ptrs no_ptr) (rw pids no_pid) d)
  | no later ↦
      let e' = sym (find-later pid r ps later) ∙ e in
      let apart = other_address pid ps p r e' no_ptr in
      let t : (r.ptr == q.ptr) ≡ false = ground arith in
      rw (t, write_proc)
        (one_more (write-none (λ x. x.ptr == r.ptr) ps q no_ptr (ground arith))
          (write-none (λ x. x.pid == r.pid) ps q no_pid (ground arith))
          (write-Distinct pid ps p q d e' a b))
]

-- What `do_renice` makes of the table, for a priority above 0.
pub data Reniced (pid new_prio : ℕ) (k : Kernel) : Result → Type 0 where
  not_found : find_proc_by_pid pid k.proc_list ≡ none → Reniced pid new_prio k (returns (pos 0) k)
  no_thread :
      (p : Pcb)
      → find_proc_by_pid pid k.proc_list ≡ some p
      → p.main_thread ≡ none
      → Reniced pid new_prio k fault
  reniced :
      (p : Pcb) (t : Thread) (rest : List Pcb)
      → find_proc_by_pid pid k.proc_list ≡ some p
      → p.main_thread ≡ some t
      → Becomes pid
          (some (record p { main_thread = some (record t { prio = new_prio }) }))
          k.proc_list
          rest
      → Distinct rest
      → Reniced pid new_prio k (returns (pos 0) (record k { proc_list = rest }))

-- In a table where addresses and pids are distinct, `do_renice` with a priority above 0 changes
-- the priority of the main thread of the process with the pid and no other process, and returns
-- 0. It returns 0 and changes nothing if no process has the pid, and dereferences NULL if the
-- process has no main thread left.
pub do_renice-Reniced :
    (k : Kernel) (pid new_prio : ℕ)
    → Distinct k.proc_list
    → 0 < new_prio
    → Reniced pid new_prio k (do_renice pid new_prio k)
unfolding do_renice
do_renice-Reniced k pid new_prio d room =
    let not_zero : (new_prio == 0) ≡ false = ground arith in
    elim (Option-cases (find_proc_by_pid pid k.proc_list)) [
      | inl e ↦ rw (not_zero, e) (not_found e)
      | inr (p, e) ↦ elim (Option-cases p.main_thread) [
        | inl n ↦ rw (not_zero, e, n) (no_thread p e n)
        | inr (t, n) ↦
            let q : Pcb = record p { main_thread = some (record t { prio = new_prio }) } in
            let pids = find-pid pid k.proc_list p e in
            rw (not_zero, e, n)
              (reniced p t (write_proc q k.proc_list) e n
                (write-Becomes pid k.proc_list p q d e refl pids)
                (write-Distinct pid k.proc_list p q d e refl pids))
      ]
    ]
