-- ===== src/Process/Wait.antt =====
-- do_waitpid of process.c. The scheduler is a parameter: `thread_join` is the kernel after the
-- calling thread has waited for the main thread of the process at an address, `ready` makes a
-- thread runnable. reset_root_pgtable frees page tables and changes nothing that is modelled.
use sye.Base.{
  ℕ, ◌-◌, ◌^◌, ◌<◌, ◌≡◌, refl, sym, ap, ◌∙◌, inl, inr, Bool, true, false, not, ◌&&◌, Option, none,
  some, List, arith, ◌==◌, if◌then◌else◌, Option-cases, bit_or, u8, u32, ◌<<<◌, ℤ, pos, negsuc,
  ◌==ℤ◌,
}
use sye.Process.Table.{Distinct, Becomes, find-address, remove_proc_lem}
use sye.Process.{
  Pcb, Kernel, echild, ready, waiting, Ptrace, no_request, trace_me, other_request, is_zombie,
  first_that, find_proc_by_pid, find_proc_zombie_to_clean, find_proc_by_parent, write_proc,
  remove_proc,
}

-- What a call leaves: the result, the word stored through `wstatus`, if one is, and the kernel.
-- `lost` follows the pointer to a process that is no longer in the list.
pub data Waited : Type 0 where
  waited : ℤ → Option ℕ → Kernel → Waited
  lost : Waited

-- The process at an address.
abbrev pub at : ℕ → Kernel → Option Pcb
at ptr k = first_that (λ p. p.ptr == ptr) k.proc_list

-- A pid of type `int` as the `uint32_t` that find_proc_by_pid takes.
abbrev pub pid_word : ℤ → ℕ
pid_word (pos n) = u32 n
pid_word (negsuc n) = u32 (2 ^ 32 - 1 - n)

-- `((char) exit_status) << 8`, where `char` is unsigned, as on ARM.
abbrev pub exit_bits : Pcb → ℕ
exit_bits p = u8 p.exit_status <<< 8

abbrev pub not_traced : Pcb → Bool
not_traced p = elim p.ptrace_pending_req [ no_request ↦ true | _ ↦ false ]

abbrev pub is_stopped : Pcb → Bool
is_stopped p = elim p.ptrace_pending_req [ other_request ↦ true | _ ↦ false ]

abbrev pub is_waiting : Pcb → Bool
is_waiting p = elim p.state [ waiting ↦ true | _ ↦ false ]

-- The process is removed unless another one has it for parent.
pub reap : Pcb → Kernel → Kernel
reap child k = elim (find_proc_by_parent child.ptr k.proc_list) [
  | none ↦ record k { proc_list = remove_proc child.ptr k.proc_list }
  | some p ↦ k
]

-- The end of `do_waitpid`, from the test of the state after the join. `stored` says that
-- `wstatus` is not NULL; the flags are those before the call.
pub collect : (stored flags : Bool) (pid : ℤ) → Pcb → Kernel → Waited
collect stored flags pid child k =
    let restored = record (reap child k) { irq_off = flags } in
    let cleared = record k {
      proc_list = write_proc (record child { ptrace_pending_req = no_request }) k.proc_list;
      irq_off = flags;
    } in
    if is_zombie child.state && not_traced child
    then waited pid (if stored then some (exit_bits child) else none) restored
    else if not_traced child
    then waited pid (if stored then some (bit_or (2 ^ 32 - 1 - 0x7f) (exit_bits child)) else none)
        restored
    else waited pid (if stored then some (bit_or 0x17f (exit_bits child)) else none) cleared

module _ (thread_join make_ready : ℕ → Kernel → Kernel) where
  -- A stopped child is made ready.
  pub resume : Pcb → Kernel → Kernel
  resume child k =
      let run = record k { proc_list = write_proc (record child { state = ready }) k.proc_list } in
      if is_stopped child then make_ready child.ptr run else k

  pub join : ℕ → Kernel → Kernel
  join ptr k = elim (at ptr k) [
    | none ↦ k
    | some child ↦ if is_waiting child then k else thread_join ptr k
  ]

  -- The middle part, from the test of WNOHANG on.
  pub wait_child : (stored nohang flags : Bool) (pid : ℤ) → Pcb → Kernel → Waited
  wait_child stored nohang flags pid child k =
      let k' = join child.ptr (resume child k) in
      if nohang && not (is_zombie child.state)
      then waited (pos 0) none k
      else elim (at child.ptr k') [ none ↦ lost | some c ↦ collect stored flags pid c k' ]

  pub do_waitpid : (pid : ℤ) (stored nohang : Bool) → Kernel → Waited
  do_waitpid pid stored nohang k =
      let masked = record k { irq_off = true } in
      if pid ==ℤ negsuc 0
      then elim (find_proc_zombie_to_clean k.proc_list) [
        | none ↦ waited (negsuc 0) none (record k { errno = some echild })
        | some child ↦ wait_child stored nohang k.irq_off (pos child.pid) child masked
      ]
      else elim (find_proc_by_pid (pid_word pid) k.proc_list) [
        | none ↦
            waited (negsuc 0) (if stored then some (2 ^ 32 - 1 - 0x7f) else none)
              (record masked { errno = some echild })
        | some child ↦ wait_child stored nohang k.irq_off pid child masked
      ]

not_traced-runs : (p : Pcb) → not_traced p ≡ true → is_stopped p ≡ false
not_traced-runs p t = by_request p.ptrace_pending_req t
  where
    by_request :
        (r : Ptrace)
        → (elim r as (λ _. Bool) [ no_request ↦ true | _ ↦ false ]) ≡ true
        → (elim r as (λ _. Bool) [ other_request ↦ true | _ ↦ false ]) ≡ false
    by_request no_request e = refl
    by_request trace_me e = refl
    by_request other_request e = cc

-- The call returned the pid and stored the exit status; the interrupt flag is the one before; the
-- child is gone, unless a process has it for parent.
pub data Reaped (n : ℕ) (stored flags : Bool) (c : Pcb) (k' : Kernel) : Waited → Type 0 where
  removed :
      (ps : List Pcb)
      → find_proc_by_parent c.ptr k'.proc_list ≡ none
      → Becomes n none k'.proc_list ps
      → Distinct ps
      → Reaped n stored flags c k' (
          waited
            (pos n)
            (if stored then some (exit_bits c) else none)
            (record k' { proc_list = ps; irq_off = flags }))
  kept :
      (q : Pcb)
      → find_proc_by_parent c.ptr k'.proc_list ≡ some q
      → Reaped n stored flags c k' (
          waited
            (pos n)
            (if stored then some (exit_bits c) else none)
            (record k' { irq_off = flags }))

collect-Reaped :
    (n : ℕ) (stored flags : Bool) (c : Pcb) (k' : Kernel)
    → Distinct k'.proc_list
    → find_proc_by_pid n k'.proc_list ≡ some c
    → is_zombie c.state ≡ true
    → not_traced c ≡ true
    → Reaped n stored flags c k' (collect stored flags (pos n) c k')
unfolding collect reap
collect-Reaped n stored flags c k' d' found' dead free' =
    elim (Option-cases (find_proc_by_parent c.ptr k'.proc_list)) [
      | inl none_left ↦
          let (b, d'') = remove_proc_lem n k'.proc_list c d' found' in
          rw (dead, free', none_left, reap)
            (removed (remove_proc c.ptr k'.proc_list) none_left b d'')
      | inr (q, left) ↦ rw (dead, free', left, reap) (kept q left)
    ]

module _ (thread_join make_ready : ℕ → Kernel → Kernel) where
  resume_untraced :
      (p : Pcb) (k : Kernel) → not_traced p ≡ true → resume thread_join make_ready p k ≡ k
  unfolding resume
  resume_untraced p k t = rw (not_traced-runs p t) refl

  join_awake :
      (p : Pcb) (k : Kernel)
      → at p.ptr k ≡ some p
      → is_waiting p ≡ false
      → join thread_join make_ready p.ptr k ≡ thread_join p.ptr k
  unfolding join
  join_awake p k e t = rw (e, t, join) refl

  -- `do_waitpid` of an existing child that is not traced and not waiting, which is a zombie or
  -- without WNOHANG, returns its pid, stores the low byte of its exit status, restores the
  -- interrupt flag, and removes it unless it has children, if thread_join leaves it a zombie at
  -- its address in a table with distinct addresses and pids.
  pub do_waitpid-Reaped :
      (n : ℕ) (stored nohang : Bool) (k : Kernel) (child c : Pcb)
      → n < 2 ^ 31
      → Distinct k.proc_list
      → find_proc_by_pid n k.proc_list ≡ some child
      → not_traced child ≡ true
      → is_waiting child ≡ false
      → (nohang && not (is_zombie child.state)) ≡ false
      → Distinct (thread_join child.ptr (record k { irq_off = true })).proc_list
      → find_proc_by_pid n (thread_join child.ptr (record k { irq_off = true })).proc_list ≡ some c
      → c.ptr ≡ child.ptr
      → is_zombie c.state ≡ true
      → not_traced c ≡ true
      → Reaped n stored k.irq_off c
          (thread_join child.ptr (record k { irq_off = true }))
          (do_waitpid thread_join make_ready (pos n) stored nohang k)
  unfolding do_waitpid wait_child ◌==ℤ◌
  do_waitpid-Reaped n stored nohang k child c small d found free awake waits d' found' same dead
        free' =
      let k' = thread_join child.ptr (record k { irq_off = true }) in
      let word : u32 n ≡ n = omega arith in
      let runs = resume_untraced child (record k { irq_off = true }) free in
      let before = find-address n k.proc_list child d found in
      let joined = join_awake child (record k { irq_off = true }) before awake in
      let after : at child.ptr k' ≡ some c =
        ap (λ a. at a k') (sym same) ∙ find-address n k'.proc_list c d' found' in
      rw (word, found, waits, runs, joined, after, runs, joined)
        (collect-Reaped n stored k.irq_off c k' d' found' dead free')
