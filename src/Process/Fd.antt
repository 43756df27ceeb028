-- ===== src/Process/Fd.antt =====
-- proc_new_fd and proc_register_fd of process.c.
use sye.Base.{
  ℕ, zero, suc, ◌+◌, ◌<◌, ◌≡◌, refl, sym, ◌∙◌, ◌≢◌, inl, inr, Bool, true, false, Option, none, some,
  List, arith, ◌==◌, Bool-cases, length, get_or, set, length-set, ℤ, pos, negsuc, ◌==ℤ◌,
  get_or-set_self, get_or-set_ne,
}
use sye.Process.{Pcb, Errno, enfile, new_fd_loop, proc_new_fd, proc_register_fd}

-- Slot `i` of the table is free, that is -1.
abbrev pub is_free : Pcb → ℕ → Bool
is_free p i = get_or p.fd_array i (pos 0) ==ℤ negsuc 0

-- The result of a registration: the lowest free slot now holds `gfd`, or the table is full.
pub data Registered (fd_max : ℕ) (gfd : ℤ) (p : Pcb) : ℤ × Option Errno × Option Pcb → Type 0 where
  no_slot :
      ((j : ℕ) → j < fd_max → is_free p j ≡ false)
      → Registered fd_max gfd p (negsuc 0, some enfile, some p)
  lowest :
      (fd : ℕ) (fds : List ℤ)
      → fd < fd_max
      → is_free p fd ≡ true
      → ((j : ℕ) → j < fd → is_free p j ≡ false)
      → get_or fds fd (pos 0) ≡ gfd
      → ((j : ℕ) → j ≢ fd → get_or fds j (pos 0) ≡ get_or p.fd_array j (pos 0))
      → length fds ≡ fd_max
      → Registered fd_max gfd p (pos fd, none, some (record p { fd_array = fds }))

data Slot (p : Pcb) (fd_max : ℕ) : Option ℕ → Type 0 where
  none_free : ((j : ℕ) → j < fd_max → is_free p j ≡ false) → Slot p fd_max none
  first_free :
      (fd : ℕ)
      → fd < fd_max
      → is_free p fd ≡ true
      → ((j : ℕ) → j < fd → is_free p j ≡ false)
      → Slot p fd_max (some fd)

new_fd_loop-Slot :
    (p : Pcb) (fd_max left i : ℕ)
    → i + left ≡ fd_max
    → ((j : ℕ) → j < i → is_free p j ≡ false)
    → Slot p fd_max (new_fd_loop left i p.fd_array)
unfolding new_fd_loop
new_fd_loop-Slot p fd_max zero i e before = none_free (λ j below. before j (omega arith))
new_fd_loop-Slot p fd_max (suc left) i e before = elim (Bool-cases (is_free p i)) [
  | inl here ↦ rw here (first_free i (omega arith) here before)
  | inr taken ↦ rw taken (
      new_fd_loop-Slot p fd_max left (i + 1) (omega arith) λ j below. elim (Bool-cases (j == i)) [
        | inl q ↦ let q' : j ≡ i = ground arith in rw q' taken
        | inr q ↦ before j (ground arith)
      ])
]

-- On a table of FD_MAX slots, `proc_register_fd` stores the descriptor in the lowest free slot,
-- changes no other and returns its index; if no slot is free, it changes nothing, sets ENFILE and
-- returns -1.
pub proc_register_fd-Registered :
    (fd_max : ℕ) (gfd : ℤ) (p : Pcb)
    → length p.fd_array ≡ fd_max
    → Registered fd_max gfd p (proc_register_fd fd_max gfd (some p))
unfolding proc_register_fd proc_new_fd
proc_register_fd-Registered fd_max gfd p size =
    by_slot (proc_new_fd fd_max p) refl
      (new_fd_loop-Slot p fd_max fd_max 0 (omega arith) λ j below. absurd (omega arith))
  where
    by_slot :
        (o : Option ℕ)
        → proc_new_fd fd_max p ≡ o
        → Slot p fd_max o
        → Registered fd_max gfd p (proc_register_fd fd_max gfd (some p))
    by_slot none e (none_free all) = rw (e, proc_register_fd) (no_slot all)
    by_slot (some _) e (first_free fd below here before) =
        rw (e, proc_register_fd)
          (lowest fd (set p.fd_array fd gfd) below here before
            (get_or-set_self p.fd_array fd gfd (pos 0) (rw size below))
            (λ j ne. get_or-set_ne p.fd_array fd j gfd (pos 0) (λ q. ne (sym q)))
            (length-set p.fd_array fd gfd ∙ size))
