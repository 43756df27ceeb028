-- ===== src/Process/Fork/Child.antt =====
-- What do_fork of Process/Fork.antt hands down to the child.
use sye.Base.{ℕ, ◌≡◌, Bool, some, List, ℤ}
use sye.Process.{Pcb, Thread, ready}

-- The child has a new thread, and a stack slot for it, by user_thread on a process with the slots of
-- the parent.
pub record IsChild (user_thread : Pcb → Thread × List Bool) (child_name : List ℕ → ℕ → List ℕ)
    (user_pages : Pcb → List ℕ) (parent : Pcb) (fds : List ℤ) (address n : ℕ) (child : Pcb)
    : Type 0 where
  pub ptr : child.ptr ≡ address
  pub pid : child.pid ≡ n
  pub state : child.state ≡ ready
  pub of : child.parent ≡ some parent.ptr
  pub fd_array : child.fd_array ≡ fds
  pub page_list : child.page_list ≡ user_pages parent
  pub page_count : child.page_count ≡ parent.page_count
  pub stack_top : child.stack_top ≡ parent.stack_top
  pub heap_base : child.heap_base ≡ parent.heap_base
  pub heap_pointer : child.heap_pointer ≡ parent.heap_pointer
  pub name : child.name ≡ child_name parent.name n
  pub thread :
      (q : Pcb) × (q.pid ≡ n)
      × (q.name ≡ child_name parent.name n)
      × (q.stack_slots ≡ parent.stack_slots)
      × (child.main_thread ≡ some (user_thread q).0)
      × (child.stack_slots ≡ (user_thread q).1)
