-- ===== src/Process/Execve/Executed.antt =====
-- The program that do_execve of Process/Execve.antt leaves ready to run.
use sye.Base.{ℕ, ◌+◌, ◌*◌, ◌≤◌, ◌≡◌, Bool, Option, some, List, [], ◌∷◌}
use sye.Mmu.{page_size}
use sye.Process.{Pcb, Thread}
use sye.Process.Args.RoundTrip.{Image}
use sye.Process.Load.{Segment, Section}
use sye.Process.Load.Loads.{Loads}
use sye.Process.Load.Bytes.{Among}
use sye.Process.Execve.{Program}

-- Every section that is loaded lies in the pages of the segments.
abbrev pub InSegments : Program → Type 0
InSegments p =
    (g : Segment) (t : Section)
    → Among g p.elf.segments
    → Among t p.elf.sections
    → Loads g t
    → (p.e_entry ≤ t.sh_addr)
      × (t.sh_addr + t.sh_size ≤ p.e_entry + p.segment_page_count * page_size)

-- Nobody waits for the main thread, or the parent alone.
pub data Waits : (parent : Option ℕ) → List ℕ → Type 0 where
  nobody : {parent : Option ℕ} → Waits parent []
  parent_waits : (p : ℕ) → Waits (some p) (p ∷ [])

-- The process `q` is `p` with the main thread and the slots that user_thread gives for `p`.
pub record IsStarted (user_thread : Pcb → Thread × List Bool) (p q : Pcb) : Type 0 where
  pub thread : q.main_thread ≡ some (user_thread p).0
  pub slots : q.stack_slots ≡ (user_thread p).1
  pub rest : q ≡ record p { main_thread = q.main_thread; stack_slots = q.stack_slots }
