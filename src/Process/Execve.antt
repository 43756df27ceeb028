-- ===== src/Process/Execve.antt =====
-- do_execve of process.c, over the image of Process/Image.antt and the loader of Process/Load.antt.
-- The ELF functions, user_thread and the end of the old thread are not in the file.
pub mod Executed
mod Tests
use sye.Base.{
  ℕ, zero, suc, ◌+◌, ◌-◌, ◌*◌, ◌/◌, ◌%◌, ◌^◌, ◌≤◌, ◌<◌, ◌≡◌, refl, sym, ap, ap₂, ◌∙◌, ◌≢◌, ◌⊎◌, inl,
  inr, Bool, true, false, not, ◌&&◌, ◌||◌, Option, none, some, List, [], ◌∷◌, ◌++◌, map, arith, ltb,
  leb, ◌==◌, if◌then◌else◌, Bool-cases, Option-cases, length, get_elem?, get_or, set, take, drop,
  replicate, bit_and, bit_or, u8, u16, u32, ◌<<<◌, ◌>>>◌, get_or-set, length-set, count_if, one_if,
  count_if-set, Text,
}
use sye.Mmu.{Macros}
use sye.Process.{Pcb, Thread, Errno, enoent}
use sye.Process.Args.{Memory}
use sye.Process.Image.{Space, Arch, setup_proc_image_replace}
use sye.Process.Load.{Elf, load_process}

-- What the ELF functions give for a file.
pub record Program : Type 0 where
  pub elf : Elf
  pub e_entry : ℕ
  pub segment_page_count : ℕ

-- What the call leaves: an error with the interrupt flag; a new image with the memory and the
-- waiting threads of its main thread, each by the address of its process; or a failed assertion.
pub data Execve : Type 0 where
  not_executed : Errno → Space → (irq_off : Bool) → Execve
  executed : Space → Memory → List ℕ → Execve
  bug : Execve

-- The loop that counts the arguments.
pub count_args : Option (List Text) → ℕ
count_args none = 0
count_args (some argv) = length argv

-- The waiting thread moves to the new main thread: at most one, of the parent.
pub transfer : (parent : Option ℕ) → List ℕ → Option (List ℕ)
transfer parent [] = some []
transfer none (w ∷ ws) = none
transfer (some parent) (w ∷ []) = if w == parent then some (w ∷ []) else none
transfer (some parent) (w ∷ w' ∷ ws) = none

abbrev pub with_thread : Thread × List Bool → Space → Space
with_thread (thread, slots) s = record s {
  pcb = record s.pcb { main_thread = some thread; stack_slots = slots };
}

abbrev pub named : Text → Space → Space
named filename s = record s { pcb = record s.pcb { name = filename } }

module _ (h : Macros) (c : Arch) (load_file : Text → Option Program)
    (user_thread : Pcb → Thread × List Bool) where
  -- From the successful parsing on.
  pub exec_program :
      (fuel pgtable args : ℕ)
      → Program
      → (argv envp : Option (List Text)) → (remap : Memory → Memory) → (waiters : List ℕ) → Memory
      → Space
      → Execve
  exec_program fuel pgtable args program argv envp remap waiters m s =
      elim (setup_proc_image_replace h c fuel pgtable args program.e_entry
        program.segment_page_count (count_args argv) argv envp remap m s) [
          | none ↦ bug
          | some (s', m') ↦ elim (transfer s'.pcb.parent waiters) [
            | none ↦ bug
            | some queue ↦
                executed (with_thread (user_thread s'.pcb) s') (load_process program.elf m') queue
          ]
        ]

  -- `is_main` says that the main thread calls; `flags` is the interrupt flag before the call.
  pub do_execve :
      (fuel pgtable args : ℕ)
      → (is_main flags : Bool) → Text
      → (argv envp : Option (List Text)) → (remap : Memory → Memory) → (waiters : List ℕ) → Memory
      → Space
      → Execve
  do_execve fuel pgtable args is_main flags filename argv envp remap waiters m s =
      if not is_main then bug else elim (load_file filename) [
        | none ↦ not_executed enoent (named filename s) flags
        | some program ↦
            exec_program fuel pgtable args program argv envp remap waiters m (named filename s)
      ]
