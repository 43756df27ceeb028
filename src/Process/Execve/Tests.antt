-- ===== src/Process/Execve/Tests.antt =====
-- The exec of a file with one section of 16 bytes.
use sye.Base.{
  ◌%◌, ◌≡◌, refl, Bool, true, false, Option, none, some, List, [], ◌∷◌, if◌then◌else◌, Text, codes,
  same_text,
}
use sye.Mmu.ShortFormat.{short_format}
use sye.Process.{Pcb, Thread, enoent}
use sye.Process.Image.{Space}
use sye.Process.Image.Sample.{zeros, ls, small, space}
use sye.Process.Load.{Segment, Section, load_process}
use sye.Process.Load.Loads.{LoadedFile, load_process-LoadedFile}
use sye.Process.Execve.{Program, not_executed, named, do_execve}

abbrev code : Segment
code = record { is_load = true; p_offset = 64; p_memsz = 16 }

abbrev text : Section
text = record {
  sh_offset = 64;
  sh_size = 16;
  sh_addr = 0x1000;
  is_nobits = false;
  name = codes ".text";
}

abbrev program : Program
program = record {
  elf = record { file_buffer = λ i. i % 256; segments = code ∷ []; sections = text ∷ [] };
  e_entry = 0x1000;
  segment_page_count = 1;
}

abbrev only_ls : Text → Option Program
only_ls name = if same_text name (codes "ls") then some program else none

abbrev started : Pcb → Thread × List Bool
started p = (record { prio = 5 }, [])

found : only_ls (codes "ls") ≡ some program
unfolding same_text
found = refl

-- The parent waits.
abbrev child : Space
child = record space { pcb = record space.pcb { parent = some 0x900 } }

load_process-LoadedFile_example : LoadedFile program.elf zeros (load_process program.elf zeros)
load_process-LoadedFile_example = load_process-LoadedFile program.elf zeros

-- The error path: the name is changed all the same.
no_file :
    do_execve short_format small only_ls started 256 0x4000 0x10000 true false
      (codes "no")
      (some ls)
      none
      (λ m. m)
      []
      zeros
      space
    ≡ not_executed enoent (named (codes "no") space) false
unfolding do_execve same_text
no_file = refl
