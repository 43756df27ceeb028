-- ===== src/Process/Load.antt =====
-- load_process of process.c. The parsed ELF file comes from the ELF functions of the kernel.
pub mod Bytes
pub mod Loads
use sye.Base.{
  ℕ, zero, suc, ◌+◌, ◌-◌, ◌*◌, ◌/◌, ◌%◌, ◌^◌, ◌≤◌, ◌<◌, ◌≡◌, refl, sym, ap, ap₂, ◌∙◌, ◌≢◌, ◌⊎◌, inl,
  inr, Bool, true, false, not, ◌&&◌, ◌||◌, Option, none, some, List, [], ◌∷◌, ◌++◌, map, arith, ltb,
  leb, ◌==◌, if◌then◌else◌, Bool-cases, Option-cases, length, get_elem?, get_or, set, take, drop,
  replicate, bit_and, bit_or, u8, u16, u32, ◌<<<◌, ◌>>>◌, get_or-set, length-set, count_if, one_if,
  count_if-set, Text, codes, same_text,
}
use sye.Process.Args.{Memory}

-- The fields of a segment and of a section that are read; `is_load` and `is_nobits` are the tests of
-- the types against PT_LOAD and SHT_NOBITS.
pub record Segment : Type 0 where
  pub is_load : Bool
  pub p_offset : ℕ
  pub p_memsz : ℕ

pub record Section : Type 0 where
  pub sh_offset : ℕ
  pub sh_size : ℕ
  pub sh_addr : ℕ
  pub is_nobits : Bool
  pub name : Text

-- The bytes of the file, and the headers in order.
pub record Elf : Type 0 where
  pub file_buffer : ℕ → ℕ
  pub segments : List Segment
  pub sections : List Section

abbrev pub supported_section_names : List Text
supported_section_names =
    codes ".text"
    ∷ codes ".rodata"
    ∷ codes ".data"
    ∷ codes ".sbss"
    ∷ codes ".bss"
    ∷ codes ".scommon"
    ∷ []

-- The loop over the supported names.
pub section_supported : List Text → Text → Bool
section_supported [] name = false
section_supported (t ∷ ts) name =
    let rest = section_supported ts name in if same_text name t then true else rest

-- The tests before a section of a segment is loaded.
pub is_loaded : Segment → Section → Bool
is_loaded segment section =
    let section_end = u32 (section.sh_offset + section.sh_size) in
    let segment_end = u32 (segment.p_offset + segment.p_memsz) in
    not (ltb section.sh_offset segment.p_offset || ltb segment_end section_end)
    && (section_supported supported_section_names section.name && not section.is_nobits)

-- The memcpy of a section.
pub load_section : (file : ℕ → ℕ) → Section → Memory → Memory
load_section file section m b =
    if leb section.sh_addr b && ltb b (section.sh_addr + section.sh_size)
    then file (section.sh_offset + (b - section.sh_addr))
    else m b

pub load_sections : (file : ℕ → ℕ) → Segment → List Section → Memory → Memory
load_sections file segment [] m = m
load_sections file segment (section ∷ sections) m =
    load_sections file segment sections
      (if is_loaded segment section then load_section file section m else m)

pub load_segments : (file : ℕ → ℕ) → List Segment → List Section → Memory → Memory
load_segments file [] sections m = m
load_segments file (segment ∷ segments) sections m =
    load_segments file segments sections
      (if segment.is_load then load_sections file segment sections m else m)

pub load_process : Elf → Memory → Memory
load_process elf m = load_segments elf.file_buffer elf.segments elf.sections m
