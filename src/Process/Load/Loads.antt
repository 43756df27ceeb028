-- ===== src/Process/Load/Loads.antt =====
-- Which sections load_process of Process/Load.antt loads, and what it leaves of them.
use sye.Base.{
  ℕ, ◌+◌, ◌≤◌, ◌≡◌, refl, sym, ◌∙◌, true, false, List, [], ◌∷◌, Bool-cases, inl, inr, arith, u32,
  Text, codes, same_text, same_text-eq, same_text_refl,
}
use sye.Process.Args.{Memory}
use sye.Process.Load.{
  Segment, Section, Elf, supported_section_names, section_supported, is_loaded, load_process,
}
use sye.Process.Load.Bytes.{
  Among, here, later, covers, byte_of, LoadedBytes, load_process-LoadedBytes,
}

-- The section has one of the supported names.
abbrev pub HasName : Section → Type 0
HasName t = Among t.name (
    codes ".text"
    ∷ codes ".rodata"
    ∷ codes ".data"
    ∷ codes ".sbss"
    ∷ codes ".bss"
    ∷ codes ".scommon"
    ∷ [])

-- The segment is to load, and the section has contents in the file, lies in the segment, by ends that
-- wrap at 2^32, and has a supported name.
pub record Loads (g : Segment) (t : Section) : Type 0 where
  pub load : g.is_load ≡ true
  pub contents : t.is_nobits ≡ false
  pub begins : g.p_offset ≤ t.sh_offset
  pub ends : u32 (t.sh_offset + t.sh_size) ≤ u32 (g.p_offset + g.p_memsz)
  pub named : HasName t

supported-Among :
    (names : List Text) (name : Text) → section_supported names name ≡ true → Among name names
unfolding section_supported
supported-Among [] name e = cc
supported-Among (t ∷ ts) name e = elim (Bool-cases (same_text name t)) [
  | inl hit ↦ here (same_text-eq name t hit)
  | inr other ↦
      let step : section_supported (t ∷ ts) name ≡ section_supported ts name = rw other refl in
      later (supported-Among ts name (sym step ∙ e))
]

Among-supported :
    (names : List Text) (name : Text) → Among name names → section_supported names name ≡ true
unfolding section_supported
Among-supported [] name p = elim p [ ]
Among-supported (t ∷ ts) name (here e) =
    let hit : same_text name t ≡ true = rw e (same_text_refl t) in rw hit refl
Among-supported (t ∷ ts) name (later p) = elim (Bool-cases (same_text name t)) [
  | inl hit ↦ rw hit refl
  | inr other ↦ rw other (Among-supported ts name p)
]

pub is_loaded-Loads :
    (g : Segment) (t : Section) → g.is_load ≡ true → is_loaded g t ≡ true → Loads g t
unfolding is_loaded
is_loaded-Loads g t load is =
    let supported : section_supported supported_section_names t.name ≡ true = ground arith in
    record {
      load = load;
      contents = ground arith;
      begins = ground arith;
      ends = ground arith;
      named = supported-Among supported_section_names t.name supported;
    }

Loads-is_loaded : (g : Segment) (t : Section) → Loads g t → is_loaded g t ≡ true
unfolding is_loaded
Loads-is_loaded g t r =
    let supported = Among-supported supported_section_names t.name r.named in
    let contents = r.contents in let begins = r.begins in let ends = r.ends in ground arith

-- What load_process leaves at an address: the byte that the sections loaded there have for it, if
-- they have the same one, and the byte before if none is.
pub record LoadedFile (elf : Elf) (m m' : Memory) : Type 0 where
  pub placed :
      (g : Segment) (t : Section) (b : ℕ)
      → Among g elf.segments
      → Among t elf.sections
      → Loads g t
      → covers t b ≡ true
      → ((g' : Segment) (t' : Section)
          → Among g' elf.segments
          → Among t' elf.sections
          → Loads g' t'
          → covers t' b ≡ true
          → byte_of elf.file_buffer t' b ≡ byte_of elf.file_buffer t b)
      → m' b ≡ byte_of elf.file_buffer t b
  pub kept :
      (b : ℕ)
      → ((g : Segment) (t : Section)
          → Among g elf.segments
          → Among t elf.sections
          → Loads g t
          → covers t b ≡ false)
      → m' b ≡ m b

pub LoadedBytes-LoadedFile :
    (elf : Elf) (m m' : Memory) → LoadedBytes elf m m' → LoadedFile elf m m'
LoadedBytes-LoadedFile elf m m' r = record {
  placed = λ g t b p q loads inside agree.
      r.placed g t b p q loads.load (Loads-is_loaded g t loads) inside
        (λ g' t' p' q' load is inside'. agree g' t' p' q' (is_loaded-Loads g' t' load is) inside');
  kept = λ b out. r.kept b (λ g t p q load is. out g t p q (is_loaded-Loads g t load is));
}

-- At an address in a section that is loaded, `load_process` leaves the byte of the file, if all the
-- sections that are loaded there have the same; at an address in none it leaves the memory. Loaded
-- are the sections of a supported name, with contents in the file, that lie in a segment to load,
-- where the ends of both wrap at 2^32.
pub load_process-LoadedFile : (elf : Elf) (m : Memory) → LoadedFile elf m (load_process elf m)
load_process-LoadedFile elf m =
    LoadedBytes-LoadedFile elf m (load_process elf m) (load_process-LoadedBytes elf m)
