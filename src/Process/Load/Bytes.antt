-- ===== src/Process/Load/Bytes.antt =====
-- The bytes that load_process of Process/Load.antt leaves.
use sye.Base.{
  ℕ, ◌+◌, ◌-◌, ◌≡◌, refl, inl, inr, Bool, true, false, ◌&&◌, List, [], ◌∷◌, ltb, leb, if◌then◌else◌,
  Bool-cases,
}
use sye.Process.Args.{Memory}
use sye.Process.Load.{
  Segment, Section, Elf, is_loaded, load_section, load_sections, load_segments, load_process,
}

-- An element of a list.
pub data Among {ℓ} {A : Type ℓ} (x : A) : List A → Type ℓ where
  here : {y : A} {ys : List A} → x ≡ y → Among x (y ∷ ys)
  later : {y : A} {ys : List A} → Among x ys → Among x (y ∷ ys)

abbrev pub covers : Section → ℕ → Bool
covers section b = leb section.sh_addr b && ltb b (section.sh_addr + section.sh_size)

-- The byte of the file that a section has for an address.
abbrev pub byte_of : (ℕ → ℕ) → Section → ℕ → ℕ
byte_of file section b = file (section.sh_offset + (b - section.sh_addr))

-- A section that is loaded at address `b` has `v` for it.
abbrev pub Agrees : (ℕ → ℕ) → (b v : ℕ) → Segment → Section → Type 0
Agrees file b v segment section =
    is_loaded segment section ≡ true → covers section b ≡ true → byte_of file section b ≡ v

module _ (file : ℕ → ℕ) (b v : ℕ) where
  load_section-keeps :
      (segment : Segment) (section : Section) (m : Memory)
      → Agrees file b v segment section
      → m b ≡ v
      → (if is_loaded segment section then load_section file section m else m) b ≡ v
  unfolding load_section
  load_section-keeps segment section m agrees same = elim (Bool-cases (is_loaded segment section)) [
    | inr skipped ↦ rw skipped same
    | inl loaded ↦ elim (Bool-cases (covers section b)) [
      | inl inside ↦ rw (loaded, inside) (agrees loaded inside)
      | inr outside ↦ rw (loaded, outside) same
    ]
  ]

  load_sections-keeps :
      (segment : Segment) (sections : List Section) (m : Memory)
      → ((section : Section) → Among section sections → Agrees file b v segment section)
      → m b ≡ v
      → load_sections file segment sections m b ≡ v
  unfolding load_sections
  load_sections-keeps segment [] m agree same = same
  load_sections-keeps segment (s ∷ sections) m agree same =
      load_sections-keeps segment sections _ (λ t p. agree t (later p))
        (load_section-keeps segment s m (agree s (here refl)) same)

  load_sections-places :
      (segment : Segment) (sections : List Section) (section : Section) (m : Memory)
      → ((t : Section) → Among t sections → Agrees file b v segment t)
      → Among section sections
      → is_loaded segment section ≡ true
      → covers section b ≡ true
      → load_sections file segment sections m b ≡ v
  unfolding load_sections load_section
  load_sections-places segment [] section m agree p loaded inside = elim p [ ]
  load_sections-places segment (s ∷ sections) section m agree (here e) loaded inside =
      load_sections-keeps segment sections _ (λ t p. agree t (later p))
        (rw (← e) (rw (loaded, inside) (agree section (here e) loaded inside)))
  load_sections-places segment (s ∷ sections) section m agree (later p) loaded inside =
      load_sections-places segment sections section _ (λ t q. agree t (later q)) p loaded inside

  -- Every loadable segment and section that is loaded at the address has the byte.
  abbrev pub AllAgree : List Segment → List Section → Type 0
  AllAgree segments sections =
      (g : Segment) (t : Section)
      → Among g segments
      → Among t sections
      → g.is_load ≡ true
      → Agrees file b v g t

  segment-keeps :
      (g : Segment) (sections : List Section) (m : Memory)
      → ((t : Section) → Among t sections → g.is_load ≡ true → Agrees file b v g t)
      → m b ≡ v
      → (if g.is_load then load_sections file g sections m else m) b ≡ v
  segment-keeps g sections m agree same = elim (Bool-cases g.is_load) [
    | inl load ↦ simp load (load_sections-keeps g sections m (λ t p. agree t p load) same)
    | inr skip ↦ simp skip same
  ]

  load_segments-keeps :
      (segments : List Segment) (sections : List Section) (m : Memory)
      → AllAgree segments sections
      → m b ≡ v
      → load_segments file segments sections m b ≡ v
  unfolding load_segments
  load_segments-keeps [] sections m agree same = same
  load_segments-keeps (g ∷ segments) sections m agree same =
      load_segments-keeps segments sections _ (λ g' t p q. agree g' t (later p) q)
        (segment-keeps g sections m (λ t p. agree g t (here refl) p) same)

  load_segments-places :
      (segments : List Segment) (sections : List Section) (g : Segment) (t : Section) (m : Memory)
      → AllAgree segments sections
      → Among g segments
      → Among t sections
      → g.is_load ≡ true
      → is_loaded g t ≡ true
      → covers t b ≡ true
      → load_segments file segments sections m b ≡ v
  unfolding load_segments
  load_segments-places [] sections g t m agree p q load loaded inside = elim p [ ]
  load_segments-places (g' ∷ segments) sections g t m agree (here e) q load loaded inside =
      load_segments-keeps segments sections _ (λ x y p' q'. agree x y (later p') q')
        (rw (← e) (
          simp load (
            load_sections-places g sections t m (λ y q'. agree g y (here e) q' load) q loaded
              inside)))
  load_segments-places (g' ∷ segments) sections g t m agree (later p) q load loaded inside =
      load_segments-places segments sections g t _ (λ x y p' q'. agree x y (later p') q') p q load
        loaded inside

-- What load_process leaves at an address: the byte that the sections loaded there have for it, if
-- they have the same one, and the byte before if none is.
pub record LoadedBytes (elf : Elf) (m m' : Memory) : Type 0 where
  pub placed :
      (g : Segment) (t : Section) (b : ℕ)
      → Among g elf.segments
      → Among t elf.sections
      → g.is_load ≡ true
      → is_loaded g t ≡ true
      → covers t b ≡ true
      → AllAgree elf.file_buffer b (byte_of elf.file_buffer t b) elf.segments elf.sections
      → m' b ≡ byte_of elf.file_buffer t b
  pub kept :
      (b : ℕ)
      → ((g : Segment) (t : Section)
          → Among g elf.segments
          → Among t elf.sections
          → g.is_load ≡ true
          → is_loaded g t ≡ true
          → covers t b ≡ false)
      → m' b ≡ m b

-- At an address in a section that is loaded, `load_process` leaves the byte of the file, if all the
-- sections that are loaded there have the same; at an address in none it leaves the memory. Loaded
-- are the sections of a supported name, with contents in the file, that lie in a segment to load.
pub load_process-LoadedBytes : (elf : Elf) (m : Memory) → LoadedBytes elf m (load_process elf m)
unfolding load_process
load_process-LoadedBytes elf m = record {
  placed = λ g t b p q load loaded inside agree.
      load_segments-places elf.file_buffer b (byte_of elf.file_buffer t b) elf.segments elf.sections
        g t m agree p q load loaded inside;
  kept = λ b outside.
      load_segments-keeps elf.file_buffer b (m b) elf.segments elf.sections m
        (λ g t p q load loaded inside. let out = outside g t p q load loaded in cc) refl;
}
