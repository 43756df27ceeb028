-- ===== src/Mmu/Tests.antt =====
-- Runs of Mmu.antt, one of them at a section boundary.
use sye.Base.{
  ℕ, zero, suc, ◌%◌, ◌<◌, ◌≡◌, ap, refl, sym, ◌∙◌, ◌≢◌, inl, inr, true, some, [], ◌∷◌, arith, ◌==◌,
  if◌then◌else◌, Bool-cases, get_or,
}
use sye.Mmu.{Tables, create_mapping, virt_to_phys_pt, reset_root_pgtable}
use sye.Mmu.ShortFormat.{short_format, short_format-IsMmu}
use sye.Mmu.Walk.{IsTable, walk, IsTables, Maps, virt_to_phys_pt-walk}
use sye.Mmu.Mapping.{Ready, create_mapping-Maps}
use sye.Mmu.Release.{release_mapping}
use sye.Mmu.Release.Steps.{Unmaps}
use sye.Mmu.Release.Loop.{Mapped, release_mapping-Unmaps}
use sye.Mmu.Reset.{Reset, reset_root_pgtable-Reset}

-- No entry yet, and two blocks for tables.
abbrev no_tables : Tables
no_tables = record { l1 = λ i. 0; l2 = λ a j. 0; pool = 0x8000 ∷ 0x8400 ∷ []; freed = [] }

two_blocks : (k l : ℕ) → k < l → l < 2 → get_or no_tables.pool k 0 ≢ get_or no_tables.pool l 0
two_blocks k zero p q e = omega arith
two_blocks zero (suc zero) p q e = ground arith
two_blocks (suc k) (suc zero) p q e = omega arith
two_blocks k (suc (suc l)) p q e = omega arith

block_aligned : (k : ℕ) → k < 2 → get_or no_tables.pool k 0 % 1024 ≡ 0
block_aligned zero p = refl
block_aligned (suc zero) p = refl
block_aligned (suc (suc k)) p = absurd (omega arith)

no_tables-IsTables : IsTables short_format no_tables
no_tables-IsTables = record {
  apart = λ i j (p, q) r e. cc;
  fresh = λ i k (p, q) r e. cc;
  distinct = two_blocks;
  aligned = block_aligned;
}

-- Three pages, of which one is before the end of section 0.
no_tables-Ready : Ready short_format short_format-IsMmu no_tables 256 0xff000 0x102000 0x200000
no_tables-Ready = record {
  tables = no_tables-IsTables;
  begins = refl;
  ends = refl;
  some_page = omega arith;
  below = omega arith;
  phys_below = omega arith;
  even = refl;
  enough = omega arith;
  room = omega arith;
  small = λ j p q. refl;
}

create_mapping-Maps_example :
    (t' : Tables) × (create_mapping short_format 256 0xff010 0x200000 8192 true no_tables ≡ some t')
    × IsTables short_format t'
    × Maps short_format no_tables t' 0xff000 0x102000 0x200000
create_mapping-Maps_example =
    create_mapping-Maps short_format short_format-IsMmu 256 0xff010 0x200000 8192 true no_tables
      (omega arith) no_tables-Ready

-- The second megabyte is mapped by a table in which every entry is for the page at 0x5000.
abbrev one_table : Tables
one_table = record {
  l1 = λ i. if i == 1 then 0x8001 else 0;
  l2 = λ a j. 0x5002;
  pool = [];
  freed = [];
}

one_table-entry : (i : ℕ) → IsTable short_format (one_table.l1 i) → i ≡ 1
one_table-entry i (p, q) = elim (Bool-cases (i == 1)) [
  | inl e ↦ ground arith
  | inr e ↦ let none_here : (one_table.l1 i == 0) ≡ true = rw e refl in cc
]

one_table-IsTables : IsTables short_format one_table
one_table-IsTables = record {
  apart = λ i j p q e. one_table-entry i p ∙ sym (one_table-entry j q);
  fresh = λ i k p r e. absurd (omega (arith, r));
  distinct = λ k l p q e. omega arith;
  aligned = λ k p. absurd (omega arith);
}

virt_to_phys_pt-walk_example : virt_to_phys_pt short_format 0x101234 one_table ≡ some 0x5234
unfolding walk
virt_to_phys_pt-walk_example = virt_to_phys_pt-walk short_format one_table 0x101234 0x5234 refl refl

reset_root_pgtable-Reset_example :
    Reset short_format 3 0x4000 true one_table
      (reset_root_pgtable short_format 0x300000 0x4000 true one_table)
reset_root_pgtable-Reset_example =
    reset_root_pgtable-Reset short_format 0x300000 0x4000 true one_table one_table-IsTables

one_table-Mapped : Mapped short_format short_format-IsMmu one_table 256 0x101000 0x103000
one_table-Mapped = record {
  tables = one_table-IsTables;
  begins = refl;
  ends = refl;
  some_page = omega arith;
  below = omega arith;
  enough = omega arith;
  entries = λ j p q.
      let here : 1 ≡ j = omega arith in
      inl (
        ap (λ i. one_table.l1 i == 0) (sym here),
        ap (λ i. short_format.l1pte_is_sect (one_table.l1 i)) (sym here),
      );
}

release_mapping-Unmaps_example :
    (t' : Tables) × (release_mapping short_format 256 0x101004 8188 one_table ≡ some t')
    × IsTables short_format t'
    × Unmaps short_format short_format-IsMmu one_table t' 0x101000 0x103000
release_mapping-Unmaps_example =
    release_mapping-Unmaps short_format short_format-IsMmu 256 0x101004 8188 one_table (omega arith)
      one_table-Mapped

-- The second megabyte is mapped by a section.
abbrev one_section : Tables
one_section = record one_table { l1 = λ i. 0x300002 }

walk_section : walk short_format one_section 0x112345 ≡ some 0x312345
unfolding walk
walk_section = refl

virt_to_phys_pt_section : virt_to_phys_pt short_format 0x112345 one_section ≡ some 0x300345
unfolding virt_to_phys_pt
virt_to_phys_pt_section = refl
