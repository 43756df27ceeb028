-- ===== src/Mmu/ShortFormat.antt =====
-- Macros of a table format for Mmu.antt, with which the theorems are applied.
use sye.Base.{
  ℕ, ◌+◌, ◌*◌, ◌/◌, ◌%◌, ◌≤◌, ◌≡◌, refl, Bool, true, false, arith, ltb, ◌==◌, if◌then◌else◌,
}
use sye.Mmu.{Macros, page_size, sect_size}
use sye.Mmu.Walk.{IsMmu}

-- The low bits are 1 for a table and 2 for a section and a page, more with the cache.
abbrev pub short_format : Macros
short_format = record {
  l1pte_index = λ a. a / sect_size;
  l2pte_index = λ a. a / page_size % 256;
  l1sect_addr_end = λ a e.
      if ltb (a / sect_size * sect_size + sect_size) e
      then a / sect_size * sect_size + sect_size
      else e;
  table_entry = λ a nocache. a + 1;
  sect_entry = λ p nocache. p + (if nocache then 2 else 14);
  small_entry = λ p nocache. p + (if nocache then 2 else 14);
  table_of = λ w. w / 1024 * 1024;
  sect_addr = λ w. w / sect_size * sect_size;
  small_addr = λ w. w / page_size * page_size;
  l1pte_is_sect = λ w. w % 4 == 2;
}

low_bits : (nocache : Bool) → (2 ≤ (if nocache then 2 else 14)) × ((if nocache then 2 else 14) ≤ 14)
low_bits true = (omega arith, omega arith)
low_bits false = (omega arith, omega arith)

low_kind : (p : ℕ) (nocache : Bool) → p % 4 ≡ 0 → (p + (if nocache then 2 else 14)) % 4 ≡ 2
low_kind p true e = omega arith
low_kind p false e = omega arith

pub short_format-IsMmu : IsMmu short_format
short_format-IsMmu = record {
  l1_index = λ a. refl;
  l2_index = λ a. refl;
  next_section = λ a e p.
      let t : ltb (a / sect_size * sect_size + sect_size) e ≡ true = ground arith in rw t refl;
  next_end = λ a e p.
      let t : ltb (a / sect_size * sect_size + sect_size) e ≡ false = ground arith in rw t refl;
  table_addr = λ a n e. omega arith;
  table_used = λ a n e. ground arith;
  table_kind = λ a n e. let odd : (a + 1) % 4 ≡ 1 = omega arith in ground arith;
  empty_kind = refl;
  sect_addr = λ p n e. let (a, b) = low_bits n in omega arith;
  sect_used = λ p n e. let (a, b) = low_bits n in ground arith;
  sect_kind = λ p n e. let two = low_kind p n (omega arith) in ground arith;
  small_addr = λ p n e. let (a, b) = low_bits n in omega arith;
  small_used = λ p n e. let (a, b) = low_bits n in ground arith;
}
