-- ===== src/Mmu/Range.antt =====
-- A range of pages in one section, as one round of `create_mapping` of Mmu.antt has it.
use sye.Base.{ℕ, ◌+◌, ◌-◌, ◌*◌, ◌/◌, ◌%◌, ◌^◌, ◌≤◌, ◌<◌, ◌≡◌, ◌⊎◌, inl, inr, arith}
use sye.Mmu.{page_size, sect_size}

-- The range from `addr` to `next` of whole pages, in the section of `addr`, below 2^32.
pub record InSection (addr next : ℕ) : Type 0 where
  pub begins : addr % page_size ≡ 0
  pub ends : next % page_size ≡ 0
  pub some_page : addr < next
  pub inside : next ≤ addr / sect_size * sect_size + sect_size
  pub below : next < 2 ^ 32

-- The entries of an address of the range, and the address that they give.
pub same_section :
    (addr next v : ℕ) → InSection addr next → addr ≤ v → v < next → v / sect_size ≡ addr / sect_size
same_section addr next v range p q = omega (arith, range.inside)

pub same_table :
    (addr next v : ℕ)
    → InSection addr next
    → addr ≤ v
    → v < next
    → (addr / page_size % 256 ≤ v / page_size % 256)
      × (v / page_size % 256 < addr / page_size % 256 + (next - addr) / page_size)
same_table addr next v range p q = (
  omega (arith, range.begins, range.ends, range.inside),
  omega (arith, range.begins, range.ends, range.inside),
)

pub page_of :
    (addr next v phys : ℕ)
    → InSection addr next
    → phys % page_size ≡ 0
    → addr ≤ v
    → v < next
    → (phys / page_size + (v / page_size % 256 - addr / page_size % 256)) * page_size
        + v % page_size
      ≡ phys + (v - addr)
page_of addr next v phys range even p q = omega (arith, range.begins, range.ends, range.inside)

pub other_entry :
    (addr next v : ℕ)
    → InSection addr next
    → (v < addr) ⊎ (next ≤ v)
    → v / sect_size ≡ addr / sect_size
    → (v / page_size % 256 < addr / page_size % 256)
      ⊎ (addr / page_size % 256 + (next - addr) / page_size ≤ v / page_size % 256)
other_entry addr next v range (inl p) e =
    inl (omega (arith, range.begins, range.ends, range.inside, range.some_page))
other_entry addr next v range (inr p) e =
    inr (omega (arith, range.begins, range.ends, range.inside, range.some_page))
