-- ===== src/Memreplace/Masks.antt =====
-- The bit fields of a page table entry of memreplace.c, a byte: what loading a page, unloading it
-- and clearing its reference bit do to each field. Each fact is a table over the 256 bytes.
use sye.Base.{
  ℕ, ◌<◌, ◌≡◌, refl, Bool, true, false, not, ◌&&◌, arith, bit_and, bit_and-one, ◌==◌, all_below,
  all_below_sound, if◌then◌else◌,
}
use sye.Memreplace.{
  check_mask, unset_mask, unload_page, load_page, page_nb_mask, ref_bit_mask, swap_bit_mask,
  valid_bit_mask,
}

abbrev pub has_valid : ℕ → Bool
has_valid x = check_mask x valid_bit_mask

abbrev pub has_swap : ℕ → Bool
has_swap x = check_mask x swap_bit_mask

abbrev pub has_ref : ℕ → Bool
has_ref x = check_mask x ref_bit_mask

abbrev pub page_number : ℕ → ℕ
page_number x = bit_and x page_nb_mask

abbrev iff : Bool → Bool → Bool
iff a b = if a then b else not b

-- What an operation makes of the byte `x`, field by field.
abbrev pub Becomes : ℕ → ℕ → (valid swap ref : Bool) → Type 0
Becomes x y valid swap ref =
    (has_valid y ≡ valid)
    × (has_swap y ≡ swap)
    × (has_ref y ≡ ref)
    × (page_number y ≡ page_number x)
    × (y < 256)

unload_table :
    all_below 256 (λ x.
      not (has_valid (unload_page x))
      && has_swap (unload_page x)
      && iff (has_ref x) (has_ref (unload_page x))
      && page_number (unload_page x) == page_number x)
    ≡ true
unfolding all_below unload_page check_mask
unload_table = refl

pub unload_page-Becomes : (x : ℕ) → x < 256 → Becomes x (unload_page x) false true (has_ref x)
unload_page-Becomes x h =
    let t = all_below_sound 256 _ x unload_table h in
    (ground arith, ground arith, ground arith, ground arith, unfold unload_page in omega arith)

load_table :
    all_below 256 (λ x.
      has_valid (load_page x)
      && not (has_swap (load_page x))
      && has_ref (load_page x)
      && page_number (load_page x) == page_number x)
    ≡ true
unfolding all_below load_page check_mask
load_table = refl

pub load_page-Becomes : (x : ℕ) → x < 256 → Becomes x (load_page x) true false true
load_page-Becomes x h =
    let t = all_below_sound 256 _ x load_table h in
    (ground arith, ground arith, ground arith, ground arith, unfold load_page in omega arith)

unref_table :
    all_below 256 (λ x.
      iff (has_valid x) (has_valid (unset_mask x ref_bit_mask))
      && iff (has_swap x) (has_swap (unset_mask x ref_bit_mask))
      && not (has_ref (unset_mask x ref_bit_mask))
      && page_number (unset_mask x ref_bit_mask) == page_number x)
    ≡ true
unfolding all_below unset_mask check_mask
unref_table = refl

pub unref-Becomes :
    (x : ℕ) → x < 256 → Becomes x (unset_mask x ref_bit_mask) (has_valid x) (has_swap x) false
unref-Becomes x h =
    let t = all_below_sound 256 _ x unref_table h in
    (ground arith, ground arith, ground arith, ground arith, unfold unset_mask in omega arith)

-- The test `!(x & VALID_BIT_MASK)` of `main` agrees with `CHECK_MASK`.
pub valid-zero : (x : ℕ) → (bit_and x valid_bit_mask == 0) ≡ not (has_valid x)
unfolding check_mask
valid-zero x = ground (arith, bit_and-one x)
