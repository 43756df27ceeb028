-- ===== src/Memsim/Selftest.antt =====
-- The self tests of memsim.c pass: `test_mem` on the memory that `main` fills, and `test_mem_2`
-- on the table of `init_page_table`.
use sye.Base.{
  all_below, all_below_sound, ℕ, zero, suc, ◌+◌, ◌*◌, ◌%◌, ◌^◌, ◌≤◌, ◌<◌, ◌≡◌, refl, sym, ap, ◌∙◌,
  inl, inr, Bool, true, false, not, ◌||◌, Option, none, some, arith, ◌==◌, Bool-cases, bit_and,
  bit_or, u8, u16, ◌<<<◌, bit_and-0xff,
}
use sye.Memsim.{
  Mem, passed, page_num, page_size, get_byte, store_byte, fill_loop, fill, test_loop, test_mem,
}
use sye.Memsim.Address.{IsMapped}
use sye.Memsim.Rights.{
  guarded, page_of, page_rights, is_some, is_invalid, is_read_only, store-can_write,
}
use sye.Memsim.{
  can_write, pte_of, test_2_vaddr, test_2_round, test_2_inner, test_2_outer, test_mem_2,
}
use sye.Memsim.Flat.{plain, same_cell, IsStored, store-IsStored, stored}

-- Every address below `k` holds its low byte.
abbrev Filled : Bool → Mem → ℕ → Type 0
Filled small m k = (w : ℕ) → w < k → get_byte (plain small) m false w ≡ some (w % 256)

after_store :
    (small : Bool) (m m' : Mem) (k : ℕ)
    → k < 2 ^ 16
    → IsStored small m k (u8 (bit_and k 0xff)) m'
    → Filled small m k
    → Filled small m' (k + 1)
after_store small m m' k short s filled w below = elim (Bool-cases (same_cell small k w)) [
  | inl e ↦ s.reads w ∙ rw e (ap some (value small e))
  | inr e ↦ s.reads w ∙ rw e (filled w (ne small e))
]
  where
    value : (b : Bool) → same_cell b k w ≡ true → u8 (u8 (bit_and k 0xff)) ≡ w % 256
    value true h = ground (arith, bit_and-0xff k)
    value false h = ground (arith, bit_and-0xff k)

    ne : (b : Bool) → same_cell b k w ≡ false → w < k
    ne true h = ground arith
    ne false h = ground arith

fill_loop-Filled :
    (small : Bool) (left k n : ℕ) (m : Mem)
    → k + left ≡ n
    → n ≤ 2 ^ 16
    → IsMapped (plain small) m
    → Filled small m k
    → Filled small (fill_loop (plain small) left k m) n
unfolding fill_loop
fill_loop-Filled small zero k n m e short mapped filled =
    let e' : k ≡ n = omega arith in rw (← e') filled
fill_loop-Filled small (suc left) k n m e short mapped filled =
    let s = store-IsStored small m k (u8 (bit_and k 0xff)) mapped in
    rw s.returns (
      fill_loop-Filled small left (k + 1) n (stored (plain small) m k (u8 (bit_and k 0xff)))
        (omega arith) short s.mapped
        (after_store small m (stored (plain small) m k (u8 (bit_and k 0xff))) k (omega arith) s
          filled))

test_loop-passed :
    (small : Bool) (m : Mem) (left k n : ℕ)
    → k + left ≡ n
    → Filled small m n
    → test_loop (plain small) m left k 0 ≡ passed
unfolding test_loop
test_loop-passed small m zero k n e filled = refl
test_loop-passed small m (suc left) k n e filled =
    let same : (k % 256 == u8 (bit_and k 0xff)) ≡ true = ground (arith, bit_and-0xff k) in
    rw (filled k (omega arith), test_loop)
      (rw same (test_loop-passed small m left (k + 1) n (omega arith) filled))

-- Without attributes, whichever size the pages have, over the table of `init_page_table`
-- `test_mem` finds no error in the memory that the loop of `main` filled.
test_mem-fill :
    (small : Bool) (m : Mem)
    → IsMapped (plain small) m
    → test_mem (plain small) (fill (plain small) m) ≡ passed
unfolding test_mem fill
test_mem-fill small m mapped =
    let n = page_num (plain small) * page_size (plain small) in
    test_loop-passed small (fill_loop (plain small) n 0 m) n 0 n (omega arith) (
      fill_loop-Filled small n 0 n m (omega arith) (bound small) mapped
        (λ w h. absurd (omega arith)))
  where
    bound : (b : Bool) → page_num (plain b) * page_size (plain b) ≤ 2 ^ 16
    bound true = omega arith
    bound false = omega arith

-- The addresses that `test_mem_2` forms from page `i` lie in page `i`.
vaddr_table :
    all_below 256 (λ i. all_below 256 (λ y. page_of (u16 (bit_or (i <<< 8) y)) == i)) ≡ true
unfolding all_below
vaddr_table = refl

page_of_vaddr : (i j : ℕ) → i < 256 → page_of (test_2_vaddr i j) ≡ i
page_of_vaddr i j h =
    let row = all_below_sound 256 _ i vaddr_table h in
    let low : bit_and (j <<< 3) 0xff < 256 = omega (arith, bit_and-0xff (j <<< 3)) in
    let cell = all_below_sound 256 _ (bit_and (j <<< 3) 0xff) row low in ground arith

-- What a store returns: it keeps the page table.
store-page_table :
    (m : Mem) (v b : ℕ)
    → is_some (store_byte guarded m v b) ≡ true
    → (m' : Mem) × (store_byte guarded m v b ≡ some m') × (m'.page_table ≡ m.page_table)
unfolding store_byte
store-page_table m v b e =
    let w : can_write (pte_of guarded m v) ≡ true = sym (store-can_write m v b) ∙ e in
    rw w (_, refl, refl)

is_none {ℓ} : {A : Type ℓ} (o : Option A) → is_some o ≡ false → o ≡ none
is_none none e = refl
is_none (some a) e = cc

is_there {ℓ} : {A : Type ℓ} (o : Option A) → is_some o ≡ true → (a : A) × (o ≡ some a)
is_there none e = cc
is_there (some a) e = (a, refl)

module _ (m : Mem) (i v : ℕ) (inside : page_of v ≡ i) (mapped : IsMapped guarded m) where
  rights :
      (is_some (get_byte guarded m false v) ≡ not (is_invalid i))
      × (is_some (store_byte guarded m v 1) ≡ not (is_invalid i || is_read_only i))
  rights = rw inside at (page_rights m v 1 mapped)

  -- Every round of `test_mem_2` succeeds and keeps the page table.
  round_passes :
      (m' : Mem) × (test_2_round guarded m i v ≡ some m') × (m'.page_table ≡ m.page_table)
  unfolding test_2_round
  round_passes = elim (Bool-cases (is_invalid i)) [
    | inl bad ↦
        let none_read = is_none (get_byte guarded m false v) (ground (arith, rights)) in
        (m, ground (arith, none_read), refl)
    | inr good ↦
        let (b, read) = is_there (get_byte guarded m false v) (ground (arith, rights)) in
        elim (Bool-cases (is_read_only i)) [
          | inl fixed ↦
              let none_stored = is_none (store_byte guarded m v 1) (ground (arith, rights)) in
              (m, ground (arith, read, none_stored), refl)
          | inr free ↦
              let (m', stored, keeps) = store-page_table m v 1 (ground (arith, rights)) in
              (m', ground (arith, read, stored), keeps)
        ]
  ]

inner_passes :
    (i left j : ℕ) (m : Mem)
    → i < 256
    → IsMapped guarded m
    → (m' : Mem) × (test_2_inner guarded i left j m ≡ some m') × IsMapped guarded m'
unfolding test_2_inner
inner_passes i zero j m small mapped = (m, refl, mapped)
inner_passes i (suc left) j m small mapped =
    let (m', done, keeps) = round_passes m i (test_2_vaddr i j) (page_of_vaddr i j small) mapped in
    rw (done, test_2_inner) (inner_passes i left (j + 1) m' small (rw keeps mapped))

outer_passes :
    (left i : ℕ) (m : Mem)
    → i + left ≤ 256
    → IsMapped guarded m
    → (m' : Mem) × (test_2_outer guarded left i m ≡ some m') × IsMapped guarded m'
unfolding test_2_outer
outer_passes zero i m small mapped = (m, refl, mapped)
outer_passes (suc left) i m small mapped =
    let (m', done, mapped') = inner_passes i 256 0 m (omega arith) mapped in
    rw (done, test_2_outer) (outer_passes left (i + 1) m' (omega arith) mapped')

-- With the attributes and pages of 256 bytes, over the table of `init_page_table`, `test_mem_2`
-- reports success, and leaves that table.
pub test_mem_2-passes :
    (m : Mem)
    → IsMapped guarded m
    → (m' : Mem) × (test_mem_2 guarded m ≡ some m') × IsMapped guarded m'
unfolding test_mem_2
test_mem_2-passes m mapped = outer_passes 256 0 m (omega arith) mapped
