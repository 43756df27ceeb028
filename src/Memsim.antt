-- ===== src/Memsim.antt =====
-- l6-mem-pte/usr/src/memsim.c: a memory of 64 KB behind a page table. The two macros that choose
-- the size of a page and the checks of the attributes are the record `Config`; the source sets
-- both to 0. The two global arrays are functions of their indices, which `Address` shows to be in
-- range. An access that returns -1 is `none`. `print_page` prints one line in the source's
-- configuration, and is left out.
pub mod Address
pub mod Flat
pub mod Rights
pub mod Selftest
mod Tests
use sye.Base.{
  ℕ, zero, suc, ◌+◌, ◌-◌, ◌*◌, ◌^◌, ◌>>>◌, ◌<<<◌, Bool, true, false, not, ◌&&◌, ◌||◌, Option, none,
  some, bit_and, bit_or, u8, u16, ltb, leb, ◌==◌, if◌then◌else◌,
}

pub record Config : Type 0 where
  pub small : Bool
  pub attributes : Bool

abbrev pub page_num : Config → ℕ
page_num c = if c.small then 256 else 64

abbrev pub page_size : Config → ℕ
page_size c = if c.small then 256 else 1024

abbrev pub valid_bit : ℕ
valid_bit = 1

abbrev pub rwx_bits : ℕ
rwx_bits = 0x06

abbrev pub r_pattern : ℕ
r_pattern = 0b01

abbrev pub w_pattern : ℕ
w_pattern = 0b10

abbrev pub rwx_pattern : ℕ
rwx_pattern = 0b00

unfoldable pub high8 : ℕ → ℕ
high8 x = bit_and (x >>> 8) 0xff

unfoldable pub low8 : ℕ → ℕ
low8 x = bit_and x 0xff

unfoldable pub high6 : ℕ → ℕ
high6 x = bit_and (x >>> 3) 0x7

unfoldable pub low10 : ℕ → ℕ
low10 x = bit_and x 0x3ff

pub record Mem : Type 0 where
  pub page_table : ℕ → ℕ
  pub main_mem : ℕ → ℕ → ℕ

-- The index of the entry of an address, and the place of its byte given the entry.
abbrev pub pte_index : Config → ℕ → ℕ
pte_index c vaddr = if c.small then high8 vaddr else high6 vaddr

abbrev pub frame : Config → ℕ → ℕ
frame c pte = if c.small then high8 pte else high6 pte

abbrev pub offset : Config → ℕ → ℕ
offset c vaddr = if c.small then low8 vaddr else low10 vaddr

-- `is_null` says that the pointer for the result is NULL.
pub virt_to_pte : Config → Mem → (is_null : Bool) → ℕ → Option ℕ
virt_to_pte c m true vaddr = none
virt_to_pte c m false vaddr = some (m.page_table (pte_index c vaddr))

-- `pte` as a caller reads it: both callers pass the address of a variable, and ignore the status.
abbrev pub pte_of : Config → Mem → ℕ → ℕ
pte_of c m vaddr = m.page_table (pte_index c (u16 vaddr))

abbrev pub rwx_of : ℕ → ℕ
rwx_of pte = bit_and pte rwx_bits >>> 1

abbrev pub can_read : ℕ → Bool
can_read pte =
    (rwx_of pte == r_pattern || rwx_of pte == rwx_pattern) && bit_and (pte >>> 0) 1 == valid_bit

-- `pte & ((1 << VALID_POS) >> VALID_POS) != VALID_BIT`: `!=` binds tighter than `&`.
abbrev pub can_write : ℕ → Bool
can_write pte =
    (rwx_of pte == w_pattern || rwx_of pte == rwx_pattern)
    && bit_and pte (if ((1 <<< 0) >>> 0) == valid_bit then 0 else 1) == 0

pub get_byte : Config → Mem → (is_null : Bool) → ℕ → Option ℕ
get_byte c m true vaddr = none
get_byte c m false vaddr =
    let pte = pte_of c m vaddr in
    if c.attributes && not (can_read pte)
    then none
    else some (m.main_mem (frame c pte) (offset c vaddr))

abbrev pub update {ℓ} : {A : Type ℓ} → (ℕ → A) → ℕ → A → ℕ → A
update f i v j = if i == j then v else f j

pub store_byte : Config → Mem → ℕ → ℕ → Option Mem
store_byte c m vaddr byte =
    let pte = pte_of c m vaddr in
    if c.attributes && not (can_write pte)
    then none
    else some (record m {
      main_mem =
          update m.main_mem (frame c pte)
            (update (m.main_mem (frame c pte)) (offset c vaddr) (u8 byte));
    })

abbrev pub r_shift : Config → ℕ
r_shift c = if c.small then 8 else 10

-- The entry that `init_page_table` writes at index `i`; `~VALID_BIT` is an `int`.
pub pte_init : Config → ℕ → ℕ
pte_init c i =
    let frame = u16 ((page_num c - 1 - i) <<< r_shift c) in
    if c.attributes
    then (let read_only =
          if leb 10 i && leb i 12 then u16 (bit_or frame (r_pattern <<< 1)) else frame in
        let valid = u16 (bit_or read_only valid_bit) in
        if leb 5 i && leb i 8 then u16 (bit_or valid (2 ^ 32 - 1 - valid_bit)) else valid)
    else frame

pub init_loop : Config → ℕ → ℕ → Mem → Mem
init_loop c zero i m = m
init_loop c (suc left) i m =
    init_loop c left (i + 1) (record m { page_table = update m.page_table i (pte_init c i) })

pub init_page_table : Config → Mem → Mem
init_page_table c m = init_loop c (page_num c) 0 m

pub data Outcome : Type 0 where
  passed : Outcome
  error_at : ℕ → Outcome
  errors : ℕ → Outcome

-- The loop of `test_mem` at `vaddr`, with `left` rounds to go and `n` errors counted.
pub test_loop : Config → Mem → ℕ → ℕ → ℕ → Outcome
test_loop c m zero vaddr n = if ltb 0 n then errors n else passed
test_loop c m (suc left) vaddr n = elim (get_byte c m false vaddr) [
  | none ↦ error_at vaddr
  | some byte ↦
      test_loop c m left (vaddr + 1) (if byte == u8 (bit_and vaddr 0xff) then n else n + 1)
]

pub test_mem : Config → Mem → Outcome
test_mem c m = test_loop c m (page_num c * page_size c) 0 0

-- One round of `test_mem_2`: `none` is the return of -1.
pub test_2_round : Config → Mem → ℕ → ℕ → Option Mem
test_2_round c m i vaddr =
    if i == 10 || (i == 11 || i == 12)
    then elim (get_byte c m false vaddr) [
      | none ↦ none
      | some b ↦ elim (store_byte c m vaddr 1) [ none ↦ some m | some m' ↦ none ]
    ]
    else if i == 5 || (i == 6 || (i == 7 || i == 8))
    then elim (get_byte c m false vaddr) [ none ↦ some m | some b ↦ none ]
    else elim (get_byte c m false vaddr) [ none ↦ none | some b ↦ store_byte c m vaddr 1 ]

abbrev pub test_2_vaddr : ℕ → ℕ → ℕ
test_2_vaddr i j = u16 (bit_or (i <<< 8) (bit_and (j <<< 3) 0xff))

pub test_2_inner : Config → ℕ → ℕ → ℕ → Mem → Option Mem
test_2_inner c i zero j m = some m
test_2_inner c i (suc left) j m = elim (test_2_round c m i (test_2_vaddr i j)) [
  | none ↦ none
  | some m' ↦ test_2_inner c i left (j + 1) m'
]

pub test_2_outer : Config → ℕ → ℕ → Mem → Option Mem
test_2_outer c zero i m = some m
test_2_outer c (suc left) i m = elim (test_2_inner c i (page_size c) 0 m) [
  | none ↦ none
  | some m' ↦ test_2_outer c left (i + 1) m'
]

pub test_mem_2 : Config → Mem → Option Mem
test_mem_2 c m = test_2_outer c (page_num c) 0 m

-- `main` ignores the status of `store_byte`.
pub fill_loop : Config → ℕ → ℕ → Mem → Mem
fill_loop c zero vaddr m = m
fill_loop c (suc left) vaddr m =
    fill_loop c left (vaddr + 1)
      (elim (store_byte c m vaddr (u8 (bit_and vaddr 0xff))) [ none ↦ m | some m' ↦ m' ])

pub fill : Config → Mem → Mem
fill c m = fill_loop c (page_num c * page_size c) 0 m

-- The memory of the program at its start.
abbrev pub blank : Mem
blank = record { page_table = λ i. 0; main_mem = λ i j. 0 }

-- Whether `main` reports success.
pub main_passes : Config → Bool
main_passes c =
    let m = init_page_table c blank in
    if c.attributes
    then elim (test_mem_2 c m) [ none ↦ false | some m' ↦ true ]
    else elim (test_mem c (fill c m)) [ passed ↦ true | _ ↦ false ]
