-- ===== src/Memsim/Address.antt =====
-- The addresses of memsim.c: the fields that the macros cut out, and the table that
-- `init_page_table` writes.
use sye.Base.{
  ℕ, zero, suc, ◌+◌, ◌-◌, ◌*◌, ◌/◌, ◌%◌, ◌^◌, ◌≤◌, ◌<◌, ◌≡◌, refl, sym, ap, ap₂, ◌∙◌, ◌≢◌, ◌⊎◌, inl,
  inr, Bool, true, false, not, ◌&&◌, ◌||◌, Option, none, some, List, [], ◌∷◌, ◌++◌, map, arith, ltb,
  leb, ◌==◌, if◌then◌else◌, Bool-cases, Option-cases, length, get_elem?, get_or, set, take, drop,
  replicate, bit_and, bit_or, u8, u16, u32, ◌<<<◌, ◌>>>◌, get_or-set, length-set, count_if, one_if,
  count_if-set, bit_and-0xff, bit_and-0x3ff, bit_and-0x7,
}
use sye.Memsim.{
  Config, Mem, page_num, high8, low8, high6, low10, pte_index, frame, offset, update, pte_init,
  init_loop, init_page_table,
}

pub high8_lem : (x : ℕ) → high8 x ≡ x / 256 % 256
unfolding high8
high8_lem x = bit_and-0xff (x >>> 8)

pub low8_lem : (x : ℕ) → low8 x ≡ x % 256
unfolding low8
low8_lem x = bit_and-0xff x

pub high6_lem : (x : ℕ) → high6 x ≡ x / 8 % 8
unfolding high6
high6_lem x = bit_and-0x7 (x >>> 3)

pub low10_lem : (x : ℕ) → low10 x ≡ x % 1024
unfolding low10
low10_lem x = bit_and-0x3ff x

pub ruleset fields = (arith, high8_lem, low8_lem, high6_lem, low10_lem)

-- The loop writes the entries from `i` on, and no other.
init_loop-page_table :
    (c : Config) (left i j : ℕ) (m : Mem)
    → (init_loop c left i m).page_table j
      ≡ (if leb i j && ltb j (i + left) then pte_init c j else m.page_table j)
unfolding init_loop
init_loop-page_table c zero i j m = ground arith
init_loop-page_table c (suc left) i j m = ground (
  arith,
  init_loop-page_table c left (i + 1) j
      (record m { page_table = update m.page_table i (pte_init c i) }),
)

init_loop-main_mem :
    (c : Config) (left i : ℕ) (m : Mem) → (init_loop c left i m).main_mem ≡ m.main_mem
unfolding init_loop
init_loop-main_mem c zero i m = refl
init_loop-main_mem c (suc left) i m =
    init_loop-main_mem c left (i + 1)
      (record m { page_table = update m.page_table i (pte_init c i) })

-- The page table that the configuration asks for.
abbrev pub IsMapped : Config → Mem → Type 0
IsMapped c m = (i : ℕ) → i < page_num c → m.page_table i ≡ pte_init c i

pub init-IsMapped : (c : Config) (m : Mem) → IsMapped c (init_page_table c m)
unfolding init_page_table
init-IsMapped c m i h = ground (arith, init_loop-page_table c (page_num c) 0 i m)

-- The index of an entry, the frame and the offset that an access forms are in range of the two
-- arrays, for every address and entry.
pub index_bounds :
    (c : Config) (x : ℕ)
    → (pte_index c x < page_num c)
      × (frame c x < page_num c)
      × (offset c x < (if c.small then 256 else 1024))
index_bounds c x = ground (arith, high8_lem x, low8_lem x, high6_lem x, low10_lem x)

-- Without attributes, entry `i` is the number of the frame, counted from the other end.
pub pte_init_plain :
    (small : Bool) (i : ℕ)
    → i < page_num (record { small = small; attributes = false })
    → pte_init (record { small = small; attributes = false }) i
      ≡ (if small then (255 - i) * 256 else (63 - i) * 1024)
unfolding pte_init
pte_init_plain true i h = omega arith
pte_init_plain false i h = omega arith
