-- ===== src/Memsim/Tests.antt =====
-- memsim.c on concrete accesses, and its theorems at the tables of `init_page_table`.
use sye.Base.{ℕ, ◌≡◌, refl, true, false, not, ◌||◌, none, some, arith, ◌==◌, if◌then◌else◌, u8, u16}
use sye.Memsim.{Config, Mem, blank, init_page_table, get_byte, store_byte, test_mem_2, pte_init}
use sye.Memsim.Address.{IsMapped, init-IsMapped}
use sye.Memsim.Flat.{plain, store_byte-flat, store_byte_aliases}
use sye.Memsim.Rights.{
  guarded, is_some, is_invalid, is_read_only, page_of, page_rights, store_byte_invalid,
}
use sye.Memsim.Selftest.{test_mem_2-passes}

abbrev mapped : Config → Mem
mapped c = init_page_table c blank

-- Entry 3 of each table, and the entries 5 and 11 with attributes.
entries :
    (pte_init (plain true) 3 ≡ 0xfc00)
    × (pte_init (plain false) 3 ≡ 0xf000)
    × (pte_init guarded 3 ≡ 0xfc01)
    × (pte_init guarded 5 ≡ 0xffff)
    × (pte_init guarded 11 ≡ 0xf403)
unfolding pte_init
entries = (refl, refl, refl, refl, refl)

store_byte-flat_example :
    (m' : Mem) × (store_byte (plain true) (mapped (plain true)) 0x1234 0xab ≡ some m')
    × IsMapped (plain true) m'
    × ((w : ℕ)
        → get_byte (plain true) m' false w ≡ (
            if u16 0x1234 == u16 w
            then some (u8 0xab)
            else get_byte (plain true) (mapped (plain true)) false w))
store_byte-flat_example =
    store_byte-flat (mapped (plain true)) 0x1234 0xab (init-IsMapped (plain true) blank)

store_byte_aliases_example :
    (m' : Mem) × (store_byte (plain false) (mapped (plain false)) 0x0005 7 ≡ some m')
    × (get_byte (plain false) m' false 0x0405 ≡ some (u8 7))
store_byte_aliases_example =
    store_byte_aliases (mapped (plain false)) 0x0005 0x0405 7 (init-IsMapped (plain false) blank)
      (omega arith)

page_rights_example :
    (is_some (get_byte guarded (mapped guarded) false 0x0b10) ≡ not (is_invalid (page_of 0x0b10)))
    × (is_some (store_byte guarded (mapped guarded) 0x0b10 1)
        ≡ not (is_invalid (page_of 0x0b10) || is_read_only (page_of 0x0b10)))
page_rights_example = page_rights (mapped guarded) 0x0b10 1 (init-IsMapped guarded blank)

-- Every entry of the blank memory is 0: all rights, not valid.
store_byte_invalid_example :
    (get_byte guarded blank false 0x0b10 ≡ none)
    × (is_some (store_byte guarded blank 0x0b10 1) ≡ true)
store_byte_invalid_example = store_byte_invalid blank 0x0b10 1 refl refl

test_mem_2-passes_example :
    (m' : Mem) × (test_mem_2 guarded (mapped guarded) ≡ some m') × IsMapped guarded m'
test_mem_2-passes_example = test_mem_2-passes (mapped guarded) (init-IsMapped guarded blank)
