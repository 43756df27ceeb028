-- ===== src/Memsim/Rights.antt =====
-- memsim.c with the attributes of step 3: which pages can be read and written.
use sye.Base.{
  bit_and-zero, ℕ, ◌/◌, ◌%◌, ◌<◌, ◌≡◌, refl, ap, ◌∙◌, Bool, true, false, not, ◌&&◌, ◌||◌, Option,
  none, some, arith, leb, ◌==◌, if◌then◌else◌, bit_and, u16, all_below, all_below_sound,
}
use sye.Memsim.{
  Config, Mem, get_byte, store_byte, pte_of, pte_init, can_read, can_write, valid_bit, rwx_of,
  rwx_pattern, high8,
}
use sye.Memsim.Address.{IsMapped, index_bounds, high8_lem}

abbrev pub guarded : Config
guarded = record { small = true; attributes = true }

-- The pages that the source makes invalid, and those that it makes read-only.
abbrev pub is_invalid : ℕ → Bool
is_invalid i = leb 5 i && leb i 8

abbrev pub is_read_only : ℕ → Bool
is_read_only i = leb 10 i && leb i 12

abbrev same_bool : Bool → Bool → Bool
same_bool a b = if a then b else not b

rights_table :
    all_below 256 (λ i.
      same_bool (can_read (pte_init guarded i)) (not (is_invalid i))
      && same_bool (can_write (pte_init guarded i)) (not (is_invalid i || is_read_only i))
      && bit_and (pte_init guarded i) valid_bit == valid_bit)
    ≡ true
unfolding all_below pte_init
rights_table = refl

pub pte_init_rights :
    (i : ℕ)
    → i < 256
    → (can_read (pte_init guarded i) ≡ not (is_invalid i))
      × (can_write (pte_init guarded i) ≡ not (is_invalid i || is_read_only i))
pte_init_rights i h = let t = all_below_sound 256 _ i rights_table h in (ground arith, ground arith)

-- Every entry that `init_page_table` writes has its valid bit set, also those of the pages 5 to 8.
pte_init_valid : (i : ℕ) → i < 256 → bit_and (pte_init guarded i) valid_bit ≡ valid_bit
pte_init_valid i h = let t = all_below_sound 256 _ i rights_table h in ground arith

abbrev pub is_some {ℓ} : {A : Type ℓ} → Option A → Bool
is_some none = false
is_some (some a) = true

abbrev pub page_of : ℕ → ℕ
page_of v = v / 256 % 256

pub pte_guarded :
    (m : Mem) (v : ℕ) → IsMapped guarded m → pte_of guarded m v ≡ pte_init guarded (page_of v)
pte_guarded m v mapped =
    mapped (high8 (u16 v)) (index_bounds guarded (u16 v)).0
    ∙ ap (pte_init guarded) (omega (arith, high8_lem (u16 v)))

is_some_unless {ℓ} : {A : Type ℓ} (b : Bool) (a : A) → is_some (if not b then none else some a) ≡ b
is_some_unless true a = refl
is_some_unless false a = refl

pub get-can_read :
    (m : Mem) (v : ℕ) → is_some (get_byte guarded m false v) ≡ can_read (pte_of guarded m v)
unfolding get_byte
get-can_read m v = is_some_unless (can_read (pte_of guarded m v)) _

pub store-can_write :
    (m : Mem) (v b : ℕ) → is_some (store_byte guarded m v b) ≡ can_write (pte_of guarded m v)
unfolding store_byte
store-can_write m v b = is_some_unless (can_write (pte_of guarded m v)) _

-- With the attributes, over the table of `init_page_table`, a read succeeds exactly on the pages
-- other than 5 to 8, and a store exactly on the pages other than 5 to 8 and 10 to 12.
pub page_rights :
    (m : Mem) (v byte : ℕ)
    → IsMapped guarded m
    → (is_some (get_byte guarded m false v) ≡ not (is_invalid (page_of v)))
      × (is_some (store_byte guarded m v byte)
          ≡ not (is_invalid (page_of v) || is_read_only (page_of v)))
page_rights m v byte mapped =
    let r = pte_init_rights (page_of v) (omega arith) in
    let e = pte_guarded m v mapped in
    (get-can_read m v ∙ ap can_read e ∙ r.0, store-can_write m v byte ∙ ap can_write e ∙ r.1)

-- With the attributes and pages of 256 bytes, an address whose entry has all rights and a valid
-- bit of 0 is refused by every read and accepted by every store.
pub store_byte_invalid :
    (m : Mem) (v byte : ℕ)
    → rwx_of (pte_of guarded m v) ≡ rwx_pattern
    → bit_and (pte_of guarded m v) 1 ≡ 0
    → (get_byte guarded m false v ≡ none) × (is_some (store_byte guarded m v byte) ≡ true)
store_byte_invalid m v byte all_rights invalid = (
  unread (get_byte guarded m false v) (get-can_read m v ∙ unreadable),
  store-can_write m v byte ∙ ground (arith, bit_and-zero (pte_of guarded m v)),
)
  where
    unread : (o : Option ℕ) → is_some o ≡ false → o ≡ none
    unread none h = refl
    unread (some a) h = cc

    unreadable : can_read (pte_of guarded m v) ≡ false
    unreadable = ground arith
