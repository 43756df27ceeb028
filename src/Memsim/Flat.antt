-- ===== src/Memsim/Flat.antt =====
-- memsim.c without attributes: with pages of 256 bytes it is a flat memory of 64 KB; with pages of
-- 1024 bytes every address falls into the same frame.
use sye.Base.{
  ℕ, ◌-◌, ◌*◌, ◌/◌, ◌%◌, ◌≡◌, refl, ap, ◌∙◌, Bool, true, false, ◌&&◌, some, arith, ◌==◌,
  if◌then◌else◌, u8, u16,
}
use sye.Memsim.{Config, Mem, high8, high6, pte_of, frame, offset, update, get_byte, store_byte}
use sye.Memsim.Address.{
  IsMapped, index_bounds, pte_init_plain, high8_lem, low8_lem, high6_lem, low10_lem,
}

abbrev pub plain : Bool → Config
plain small = record { small = small; attributes = false }

-- Where the byte of an address lies.
abbrev pub frame_of : Config → Mem → ℕ → ℕ
frame_of c m v = frame c (pte_of c m v)

abbrev pub stored : Config → Mem → ℕ → ℕ → Mem
stored c m v byte = record m {
  main_mem =
      update m.main_mem (frame_of c m v)
        (update (m.main_mem (frame_of c m v)) (offset c v) (u8 byte));
}

store_plain :
    (small : Bool) (m : Mem) (v byte : ℕ)
    → store_byte (plain small) m v byte ≡ some (stored (plain small) m v byte)
unfolding store_byte
store_plain small m v byte = refl

pub get_plain :
    (small : Bool) (m : Mem) (v : ℕ)
    → get_byte (plain small) m false v
      ≡ some (m.main_mem (frame_of (plain small) m v) (offset (plain small) v))
unfolding get_byte
get_plain small m v = refl

get-stored :
    (small : Bool) (m : Mem) (v w byte : ℕ)
    → get_byte (plain small) (stored (plain small) m v byte) false w ≡ (
        if frame_of (plain small) m v == frame_of (plain small) m w
          && offset (plain small) v == offset (plain small) w
        then some (u8 byte)
        else get_byte (plain small) m false w)
unfolding get_byte
get-stored small m v w byte = ground arith

-- The two addresses meet: the same 16 bits, or the same 10 bits.
abbrev pub same_cell : Bool → ℕ → ℕ → Bool
same_cell small v w = if small then u16 v == u16 w else v % 1024 == w % 1024

frame_small :
    (m : Mem) (v : ℕ) → IsMapped (plain true) m → frame_of (plain true) m v ≡ 255 - v / 256 % 256
frame_small m v mapped =
    let i = high8 (u16 v) in
    rw
      (
        mapped i (index_bounds (plain true) (u16 v)).0,
        pte_init_plain true i (index_bounds (plain true) (u16 v)).0,
      )
      (omega (arith, high8_lem ((255 - i) * 256), high8_lem (u16 v)))

frame_large : (m : Mem) (v : ℕ) → IsMapped (plain false) m → frame_of (plain false) m v ≡ 0
frame_large m v mapped =
    let i = high6 (u16 v) in
    rw
      (
        mapped i (index_bounds (plain false) (u16 v)).0,
        pte_init_plain false i (index_bounds (plain false) (u16 v)).0,
      )
      (omega (arith, high6_lem ((63 - i) * 1024)))

cell_lem :
    (small : Bool) (m : Mem) (v w : ℕ)
    → IsMapped (plain small) m
    → (frame_of (plain small) m v == frame_of (plain small) m w
        && offset (plain small) v == offset (plain small) w)
      ≡ same_cell small v w
cell_lem true m v w mapped =
    rw (frame_small m v mapped, frame_small m w mapped, low8_lem v, low8_lem w) (ground arith)
cell_lem false m v w mapped =
    rw (frame_large m v mapped, frame_large m w mapped, low10_lem v, low10_lem w) refl

-- What a client of the memory sees of a store.
pub record IsStored (small : Bool) (m : Mem) (v byte : ℕ) (m' : Mem) : Type 0 where
  pub returns : store_byte (plain small) m v byte ≡ some m'
  pub mapped : IsMapped (plain small) m'
  pub reads :
      (w : ℕ)
      → get_byte (plain small) m' false w
        ≡ (if same_cell small v w then some (u8 byte) else get_byte (plain small) m false w)

pub store-IsStored :
    (small : Bool) (m : Mem) (v byte : ℕ)
    → IsMapped (plain small) m
    → IsStored small m v byte (stored (plain small) m v byte)
store-IsStored small m v byte mapped = record {
  returns = store_plain small m v byte;
  mapped = mapped;
  reads = λ w.
      get-stored small m v w byte
      ∙ ap (λ (b : Bool). if b then some (u8 byte) else get_byte (plain small) m false w)
          (cell_lem small m v w mapped);
}

-- With pages of 256 bytes and no attributes, over the table of `init_page_table`, every store
-- succeeds and keeps the table, and a read then returns the byte stored last at an address with
-- the same 16 low bits, and what it returned before at any other address.
pub store_byte-flat :
    (m : Mem) (v byte : ℕ)
    → IsMapped (plain true) m
    → (m' : Mem) × (store_byte (plain true) m v byte ≡ some m')
      × IsMapped (plain true) m'
      × ((w : ℕ)
          → get_byte (plain true) m' false w
            ≡ (if u16 v == u16 w then some (u8 byte) else get_byte (plain true) m false w))
store_byte-flat m v byte mapped =
    let s = store-IsStored true m v byte mapped in
    (stored (plain true) m v byte, s.returns, s.mapped, s.reads)

-- With pages of 1024 bytes, over the table of init_page_table, a store at one address succeeds
-- and is read back at every address with the same 10 low bits.
pub store_byte_aliases :
    (m : Mem) (v w byte : ℕ)
    → IsMapped (plain false) m
    → v % 1024 ≡ w % 1024
    → (m' : Mem) × (store_byte (plain false) m v byte ≡ some m')
      × (get_byte (plain false) m' false w ≡ some (u8 byte))
store_byte_aliases m v w byte mapped same =
    let s = store-IsStored false m v byte mapped in
    (stored (plain false) m v byte, s.returns, s.reads w ∙ ground arith)
