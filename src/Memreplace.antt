-- ===== src/Memreplace.antt =====
-- l7-lru-wsc/usr/src/memreplace.c: a simulator of two page replacement policies, LRU and WSClock.
-- The three globals of the file are the record `Sim`; a function that writes them returns the new
-- record. `page_to_swap == -1` is `none`. The GUI calls and the printing are left out, but for
-- what `print_memory` lists.
pub mod Masks
pub mod Lru
pub mod Wsc
pub mod Evict
pub mod Access
pub mod Invariant
pub mod Trace
mod Tests
use sye.Base.{
  ℕ, zero, suc, ◌+◌, ◌-◌, ◌^◌, Bool, true, false, not, ◌&&◌, ◌||◌, Option, none, some, List, [],
  ◌∷◌, bit_and, bit_or, u8, ltb, ◌==◌, if◌then◌else◌, length, get_or, set, replicate, ◌<<<◌,
}

abbrev pub delta : ℕ
delta = 2

abbrev pub nb_pages : ℕ
nb_pages = 16

abbrev pub page_nb_mask : ℕ
page_nb_mask = 0x00f0

abbrev pub ref_bit_mask : ℕ
ref_bit_mask = 0x0004

abbrev pub swap_bit_mask : ℕ
swap_bit_mask = 0x0002

abbrev pub valid_bit_mask : ℕ
valid_bit_mask = 0x0001

pub check_mask : ℕ → ℕ → Bool
check_mask x mask = bit_and x mask == mask

-- `x |= mask` on a `uint8_t`.
pub set_mask : ℕ → ℕ → ℕ
set_mask x mask = u8 (bit_or x mask)

-- `x &= ~mask` on a `uint8_t`: `~` is taken on an `int`, of 32 bits.
pub unset_mask : ℕ → ℕ → ℕ
unset_mask x mask = u8 (bit_and x (2 ^ 32 - 1 - mask))

pub unload_page : ℕ → ℕ
unfolding set_mask unset_mask
unload_page page = set_mask (unset_mask page valid_bit_mask) swap_bit_mask

pub record Sim : Type 0 where
  pub page_table : List ℕ
  pub tdu : List ℕ
  pub tvc : ℕ

abbrev pub page : Sim → ℕ → ℕ
page s i = get_or s.page_table i 0

abbrev pub tdu_at : Sim → ℕ → ℕ
tdu_at s i = get_or s.tdu i 0

abbrev pub is_valid : Sim → ℕ → Bool
is_valid s i = check_mask (page s i) valid_bit_mask

-- One round of the search of `replaceLRU`, on `page_to_swap` and `min`.
abbrev pub lru_round : Sim → ℕ → Option ℕ × ℕ → Option ℕ × ℕ
lru_round s i (none, min) =
    if is_valid s i then (some i, if ltb (tdu_at s i) min then tdu_at s i else min) else (none, min)
lru_round s i (some v, min) =
    if is_valid s i && ltb (tdu_at s i) min then (some i, tdu_at s i) else (some v, min)

-- The loop at index `i`, with `NB_PAGES - i` rounds left.
pub lru_scan : Sim → ℕ → ℕ → Option ℕ × ℕ → Option ℕ × ℕ
lru_scan s zero i acc = acc
lru_scan s (suc left) i acc = lru_scan s left (i + 1) (lru_round s i acc)

pub unload : Sim → Option ℕ → Sim
unload s none = s
unload s (some v) = record s { page_table = set s.page_table v (unload_page (page s v)) }

pub lru_victim : Sim → Option ℕ
lru_victim s = (lru_scan s nb_pages 0 (none, s.tvc)).0

pub replace_lru : Sim → Sim
replace_lru s = unload s (lru_victim s)

-- `tdu[no_page] = tvc++`
pub inc_compteur : Sim → ℕ → Sim
inc_compteur s no_page = record s { tdu = set s.tdu no_page s.tvc; tvc = u8 (s.tvc + 1) }

-- `tvc - tdu[i] > DELTA`, an `int` subtraction
abbrev pub is_old : Sim → ℕ → Bool
is_old s i = ltb (tdu_at s i + delta) s.tvc

abbrev pub save_first : Option ℕ → ℕ → Option ℕ
save_first none i = some i
save_first (some v) i = some v

abbrev pub unref_page : Sim → ℕ → Sim
unref_page s i = record s { page_table = set s.page_table i (unset_mask (page s i) ref_bit_mask) }

-- One round of the loop of `replaceWSC`: whether it breaks, `page_to_swap` and the tables.
pub wsc_round : ℕ → Option ℕ → Sim → Bool × Option ℕ × Sim
wsc_round i v s =
    if is_valid s i
    then if check_mask (page s i) ref_bit_mask
      then (false, save_first v i, unref_page s i)
      else if is_old s i
      then (true, some i, s)
      else (false, save_first v i, s)
    else (false, v, s)

pub wsc_scan : ℕ → ℕ → Option ℕ → Sim → Option ℕ × Sim
wsc_scan zero i v s = (v, s)
wsc_scan (suc left) i v s =
    let (stop, v', s') = wsc_round i v s in
    let rest = wsc_scan left (i + 1) v' s' in if stop then (v', s') else rest

pub replace_wsc : Sim → Sim
replace_wsc s = let (v, s') = wsc_scan nb_pages 0 none s in unload s' v

pub stamp_tdu : ℕ → Sim → Sim
stamp_tdu i s =
    if check_mask (page s i) ref_bit_mask then record s { tdu = set s.tdu i s.tvc } else s

pub update_tdu_loop : ℕ → ℕ → Sim → Sim
update_tdu_loop zero i s = s
update_tdu_loop (suc left) i s = update_tdu_loop left (i + 1) (stamp_tdu i s)

pub update_tdu : Sim → Sim
update_tdu s = update_tdu_loop nb_pages 0 s

pub init_page_loop : ℕ → ℕ → List ℕ → List ℕ
init_page_loop zero i pt = pt
init_page_loop (suc left) i pt =
    init_page_loop left (i + 1) (set pt i (set_mask (get_or pt i 0) (bit_and i 0xf <<< 4)))

pub set_at : List ℕ → ℕ → ℕ → List ℕ
set_at pt i mask = set pt i (set_mask (get_or pt i 0) mask)

pub init_page_table : List ℕ → List ℕ
init_page_table pt =
    set_at
      (set_at (set_at (set_at (init_page_loop nb_pages 0 pt) 0 valid_bit_mask) 1 valid_bit_mask) 2
        valid_bit_mask)
      3 swap_bit_mask

-- The globals at the start of the program, all 0.
abbrev pub zeroed : Sim
zeroed = record { page_table = replicate nb_pages 0; tdu = replicate nb_pages 0; tvc = 0 }

pub start : Sim
unfolding init_page_table set_at init_page_loop set_mask
start = record zeroed { page_table = init_page_table (replicate nb_pages 0) }

-- What `print_memory` lists: the pages in RAM, and those in the swap.
pub pages_that : (ℕ → Bool) → ℕ → ℕ → List ℕ
pages_that p zero i = []
pages_that p (suc left) i = let rest = pages_that p left (i + 1) in if p i then i ∷ rest else rest

pub print_memory : Sim → List ℕ × List ℕ
print_memory s = (
  pages_that (λ i. not (bit_and (page s i) valid_bit_mask == 0)) nb_pages 0,
  pages_that
      (λ i. bit_and (page s i) valid_bit_mask == 0 && not (bit_and (page s i) swap_bit_mask == 0))
      nb_pages 0,
)

-- Set the reference bit and the valid bit, then unset the swap bit.
pub load_page : ℕ → ℕ
unfolding set_mask unset_mask
load_page p = unset_mask (set_mask p (bit_or valid_bit_mask ref_bit_mask)) swap_bit_mask

pub data Policy : Type 0 where
  lru wsc : Policy

-- The body of the loop of `main` for a page number in range.
pub before_load : Policy → Sim → ℕ → Sim
before_load lru s n =
    inc_compteur (if bit_and (page s n) valid_bit_mask == 0 then replace_lru s else s) n
before_load wsc s n =
    let s' = update_tdu (if bit_and (page s n) valid_bit_mask == 0 then replace_wsc s else s) in
    record s' { tvc = u8 (s'.tvc + 1) }

pub access : Policy → Sim → ℕ → Sim
access p s n =
    let s' = before_load p s n in
    record s' { page_table = set s'.page_table n (load_page (page s' n)) }

-- `main` from the page numbers that `ask_user_page_no` returns (`none` for -1, a line that is no
-- number) until it asks to leave. A number out of range changes nothing.
pub enter : Policy → Sim → ℕ → Sim
enter p s n = if ltb n nb_pages then access p s n else s

pub run : Policy → Sim → List (Option ℕ) → Sim
run p s [] = s
run p s (none ∷ inputs) = run p s inputs
run p s (some n ∷ inputs) = run p (enter p s n) inputs
