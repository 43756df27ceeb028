-- ===== src/Memreplace/Access.antt =====
-- One access of `main` in memreplace.c, under either policy: what it does to the RAM and the swap,
-- and the invariant of the tables that it keeps.
use sye.Base.{
  inr, inl, Bool-cases, ℕ, zero, suc, ◌+◌, ◌*◌, ◌<◌, ◌≡◌, refl, true, false, ◌&&◌, ◌||◌, not, List,
  arith, ◌==◌, if◌then◌else◌, length, get_or, set, get_or-set, length-set, ◌∙◌, ap,
}
use sye.Memreplace.{
  Sim, Policy, lru, wsc, page, is_valid, nb_pages, load_page, stamp_tdu, update_tdu_loop,
  update_tdu, inc_compteur, before_load, access,
}
use sye.Memreplace.Masks.{has_valid, has_swap, has_ref, page_number, load_page-Becomes, valid-zero}
use sye.Memreplace.Evict.{evict-Evicts, Evicts, frames, IsBytes, evict}

-- The tables have their sizes and hold bytes, entry `i` bears the number `i`, and no page is in
-- the RAM and in the swap at once.
pub record IsTable (s : Sim) : Type 0 where
  pub pages : length s.page_table ≡ nb_pages
  pub times : length s.tdu ≡ nb_pages
  pub bytes : IsBytes s
  pub counter : s.tvc < 256
  pub numbers : (i : ℕ) → i < nb_pages → page_number (page s i) ≡ i * 16
  pub apart : (i : ℕ) → (has_valid (page s i) && has_swap (page s i)) ≡ false

pub stamp_tdu-page_table : (i : ℕ) (s : Sim) → (stamp_tdu i s).page_table ≡ s.page_table
unfolding stamp_tdu
stamp_tdu-page_table i s = ground arith

pub length-stamp_tdu : (i : ℕ) (s : Sim) → length (stamp_tdu i s).tdu ≡ length s.tdu
unfolding stamp_tdu
length-stamp_tdu i s = ground (arith, length-set s.tdu i s.tvc)

pub tvc-stamp_tdu : (i : ℕ) (s : Sim) → (stamp_tdu i s).tvc ≡ s.tvc
unfolding stamp_tdu
tvc-stamp_tdu i s = ground arith

pub update_tdu_loop-page_table :
    (left i : ℕ) (s : Sim) → (update_tdu_loop left i s).page_table ≡ s.page_table
unfolding update_tdu_loop
update_tdu_loop-page_table zero i s = refl
update_tdu_loop-page_table (suc left) i s =
    update_tdu_loop-page_table left (i + 1) (stamp_tdu i s) ∙ stamp_tdu-page_table i s

pub length-update_tdu_loop :
    (left i : ℕ) (s : Sim) → length (update_tdu_loop left i s).tdu ≡ length s.tdu
unfolding update_tdu_loop
length-update_tdu_loop zero i s = refl
length-update_tdu_loop (suc left) i s =
    length-update_tdu_loop left (i + 1) (stamp_tdu i s) ∙ length-stamp_tdu i s

pub update_tdu_loop-tvc : (left i : ℕ) (s : Sim) → (update_tdu_loop left i s).tvc ≡ s.tvc
unfolding update_tdu_loop
update_tdu_loop-tvc zero i s = refl
update_tdu_loop-tvc (suc left) i s =
    update_tdu_loop-tvc left (i + 1) (stamp_tdu i s) ∙ tvc-stamp_tdu i s

-- The tables before the accessed page is loaded.
pub made_room : Policy → Sim → ℕ → Sim
made_room p s n = if is_valid s n then s else evict p s

before_load-page_table :
    (p : Policy) (s : Sim) (n : ℕ) → (before_load p s n).page_table ≡ (made_room p s n).page_table
unfolding before_load made_room inc_compteur update_tdu
before_load-page_table lru s n = ground (arith, valid-zero (page s n))
before_load-page_table wsc s n =
    update_tdu_loop-page_table nb_pages 0 _ ∙ ground (arith, valid-zero (page s n))

-- Where the pages are after an access of page `n`.
pub data Served (s : Sim) (n : ℕ) (s' : Sim) : Type 0 where
  hit : is_valid s n ≡ true → ((j : ℕ) → is_valid s' j ≡ is_valid s j) → Served s n s'
  miss :
      (v : ℕ)
      → is_valid s n ≡ false
      → v < nb_pages
      → is_valid s v ≡ true
      → ((j : ℕ) → is_valid s' j ≡ (n == j || (is_valid s j && not (v == j))))
      → has_swap (page s' v) ≡ true
      → Served s n s'

-- The page table of a `room` in which page `n` is loaded.
pub record Loads (room : Sim) (n : ℕ) (s' : Sim) : Type 0 where
  pub valid : (j : ℕ) → is_valid s' j ≡ (n == j || is_valid room j)
  pub swap : (j : ℕ) → has_swap (page s' j) ≡ (has_swap (page room j) && not (n == j))
  pub number : (j : ℕ) → page_number (page s' j) ≡ page_number (page room j)
  pub byte : (j : ℕ) → page s' j < 256
  pub ref : has_ref (page s' n) ≡ true
  pub same_length : length s'.page_table ≡ length room.page_table

access-page_table :
    (p : Policy) (s : Sim) (n : ℕ)
    → (access p s n).page_table
      ≡ set (made_room p s n).page_table n (load_page (page (made_room p s n) n))
unfolding access
access-page_table p s n = rw (before_load-page_table p s n)

access-Loads :
    (p : Policy) (s : Sim) (n : ℕ)
    → n < length (made_room p s n).page_table
    → IsBytes (made_room p s n)
    → Loads (made_room p s n) n (access p s n)
access-Loads p s n inside bytes =
    let room = made_room p s n in
    let written = λ (j : ℕ).
      ap (λ (pt : List ℕ). get_or pt j 0) (access-page_table p s n)
      ∙ get_or-set room.page_table n j (load_page (page room n)) 0 inside in
    let loaded = load_page-Becomes (page room n) (bytes n) in
    record {
      valid = λ j. ground (arith, written j, loaded);
      swap = λ j. ground (arith, written j, loaded);
      number = λ j. ground (arith, written j, loaded);
      byte = λ j. ground (arith, written j, loaded, bytes j);
      ref = ground (arith, written n, loaded);
      same_length =
          ap length (access-page_table p s n)
          ∙ length-set room.page_table n (load_page (page room n));
    }

-- The room for page `n` is the old tables, or these with one page evicted.
pub data Prepared (p : Policy) (s : Sim) (n : ℕ) : Type 0 where
  kept : is_valid s n ≡ true → made_room p s n ≡ s → Prepared p s n
  freed : (v : ℕ) → is_valid s n ≡ false → Evicts s v (made_room p s n) → Prepared p s n

pub made_room-Prepared : (p : Policy) (s : Sim) (n : ℕ) → IsTable s → 0 < frames s → Prepared p s n
unfolding made_room
made_room-Prepared p s n t some_frame = elim (Bool-cases (is_valid s n)) [
  | inl e ↦ kept e (rw e)
  | inr e ↦ let (v, out) = evict-Evicts p s t.pages t.bytes some_frame in freed v e (rw e out)
]

pub Prepared-Loads :
    (p : Policy) (s : Sim) (n : ℕ)
    → IsTable s
    → n < nb_pages
    → Prepared p s n
    → Loads (made_room p s n) n (access p s n)
Prepared-Loads p s n t inside (kept e same) =
    access-Loads p s n (rw same (omega (arith, t.pages))) (rw same t.bytes)
Prepared-Loads p s n t inside (freed v e out) =
    access-Loads p s n (omega (arith, t.pages, out.same_length)) out.bytes

Prepared-Served :
    (p : Policy) (s : Sim) (n : ℕ)
    → Prepared p s n
    → Loads (made_room p s n) n (access p s n)
    → Served s n (access p s n)
Prepared-Served p s n (kept e same) l = hit e (λ j. ground (arith, (rw same at (l.valid j))))
Prepared-Served p s n (freed v e out) l =
    miss v e out.below out.valid (λ j. ground (arith, l.valid j, out.residency j))
      (ground (arith, l.swap v, out.swaps v, out.valid))

-- From well formed tables with a page in the RAM, an access of an existing page under either
-- policy moves no page if the page is in the RAM; otherwise it brings the page into the RAM and
-- moves exactly one other page, one of the RAM, to the swap.
pub access-Served :
    (p : Policy) (s : Sim) (n : ℕ)
    → IsTable s
    → 0 < frames s
    → n < nb_pages
    → Served s n (access p s n)
access-Served p s n t some_frame inside =
    let room = made_room-Prepared p s n t some_frame in
    Prepared-Served p s n room (Prepared-Loads p s n t inside room)
