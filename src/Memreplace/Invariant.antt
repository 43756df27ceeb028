-- ===== src/Memreplace/Invariant.antt =====
-- The invariant of the tables of memreplace.c over a whole session: `IsTable` holds from
-- `init_page_table` on, and the number of pages in the RAM never changes.
use sye.Base.{
  ℕ, zero, suc, ◌*◌, ◌≤◌, ◌<◌, ◌≡◌, refl, ap, ◌∙◌, inl, inr, true, false, not, ◌&&◌, Option, none,
  some, List, [], ◌∷◌, arith, ltb, ◌==◌, Bool-cases, length, get_or, set, get_or-set, length-set,
  count_if, count_if-set,
}
use sye.Memreplace.Masks.{page_number, has_swap}
use sye.Memreplace.Wsc.{replace_wsc-IsReplaced}
use sye.Memreplace.Access.{
  Prepared, kept, freed, Loads, made_room, made_room-Prepared, Prepared-Loads, access-Served,
  length-update_tdu_loop,
}
use sye.Memreplace.Evict.{evict}
use sye.Base.{all_below, all_below_sound, dec_lt}
use sye.Memreplace.{
  page, unload, Policy, lru, wsc, replace_lru, lru_victim, access, enter, before_load, inc_compteur,
  update_tdu, run, start, nb_pages, check_mask, Sim,
}
use sye.Memreplace.Masks.{has_valid}
use sye.Memreplace.Evict.{frames}
use sye.Memreplace.Access.{miss, hit, Served, IsTable}

count_if_ext :
    (xs ys : List ℕ)
    → length xs ≡ length ys
    → ((j : ℕ) → j < length xs → has_valid (get_or xs j 0) ≡ has_valid (get_or ys j 0))
    → count_if has_valid xs ≡ count_if has_valid ys
unfolding count_if
count_if_ext [] [] e h = refl
count_if_ext [] (y ∷ ys) e h = absurd (omega arith)
count_if_ext (x ∷ xs) [] e h = absurd (omega arith)
count_if_ext (x ∷ xs) (y ∷ ys) e h =
    ground (arith, h 0, count_if_ext xs ys (omega arith) (λ j p. h (suc j) (omega arith)))

-- Page `v` leaves the list of entries and page `n` enters it.
exchanged : List ℕ → ℕ → ℕ → List ℕ
exchanged pt v n = set (set pt v 0) n 1

count_if-exchanged :
    (pt : List ℕ) (v n : ℕ)
    → v < length pt
    → n < length pt
    → has_valid (get_or pt v 0) ≡ true
    → has_valid (get_or pt n 0) ≡ false
    → count_if has_valid (exchanged pt v n) ≡ count_if has_valid pt
unfolding exchanged check_mask
count_if-exchanged pt v n hv hn ev en = ground (
  arith,
  count_if-set has_valid pt v 0 0 hv,
  count_if-set has_valid (set pt v 0) n 1 0 (omega (arith, length-set pt v 0)),
  get_or-set pt v n 0 0 hv,
)

Served-frames :
    (s : Sim) (n : ℕ) (s' : Sim)
    → length s.page_table ≡ nb_pages
    → length s'.page_table ≡ nb_pages
    → n < nb_pages
    → Served s n s'
    → frames s' ≡ frames s
unfolding frames
Served-frames s n s' len len' inside (hit e same) =
    count_if_ext s'.page_table s.page_table (omega arith) (λ j p. same j)
Served-frames s n s' len len' inside (miss v en hv ev same sw) =
    count_if_ext s'.page_table (exchanged s.page_table v n)
      (unfold exchanged in
        omega (arith, length-set (set s.page_table v 0) n 1, length-set s.page_table v 0))
      (λ j p.
        unfold exchanged check_mask in
        ground (
          arith,
          same j,
          get_or-set (set s.page_table v 0) n j 1 0 (omega (arith, length-set s.page_table v 0)),
          get_or-set s.page_table v j 0 0 (omega arith),
        ))
    ∙ count_if-exchanged s.page_table v n (omega arith) (omega arith) ev en

pub tdu-unload : (s : Sim) (v : Option ℕ) → (unload s v).tdu ≡ s.tdu
unfolding unload
tdu-unload s none = refl
tdu-unload s (some v) = refl

tdu-evict : (p : Policy) (s : Sim) → nb_pages ≤ length s.page_table → (evict p s).tdu ≡ s.tdu
unfolding replace_lru
tdu-evict lru s fits = tdu-unload s (lru_victim s)
tdu-evict wsc s fits = let (i, v, r) = replace_wsc-IsReplaced s fits in r.same_tdu

length-tdu-access :
    (p : Policy) (s : Sim) (n : ℕ)
    → nb_pages ≤ length s.page_table
    → length (access p s n).tdu ≡ length s.tdu
unfolding access before_load inc_compteur update_tdu
length-tdu-access lru s n fits = ground (
  arith,
  tdu-evict lru s fits,
  length-set (replace_lru s).tdu n (replace_lru s).tvc,
  length-set s.tdu n s.tvc,
)
length-tdu-access wsc s n fits =
    length-update_tdu_loop nb_pages 0 _ ∙ ground (arith, ap length (tdu-evict wsc s fits))

tvc-access : (p : Policy) (s : Sim) (n : ℕ) → (access p s n).tvc < 256
unfolding access before_load inc_compteur
tvc-access lru s n = omega arith
tvc-access wsc s n = omega arith

-- The facts of `IsTable` on entries, from those of the room and of the loading.
module _ (p : Policy) (s : Sim) (n : ℕ) (t : IsTable s) where
  made_room_facts :
      Prepared p s n
      → (j : ℕ)
      → (page_number (page (made_room p s n) j) ≡ page_number (page s j))
        × ((has_valid (page (made_room p s n) j) && has_swap (page (made_room p s n) j)) ≡ false)
  made_room_facts (kept e same) j = rw same (refl, t.apart j)
  made_room_facts (freed v e out) j =
      (out.numbers j, ground (arith, out.residency j, out.swaps j, t.apart j))

  length-made_room : Prepared p s n → length (made_room p s n).page_table ≡ nb_pages
  length-made_room (kept e same) = rw same t.pages
  length-made_room (freed v e out) = out.same_length ∙ t.pages

  Loads-IsTable : Prepared p s n → Loads (made_room p s n) n (access p s n) → IsTable (access p s n)
  Loads-IsTable room l = record {
    pages = l.same_length ∙ length-made_room room;
    times = length-tdu-access p s n (omega (arith, t.pages)) ∙ t.times;
    bytes = l.byte;
    counter = tvc-access p s n;
    numbers = λ i h. l.number i ∙ (made_room_facts room i).0 ∙ t.numbers i h;
    apart = λ i. ground (arith, l.valid i, l.swap i, made_room_facts room i);
  }

-- An access of a page that exists keeps the tables well formed, and as many pages in the RAM.
pub access-IsTable :
    (p : Policy) (s : Sim) (n : ℕ)
    → IsTable s
    → 0 < frames s
    → n < nb_pages
    → IsTable (access p s n) × (frames (access p s n) ≡ frames s)
access-IsTable p s n t some_frame inside =
    let room = made_room-Prepared p s n t some_frame in
    let t' = Loads-IsTable p s n t room (Prepared-Loads p s n t inside room) in
    (
      t',
      Served-frames s n (access p s n) t.pages t'.pages inside
          (access-Served p s n t some_frame inside),
    )

-- From well formed tables with a page in the RAM, whatever is typed, the tables stay well formed
-- (sizes, bytes, page numbers, no page in the RAM and the swap at once) and the number of pages
-- in the RAM does not change.
pub run-IsTable :
    (p : Policy) (inputs : List (Option ℕ)) (s : Sim)
    → IsTable s
    → 0 < frames s
    → IsTable (run p s inputs) × (frames (run p s inputs) ≡ frames s)
unfolding run enter
run-IsTable p [] s t some_frame = (t, refl)
run-IsTable p (none ∷ inputs) s t some_frame = run-IsTable p inputs s t some_frame
run-IsTable p (some n ∷ inputs) s t some_frame = elim (Bool-cases (ltb n nb_pages)) [
  | inl e ↦
      let (t', same) = access-IsTable p s n t some_frame (ground arith) in
      let (t'', same') = run-IsTable p inputs (access p s n) t' (rw same some_frame) in
      rw e (t'', same' ∙ same)
  | inr e ↦ rw e (run-IsTable p inputs s t some_frame)
]

-- The program starts with well formed tables and three pages in the RAM.
start_entries :
    all_below nb_pages (λ i.
      page_number (page start i) == i * 16
      && ltb (page start i) 256
      && not (has_valid (page start i) && has_swap (page start i)))
    ≡ true
unfolding all_below start check_mask
start_entries = refl

start_bounds :
    (length start.page_table ≡ nb_pages) × (length start.tdu ≡ nb_pages) × (start.tvc ≡ 0)
unfolding start
start_bounds = (refl, refl, refl)

get_or_beyond : (xs : List ℕ) (i : ℕ) → length xs ≤ i → get_or xs i 0 ≡ 0
get_or_beyond [] i h = refl
get_or_beyond (x ∷ xs) zero h = absurd (omega arith)
get_or_beyond (x ∷ xs) (suc i) h = get_or_beyond xs i (omega arith)

beyond_start : (i : ℕ) → nb_pages ≤ i → page start i ≡ 0
beyond_start i h = get_or_beyond start.page_table i (omega (arith, start_bounds))

pub start-IsTable : IsTable start × (frames start ≡ 3)
unfolding check_mask count_if
start-IsTable = (
  record {
    pages = start_bounds.0;
    times = start_bounds.1;
    bytes = λ i. elim (dec_lt i nb_pages) [
      | yes h ↦ ground (arith, all_below_sound nb_pages _ i start_entries h)
      | no h ↦ rw (beyond_start i (omega arith)) (omega arith)
    ];
    counter = omega (arith, start_bounds);
    numbers = λ i h. ground (arith, all_below_sound nb_pages _ i start_entries h);
    apart = λ i. elim (dec_lt i nb_pages) [
      | yes h ↦ ground (arith, all_below_sound nb_pages _ i start_entries h)
      | no h ↦ rw (beyond_start i (omega arith))
    ];
  },
  unfold start frames in refl,
)
