-- ===== src/Memreplace/Trace.antt =====
-- `replaceLRU` of memreplace.c against the history of the accesses: up to the wrap of the 8-bit
-- counter, the access times are the times of the last accesses, and the page that is evicted is
-- the one whose last access is the oldest.
use sye.Base.{
  ℕ, zero, suc, ◌+◌, ◌≤◌, ◌<◌, ◌≡◌, refl, ap, inl, inr, Bool, true, false, ◌&&◌, Option, none, some,
  List, [], ◌∷◌, arith, ltb, leb, ◌==◌, if◌then◌else◌, Option-cases, length, get_or, bit_and, u8,
  get_or-set, length-set,
}
use sye.Base.{get_or-replicate}
use sye.Memreplace.{
  unload, valid_bit_mask, Sim, lru, page, tdu_at, is_valid, nb_pages, inc_compteur, replace_lru,
  before_load, access, enter, run, start, lru_victim, stamp_tdu, update_tdu_loop, update_tdu,
}
use sye.Memreplace.Masks.{has_ref}
use sye.Memreplace.Evict.{frames, NoneBelow-frames}
use sye.Memreplace.Access.{
  length-stamp_tdu, tvc-stamp_tdu, stamp_tdu-page_table, update_tdu_loop-page_table,
  update_tdu_loop-tvc,
}
use sye.Memreplace.Invariant.{tdu-unload, run-IsTable, start-IsTable}
use sye.Memreplace.Lru.{InTime, Chosen, lru_victim-Chosen}

-- The position of the last access of page `p` in a history, the oldest access first.
unfoldable pub last_index : ℕ → List ℕ → Option ℕ
last_index p [] = none
last_index p (n ∷ ns) = elim (last_index p ns) [
  | some k ↦ some (k + 1)
  | none ↦ if n == p then some 0 else none
]

abbrev pub or_else : Option ℕ → ℕ → ℕ → ℕ
or_else none base d = d
or_else (some k) base d = base + k

-- The time of the last access of a page; 0 for a page that was never accessed.
pub last_time : List ℕ → ℕ → ℕ
last_time ns p = or_else (last_index p ns) 0 0

abbrev pub AllPages : List ℕ → Type 0
AllPages [] = Unit
AllPages (n ∷ ns) = (n < nb_pages) × AllPages ns

last_index-lt : (p : ℕ) (ns : List ℕ) (k : ℕ) → last_index p ns ≡ some k → k < length ns
unfolding last_index
last_index-lt p [] k e = cc
last_index-lt p (n ∷ ns) k e = elim (Option-cases (last_index p ns)) [
  | inl o ↦ ground arith
  | inr (j, o) ↦ ground (arith, last_index-lt p ns j o)
]

tvc-unload : (s : Sim) (v : Option ℕ) → (unload s v).tvc ≡ s.tvc
unfolding unload
tvc-unload s none = refl
tvc-unload s (some v) = refl

-- The counters when room has been made, on either branch of the test.
same_times :
    (s : Sim) (b : Bool)
    → ((if b then replace_lru s else s).tdu ≡ s.tdu)
      × ((if b then replace_lru s else s).tvc ≡ s.tvc)
unfolding replace_lru
same_times s true = (tdu-unload s (lru_victim s), tvc-unload s (lru_victim s))
same_times s false = (refl, refl)

-- The access times and the counter after one access.
access-times :
    (s : Sim) (n p : ℕ)
    → n < length s.tdu
    → (tdu_at (access lru s n) p ≡ (if n == p then s.tvc else tdu_at s p))
      × ((access lru s n).tvc ≡ u8 (s.tvc + 1))
      × (length (access lru s n).tdu ≡ length s.tdu)
unfolding access before_load inc_compteur
access-times s n p h =
    let same = same_times s (bit_and (page s n) valid_bit_mask == 0) in
    rw (same.0, same.1) (get_or-set s.tdu n p s.tvc 0 h, refl, length-set s.tdu n s.tvc)

unfoldable pub inputs : List ℕ → List (Option ℕ)
inputs [] = []
inputs (n ∷ ns) = some n ∷ inputs ns

enter-times :
    (s : Sim) (n p : ℕ)
    → n < nb_pages
    → n < length s.tdu
    → (tdu_at (enter lru s n) p ≡ (if n == p then s.tvc else tdu_at s p))
      × ((enter lru s n).tvc ≡ u8 (s.tvc + 1))
      × (length (enter lru s n).tdu ≡ length s.tdu)
unfolding enter
enter-times s n p small h =
    let e : ltb n nb_pages ≡ true = ground arith in rw e (access-times s n p h)

run-times :
    (ns : List ℕ) (s : Sim) (p : ℕ)
    → AllPages ns
    → length s.tdu ≡ nb_pages
    → s.tvc + length ns < 256
    → (tdu_at (run lru s (inputs ns)) p ≡ or_else (last_index p ns) s.tvc (tdu_at s p))
      × ((run lru s (inputs ns)).tvc ≡ s.tvc + length ns)
unfolding run inputs last_index
run-times [] s p all len fits = (refl, omega arith)
run-times (n ∷ ns) s p all len fits =
    let here = enter-times s n p all.0 (omega arith) in
    let counter : (enter lru s n).tvc ≡ s.tvc + 1 = omega (arith, here) in
    let rest = run-times ns (enter lru s n) p all.1 (omega (arith, here)) (omega arith) in
    (ground (arith, rest, here), omega (arith, rest))

start_counters : (p : ℕ) → (tdu_at start p ≡ 0) × (start.tvc ≡ 0)
unfolding start
start_counters p = (get_or-replicate nb_pages p 0, refl)

module _ (ns : List ℕ) (all : AllPages ns) (short : length ns < 256) where
  -- The tables after the accesses `ns` from the start of the program.
  abbrev after : Sim
  after = run lru start (inputs ns)

  after-times : (p : ℕ) → (tdu_at after p ≡ last_time ns p) × (after.tvc ≡ length ns)
  unfolding last_time
  after-times p =
      let t = run-times ns start p all start-IsTable.0.times (omega (arith, start_counters p)) in
      ground (arith, t, start_counters p)

  last_time-le : (p : ℕ) → last_time ns p ≤ length ns
  unfolding last_time
  last_time-le p = elim (Option-cases (last_index p ns)) [
    | inl o ↦ rw o (omega arith)
    | inr (k, o) ↦ rw o (omega (arith, last_index-lt p ns k o))
  ]

  after-InTime : InTime after
  after-InTime j valid = omega (arith, after-times j, last_time-le j)

-- The page `v` of the RAM has the oldest last access.
pub record IsLeastRecent (ns : List ℕ) (s : Sim) (v : ℕ) : Type 0 where
  pub below : v < nb_pages
  pub valid : is_valid s v ≡ true
  pub least : (j : ℕ) → j < nb_pages → is_valid s j ≡ true → last_time ns v ≤ last_time ns j

Chosen-LeastRecent :
    (ns : List ℕ) (s : Sim) (c : Option ℕ)
    → length s.page_table ≡ nb_pages
    → 0 < frames s
    → ((p : ℕ) → tdu_at s p ≡ last_time ns p)
    → Chosen s nb_pages c
    → (v : ℕ) × (c ≡ some v) × IsLeastRecent ns s v
Chosen-LeastRecent ns s none len some_frame times ch =
    absurd (omega (arith, NoneBelow-frames s len ch))
Chosen-LeastRecent ns s (some v) len some_frame times ch = (
  v,
  refl,
  record {
    below = ch.below;
    valid = ch.valid;
    least = λ j h valid. omega (arith, ch.least j h valid, times v, times j);
  },
)

-- After at most 255 accesses, of pages that exist, from the start of the program, replaceLRU
-- chooses a page of the RAM, and no page of the RAM was accessed less recently (a page that was
-- never accessed counts as accessed at time 0).
pub lru_victim-IsLeastRecent :
    (ns : List ℕ)
    → AllPages ns
    → length ns < 256
    → let s = run lru start (inputs ns) in (v : ℕ) × (lru_victim s ≡ some v) × IsLeastRecent ns s v
lru_victim-IsLeastRecent ns all short =
    let s = run lru start (inputs ns) in
    let (t, same) =
      run-IsTable lru (inputs ns) start start-IsTable.0 (omega (arith, start-IsTable.1)) in
    Chosen-LeastRecent ns s (lru_victim s) t.pages (omega (arith, same, start-IsTable.1))
      (λ p. (after-times ns all short p).0) (lru_victim-Chosen s (after-InTime ns all short))

stamp-tdu_at :
    (s : Sim) (i j : ℕ)
    → i < length s.tdu
    → tdu_at (stamp_tdu i s) j ≡ (if i == j && has_ref (page s j) then s.tvc else tdu_at s j)
unfolding stamp_tdu
stamp-tdu_at s i j h = ground (arith, get_or-set s.tdu i j s.tvc 0 h)

update_tdu_loop-tdu_at :
    (left i j : ℕ) (s : Sim)
    → i + left ≤ length s.tdu
    → tdu_at (update_tdu_loop left i s) j
      ≡ (if leb i j && ltb j (i + left) && has_ref (page s j) then s.tvc else tdu_at s j)
unfolding update_tdu_loop
update_tdu_loop-tdu_at zero i j s fits = ground arith
update_tdu_loop-tdu_at (suc left) i j s fits = ground (
  arith,
  update_tdu_loop-tdu_at left (i + 1) j (stamp_tdu i s) (omega (arith, length-stamp_tdu i s)),
  stamp-tdu_at s i j (omega arith),
  tvc-stamp_tdu i s,
  ap (λ (pt : List ℕ). get_or pt j 0) (stamp_tdu-page_table i s),
)

-- `updateTDU` gives every referenced page the present time, keeps the time of every other page,
-- and changes neither the page table nor the counter.
update_tdu_lem :
    (s : Sim) (j : ℕ)
    → length s.tdu ≡ nb_pages
    → j < nb_pages
    → (tdu_at (update_tdu s) j ≡ (if has_ref (page s j) then s.tvc else tdu_at s j))
      × ((update_tdu s).page_table ≡ s.page_table)
      × ((update_tdu s).tvc ≡ s.tvc)
unfolding update_tdu
update_tdu_lem s j len h = (
  ground (arith, update_tdu_loop-tdu_at nb_pages 0 j s (omega arith)),
  update_tdu_loop-page_table nb_pages 0 s,
  update_tdu_loop-tvc nb_pages 0 s,
)
