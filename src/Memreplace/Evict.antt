-- ===== src/Memreplace/Evict.antt =====
-- What `replaceLRU` and `replaceWSC` of memreplace.c have in common: one page leaves the RAM for
-- the swap.
use sye.Base.{
  ℕ, zero, suc, ◌+◌, ◌<◌, ◌≡◌, refl, true, false, ◌&&◌, ◌||◌, not, Option, none, some, List, [],
  ◌∷◌, arith, Bool-cases, inl, inr, ltb, ◌==◌, length, get_or, get_or-set, length-set, count_if,
}
use sye.Memreplace.{
  Sim, Policy, lru, wsc, page, is_valid, tdu_at, nb_pages, unload_page, lru_round, lru_scan,
  lru_victim, unload, replace_lru, replace_wsc,
}
use sye.Memreplace.Masks.{has_valid, has_swap, page_number, unload_page-Becomes, unref-Becomes}
use sye.Memreplace.Lru.{NoneBelow}
use sye.Memreplace.Wsc.{sweep, WscChoice, found, passed, IsReplaced, replace_wsc-IsReplaced}

-- The number of pages in the RAM.
unfoldable pub frames : Sim → ℕ
frames s = count_if has_valid s.page_table

-- Every entry is a byte.
abbrev pub IsBytes : Sim → Type 0
IsBytes s = (j : ℕ) → page s j < 256

-- `s'` is `s` with page `v` moved from the RAM to the swap; page numbers are kept.
pub record Evicts (s : Sim) (v : ℕ) (s' : Sim) : Type 0 where
  pub below : v < nb_pages
  pub valid : is_valid s v ≡ true
  pub residency : (j : ℕ) → is_valid s' j ≡ (is_valid s j && not (v == j))
  pub swaps : (j : ℕ) → has_swap (page s' j) ≡ (has_swap (page s j) || v == j)
  pub numbers : (j : ℕ) → page_number (page s' j) ≡ page_number (page s j)
  pub bytes : IsBytes s'
  pub same_length : length s'.page_table ≡ length s.page_table

none_valid-count_if :
    (xs : List ℕ)
    → ((j : ℕ) → j < length xs → has_valid (get_or xs j 0) ≡ false)
    → count_if has_valid xs ≡ 0
unfolding count_if
none_valid-count_if [] h = refl
none_valid-count_if (x ∷ xs) h =
    ground (arith, h 0, none_valid-count_if xs (λ j p. h (suc j) (omega arith)))

pub NoneBelow-frames :
    (s : Sim) → length s.page_table ≡ nb_pages → NoneBelow s nb_pages → frames s ≡ 0
unfolding frames
NoneBelow-frames s len empty = none_valid-count_if s.page_table (λ j p. empty j (omega arith))

-- The search of `replaceLRU` finds a page of the RAM, or there is none.
abbrev Picked : Sim → ℕ → Option ℕ → Type 0
Picked s i none = NoneBelow s i
Picked s i (some v) = (v < i) × (is_valid s v ≡ true)

module _ (s : Sim) where
  NoneBelow-suc : (i : ℕ) → NoneBelow s i → is_valid s i ≡ false → NoneBelow s (i + 1)
  NoneBelow-suc i h e j p = elim (Bool-cases (j == i)) [
    | inl q ↦ let q' : j ≡ i = ground arith in rw q' e
    | inr q ↦ h j (ground arith)
  ]

  lru_round-Picked :
      (i : ℕ) (acc : Option ℕ × ℕ) → Picked s i acc.0 → Picked s (i + 1) (lru_round s i acc).0
  lru_round-Picked i (none, m) b = elim (Bool-cases (is_valid s i)) [
    | inl e ↦ rw e (omega arith, e)
    | inr e ↦ rw e (NoneBelow-suc i b e)
  ]
  lru_round-Picked i (some v, m) b = elim (Bool-cases (is_valid s i && ltb (tdu_at s i) m)) [
    | inl e ↦ rw e (omega arith, ground arith)
    | inr e ↦ rw e (omega arith, b.1)
  ]

  lru_scan-Picked :
      (left i j : ℕ) (acc : Option ℕ × ℕ)
      → i + left ≡ j
      → Picked s i acc.0
      → Picked s j (lru_scan s left i acc).0
  unfolding lru_scan
  lru_scan-Picked zero i j acc e b = let e' : i ≡ j = omega arith in rw (← e') b
  lru_scan-Picked (suc left) i j acc e b =
      lru_scan-Picked left (i + 1) j _ (omega arith) (lru_round-Picked i acc b)

  lru_victim-Picked : Picked s nb_pages (lru_victim s)
  unfolding lru_victim
  lru_victim-Picked =
      lru_scan-Picked nb_pages 0 nb_pages (none, s.tvc) refl (λ j p. absurd (omega arith))

module _ (s : Sim) (len : length s.page_table ≡ nb_pages) (bytes : IsBytes s) where
  unload-Evicts : (v : ℕ) → v < nb_pages → is_valid s v ≡ true → Evicts s v (unload s (some v))
  unfolding unload
  unload-Evicts v below valid =
      let written = λ (j : ℕ). get_or-set s.page_table v j (unload_page (page s v)) 0 in
      let unloaded = unload_page-Becomes (page s v) (bytes v) in
      record {
        below = below;
        valid = valid;
        residency = λ j. ground (arith, written j, unloaded);
        swaps = λ j. ground (arith, written j, unloaded);
        numbers = λ j. ground (arith, written j, unloaded);
        bytes = λ j. ground (arith, written j, unloaded, bytes j);
        same_length = length-set s.page_table v (unload_page (page s v));
      }

  unload_pick-Evicts :
      0 < frames s → (v : Option ℕ) → Picked s nb_pages v → (w : ℕ) × Evicts s w (unload s v)
  unload_pick-Evicts some_frame none p = absurd (omega (arith, NoneBelow-frames s len p))
  unload_pick-Evicts some_frame (some v) p = (v, unload-Evicts v p.0 p.1)

  replace_lru-Evicts : 0 < frames s → (v : ℕ) × Evicts s v (replace_lru s)
  unfolding replace_lru
  replace_lru-Evicts some_frame = unload_pick-Evicts some_frame (lru_victim s) (lru_victim-Picked s)

  choice-valid : (i v : ℕ) → WscChoice s i (some v) → (v < nb_pages) × (is_valid s v ≡ true)
  choice-valid i v (found e h c _) = (ground arith, ground arith)
  choice-valid i v (passed _ _ f) = (f.below, f.valid)

  choice-none : (i : ℕ) → WscChoice s i none → NoneBelow s nb_pages
  choice-none i (found e h c _) = cc
  choice-none i (passed _ _ f) = f

  swept_fields :
      (i j : ℕ)
      → (has_valid (sweep s i j) ≡ has_valid (page s j))
        × (has_swap (sweep s i j) ≡ has_swap (page s j))
        × (page_number (sweep s i j) ≡ page_number (page s j))
        × (sweep s i j < 256)
  swept_fields i j = ground (arith, unref-Becomes (page s j) (bytes j), bytes j)

  replaced-Evicts :
      0 < frames s
      → (s' : Sim) (i : ℕ) (v : Option ℕ) → IsReplaced s i v s'
      → (w : ℕ) × Evicts s w s'
  replaced-Evicts some_frame s' i none r =
      absurd (omega (arith, NoneBelow-frames s len (choice-none i r.choice)))
  replaced-Evicts some_frame s' i (some v) r =
      let swept = λ (j : ℕ). swept_fields i j in
      let unloaded = λ (j : ℕ). unload_page-Becomes (sweep s i j) (swept j).3 in
      let ok = choice-valid i v r.choice in
      (
        v,
        record {
          below = ok.0;
          valid = ok.1;
          residency = λ j. ground (arith, r.pages j, swept j, unloaded j);
          swaps = λ j. ground (arith, r.pages j, swept j, unloaded j);
          numbers = λ j. ground (arith, r.pages j, swept j, unloaded j);
          bytes = λ j. ground (arith, r.pages j, swept j, unloaded j);
          same_length = r.same_length;
        },
      )

  replace_wsc-Evicts : 0 < frames s → (v : ℕ) × Evicts s v (replace_wsc s)
  replace_wsc-Evicts some_frame =
      let (i, v, r) = replace_wsc-IsReplaced s (omega arith) in
      replaced-Evicts some_frame (replace_wsc s) i v r

abbrev pub evict : Policy → Sim → Sim
evict lru s = replace_lru s
evict wsc s = replace_wsc s

-- With a page in the RAM, either policy moves exactly one page of the RAM to the swap.
pub evict-Evicts :
    (p : Policy) (s : Sim)
    → length s.page_table ≡ nb_pages
    → IsBytes s
    → 0 < frames s
    → (v : ℕ) × Evicts s v (evict p s)
evict-Evicts lru s len bytes some_frame = replace_lru-Evicts s len bytes some_frame
evict-Evicts wsc s len bytes some_frame = replace_wsc-Evicts s len bytes some_frame
