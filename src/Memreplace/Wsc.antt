-- ===== src/Memreplace/Wsc.antt =====
-- The choice of `replaceWSC` in memreplace.c: which page it unloads, and which reference bits it
-- clears on its way.
use sye.Base.{
  ℕ, zero, suc, ◌∙◌, ◌+◌, ◌≤◌, ◌<◌, ◌≡◌, refl, Bool, true, false, ◌&&◌, not, Option, none, some,
  arith, Bool-cases, inl, inr, ◌⊎◌, ltb, ◌==◌, if◌then◌else◌, length, get_or-set, length-set,
}
use sye.Memreplace.{
  Sim, page, unref_page, is_valid, is_old, nb_pages, unset_mask, unload_page, ref_bit_mask,
  save_first, wsc_round, wsc_scan, unload, replace_wsc,
}
use sye.Memreplace.Masks.{has_ref}
use sye.Memreplace.Lru.{NoneBelow, IsFirst, FirstOf}

-- A page that the clock hand stops at: in the RAM, not referenced since the last sweep, and old.
abbrev pub is_candidate : Sim → ℕ → Bool
is_candidate s j = is_valid s j && not (has_ref (page s j)) && is_old s j

-- The entry of page `j` when the hand has passed the pages below `i`.
abbrev pub sweep : Sim → ℕ → ℕ → ℕ
sweep s i j =
    if ltb j i && is_valid s j && has_ref (page s j)
    then unset_mask (page s j) ref_bit_mask
    else page s j

abbrev pub is_page : Option ℕ → ℕ → Bool
is_page none j = false
is_page (some v) j = v == j

abbrev pub NoCandidateBelow : Sim → ℕ → Type 0
NoCandidateBelow s i = (j : ℕ) → j < i → is_candidate s j ≡ false

-- `s'` is `s` with the reference bits of the pages below `i` cleared.
pub record IsSwept (s : Sim) (i : ℕ) (s' : Sim) : Type 0 where
  pub pages : (j : ℕ) → page s' j ≡ sweep s i j
  pub same_length : length s'.page_table ≡ length s.page_table
  pub same_tdu : s'.tdu ≡ s.tdu
  pub same_tvc : s'.tvc ≡ s.tvc

abbrev FirstBelow : Sim → ℕ → Option ℕ → Type 0
FirstBelow s i none = NoneBelow s i
FirstBelow s i (some v) = IsFirst s i v

-- Why `replaceWSC` chose `v`, with the hand at `i` when it stopped.
pub data WscChoice (s : Sim) (i : ℕ) (v : Option ℕ) : Type 0 where
  found :
      v ≡ some i → i < nb_pages → is_candidate s i ≡ true → NoCandidateBelow s i → WscChoice s i v
  passed : i ≡ nb_pages → NoCandidateBelow s nb_pages → FirstOf s v → WscChoice s i v

below-suc : (j i : ℕ) → j < i + 1 → (j < i) ⊎ (j ≡ i)
below-suc j i h = omega arith

module _ (s : Sim) where
  NoCandidate-suc :
      (i : ℕ) → NoCandidateBelow s i → is_candidate s i ≡ false → NoCandidateBelow s (i + 1)
  NoCandidate-suc i h e j p = elim (below-suc j i p) [ inl q ↦ h j q | inr q ↦ rw q e ]

  None-suc : (i : ℕ) → NoneBelow s i → is_valid s i ≡ false → NoneBelow s (i + 1)
  None-suc i h e j p = elim (below-suc j i p) [ inl q ↦ h j q | inr q ↦ rw q e ]

  save_first-First :
      (i : ℕ) (v : Option ℕ)
      → FirstBelow s i v
      → is_valid s i ≡ true
      → FirstBelow s (i + 1) (save_first v i)
  save_first-First i none b e = record { below = omega arith; valid = e; first = b }
  save_first-First i (some w) b e = record {
    below = omega (arith, b.below);
    valid = b.valid;
    first = b.first;
  }

  skip-First :
      (i : ℕ) (v : Option ℕ) → FirstBelow s i v → is_valid s i ≡ false → FirstBelow s (i + 1) v
  skip-First i none b e = None-suc i b e
  skip-First i (some w) b e = record {
    below = omega (arith, b.below);
    valid = b.valid;
    first = b.first;
  }

  -- The sweep goes on past a page whose entry it keeps, or clears.
  IsSwept-keep :
      (i : ℕ) (s' : Sim)
      → IsSwept s i s'
      → (is_valid s i && has_ref (page s i)) ≡ false
      → IsSwept s (i + 1) s'
  IsSwept-keep i s' w e = record {
    pages = λ j. ground (arith, w.pages j);
    same_length = w.same_length;
    same_tdu = w.same_tdu;
    same_tvc = w.same_tvc;
  }

  IsSwept-clear :
      (i : ℕ) (s' : Sim)
      → IsSwept s i s'
      → i < length s.page_table
      → (is_valid s i && has_ref (page s i)) ≡ true
      → IsSwept s (i + 1) (unref_page s' i)
  IsSwept-clear i s' w inside e = record {
    pages = λ j. ground (
      arith,
      w.pages j,
      w.pages i,
      w.same_length,
      get_or-set s'.page_table i j (unset_mask (page s' i) ref_bit_mask) 0,
    );
    same_length = length-set s'.page_table i (unset_mask (page s' i) ref_bit_mask) ∙ w.same_length;
    same_tdu = w.same_tdu;
    same_tvc = w.same_tvc;
  }

  same_page : (i : ℕ) (s' : Sim) → IsSwept s i s' → page s' i ≡ page s i
  same_page i s' w = ground (arith, w.pages i)

  same_is_valid : (i : ℕ) (s' : Sim) → IsSwept s i s' → is_valid s' i ≡ is_valid s i
  same_is_valid i s' w = rw (same_page i s' w)

  same_has_ref : (i : ℕ) (s' : Sim) → IsSwept s i s' → has_ref (page s' i) ≡ has_ref (page s i)
  same_has_ref i s' w = rw (same_page i s' w)

  same_is_old : (i : ℕ) (s' : Sim) → IsSwept s i s' → is_old s' i ≡ is_old s i
  same_is_old i s' w = rw (w.same_tdu, w.same_tvc)

  -- What is known when the hand has reached page `i` without a stop.
  record Passed (i : ℕ) (v : Option ℕ) (s' : Sim) : Type 0 where
    swept : IsSwept s i s'
    clear : NoCandidateBelow s i
    first : FirstBelow s i v

  abbrev Done : Option ℕ × Sim → Type 0
  Done r = (i : ℕ) × WscChoice s i r.0 × IsSwept s i r.1

  FirstBelow-FirstOf : (v : Option ℕ) → FirstBelow s nb_pages v → FirstOf s v
  FirstBelow-FirstOf none b = b
  FirstBelow-FirstOf (some w) b = b

  wsc_scan-Done :
      nb_pages ≤ length s.page_table
      → (left i : ℕ) (v : Option ℕ) (s' : Sim) → i + left ≡ nb_pages
      → Passed i v s'
      → Done (wsc_scan left i v s')
  unfolding wsc_scan wsc_round
  wsc_scan-Done fits zero i v s' e p =
      let e' : i ≡ nb_pages = omega arith in
      (i, passed e' (rw (← e') p.clear) (FirstBelow-FirstOf v (rw (← e') p.first)), p.swept)
  wsc_scan-Done fits (suc left) i v s' e p = elim (Bool-cases (is_valid s i)) [
    | inr out ↦ rw (same_is_valid i s' p.swept ∙ out) (
        wsc_scan-Done fits left (i + 1) v s' (omega arith) (record {
          swept = IsSwept-keep i s' p.swept (rw out);
          clear = NoCandidate-suc i p.clear (rw out);
          first = skip-First i v p.first out;
        }))
    | inl val ↦ rw (same_is_valid i s' p.swept ∙ val) (elim (Bool-cases (has_ref (page s i))) [
      | inl ref ↦ rw (same_has_ref i s' p.swept ∙ ref) (
          wsc_scan-Done fits left (i + 1) (save_first v i) (unref_page s' i) (omega arith) (record {
            swept = IsSwept-clear i s' p.swept (omega arith) (rw (val, ref));
            clear = NoCandidate-suc i p.clear (rw (val, ref));
            first = save_first-First i v p.first val;
          }))
      | inr unref ↦ rw (same_has_ref i s' p.swept ∙ unref) (elim (Bool-cases (is_old s i)) [
        | inl old ↦
            rw (same_is_old i s' p.swept ∙ old)
              (i, found refl (omega arith) (rw (val, unref, old)) p.clear, p.swept)
        | inr young ↦ rw (same_is_old i s' p.swept ∙ young) (
            wsc_scan-Done fits left (i + 1) (save_first v i) s' (omega arith) (record {
              swept = IsSwept-keep i s' p.swept (rw (val, unref));
              clear = NoCandidate-suc i p.clear (rw (val, unref, young));
              first = save_first-First i v p.first val;
            }))
      ])
    ])
  ]

-- What `replaceWSC` leaves: the swept tables with the chosen page unloaded.
pub record IsReplaced (s : Sim) (i : ℕ) (v : Option ℕ) (s' : Sim) : Type 0 where
  pub choice : WscChoice s i v
  pub pages : (j : ℕ) → page s' j ≡ (if is_page v j then unload_page (sweep s i j) else sweep s i j)
  pub same_length : length s'.page_table ≡ length s.page_table
  pub same_tdu : s'.tdu ≡ s.tdu
  pub same_tvc : s'.tvc ≡ s.tvc

choice-below : (s : Sim) (i v : ℕ) → WscChoice s i (some v) → v < nb_pages
choice-below s i v (found e h _ _) = ground arith
choice-below s i v (passed _ _ f) = f.below

unload-IsReplaced :
    (s : Sim) (i : ℕ) (r : Option ℕ × Sim)
    → nb_pages ≤ length s.page_table
    → WscChoice s i r.0
    → IsSwept s i r.1
    → IsReplaced s i r.0 (unload r.1 r.0)
unfolding unload
unload-IsReplaced s i (none, s') fits c w = record {
  choice = c;
  pages = w.pages;
  same_length = w.same_length;
  same_tdu = w.same_tdu;
  same_tvc = w.same_tvc;
}
unload-IsReplaced s i (some v, s') fits c w = record {
  choice = c;
  pages = λ j. ground (
    arith,
    choice-below s i v c,
    w.pages j,
    w.pages v,
    w.same_length,
    get_or-set s'.page_table v j (unload_page (page s' v)) 0,
  );
  same_length = length-set s'.page_table v (unload_page (page s' v)) ∙ w.same_length;
  same_tdu = w.same_tdu;
  same_tvc = w.same_tvc;
}

pub replace_wsc-IsReplaced :
    (s : Sim)
    → nb_pages ≤ length s.page_table
    → (i : ℕ) × (v : Option ℕ) × IsReplaced s i v (replace_wsc s)
unfolding replace_wsc
replace_wsc-IsReplaced s fits =
    let r = wsc_scan nb_pages 0 none s in
    let (i, c, w) = wsc_scan-Done s fits nb_pages 0 none s refl (record {
      swept = record {
        pages = λ j. ground arith;
        same_length = refl;
        same_tdu = refl;
        same_tvc = refl;
      };
      clear = λ j p. absurd (omega arith);
      first = λ j p. absurd (omega arith);
    }) in
    (i, r.0, unload-IsReplaced s i r fits c w)
