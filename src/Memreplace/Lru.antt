-- ===== src/Memreplace/Lru.antt =====
-- The choice of `replaceLRU` in memreplace.c: the page of the RAM with the oldest access time, and
-- what it is once the 8-bit time counter has wrapped.
use sye.Base.{
  ℕ, zero, suc, ◌+◌, ◌≤◌, ◌<◌, ◌≡◌, refl, true, false, Option, none, some, arith, Bool-cases, inl,
  inr, ◌⊎◌, ltb,
}
use sye.Memreplace.{Sim, tdu_at, is_valid, nb_pages, lru_round, lru_scan, lru_victim}

-- No page of the RAM was accessed after the present time.
abbrev pub InTime : Sim → Type 0
InTime s = (j : ℕ) → is_valid s j ≡ true → tdu_at s j ≤ s.tvc

-- Every page of the RAM bears a time that is not before the present, as after a wrap.
abbrev pub AllLater : Sim → Type 0
AllLater s = (j : ℕ) → is_valid s j ≡ true → s.tvc ≤ tdu_at s j

abbrev pub NoneBelow : Sim → ℕ → Type 0
NoneBelow s i = (j : ℕ) → j < i → is_valid s j ≡ false

-- Among the pages below `i`, `v` is the first of those of the RAM with the smallest access time.
pub record IsOldest (s : Sim) (i v : ℕ) : Type 0 where
  pub below : v < i
  pub valid : is_valid s v ≡ true
  pub least : (j : ℕ) → j < i → is_valid s j ≡ true → tdu_at s v ≤ tdu_at s j
  pub first : (j : ℕ) → j < v → is_valid s j ≡ true → tdu_at s v < tdu_at s j

-- The choice among the pages below `i`.
abbrev pub Chosen : Sim → ℕ → Option ℕ → Type 0
Chosen s i none = NoneBelow s i
Chosen s i (some v) = IsOldest s i v

abbrev Best : Sim → ℕ → Option ℕ × ℕ → Type 0
Best s i (none, m) = NoneBelow s i × (m ≡ s.tvc)
Best s i (some v, m) = IsOldest s i v × (m ≡ tdu_at s v)

below-suc : (j i : ℕ) → j < i + 1 → (j < i) ⊎ (j ≡ i)
below-suc j i h = omega arith

module _ (s : Sim) where
  NoneBelow-suc : (i : ℕ) → NoneBelow s i → is_valid s i ≡ false → NoneBelow s (i + 1)
  NoneBelow-suc i h e j p = elim (below-suc j i p) [ inl q ↦ h j q | inr q ↦ rw q e ]

  earliest_valid : (i : ℕ) → NoneBelow s i → is_valid s i ≡ true → IsOldest s (i + 1) i
  earliest_valid i h e = record {
    below = omega arith;
    valid = e;
    least = λ j p w. elim (below-suc j i p) [
      | inl q ↦ ground (arith, h j q)
      | inr q ↦ rw q (omega arith)
    ];
    first = λ j p w. ground (arith, h j p);
  }

  older :
      (i v : ℕ)
      → IsOldest s i v
      → is_valid s i ≡ true
      → tdu_at s i < tdu_at s v
      → IsOldest s (i + 1) i
  older i v o e lt = record {
    below = omega arith;
    valid = e;
    least = λ j p w. elim (below-suc j i p) [
      | inl q ↦ omega (arith, o.least j q w)
      | inr q ↦ rw q (omega arith)
    ];
    first = λ j p w. omega (arith, o.least j p w);
  }

  not_older :
      (i v : ℕ)
      → IsOldest s i v
      → (is_valid s i ≡ true → tdu_at s v ≤ tdu_at s i)
      → IsOldest s (i + 1) v
  not_older i v o keep = record {
    below = omega (arith, o.below);
    valid = o.valid;
    least =
        λ j p w. elim (below-suc j i p) [ inl q ↦ o.least j q w | inr q ↦ rw q (keep (rw q at w)) ];
    first = o.first;
  }

  lru_round-Best :
      InTime s → (i : ℕ) (acc : Option ℕ × ℕ) → Best s i acc → Best s (i + 1) (lru_round s i acc)
  lru_round-Best time i (none, m) b = elim (Bool-cases (is_valid s i)) [
    | inl e ↦ rw e (earliest_valid i b.0 e, ground (arith, time i e))
    | inr e ↦ rw e (NoneBelow-suc i b.0 e, b.1)
  ]
  lru_round-Best time i (some v, m) b = elim (Bool-cases (is_valid s i)) [
    | inr e ↦ rw e (not_older i v b.0 (λ w. ground arith), b.1)
    | inl e ↦ rw e (elim (Bool-cases (ltb (tdu_at s i) m)) [
      | inl l ↦ rw l (older i v b.0 e (ground arith), refl)
      | inr l ↦ rw l (not_older i v b.0 (λ w. ground arith), b.1)
    ])
  ]

  lru_scan-Best :
      InTime s
      → (left i j : ℕ) (acc : Option ℕ × ℕ) → i + left ≡ j
      → Best s i acc
      → Best s j (lru_scan s left i acc)
  unfolding lru_scan
  lru_scan-Best time zero i j acc e b = let e' : i ≡ j = omega arith in rw (← e') b
  lru_scan-Best time (suc left) i j acc e b =
      lru_scan-Best time left (i + 1) j _ (omega arith) (lru_round-Best time i acc b)

  Best-Chosen : (i : ℕ) (acc : Option ℕ × ℕ) → Best s i acc → Chosen s i acc.0
  Best-Chosen i (none, m) b = b.0
  Best-Chosen i (some v, m) b = b.0

-- While no page of the RAM bears a time later than the present, `replaceLRU` chooses the page of
-- the RAM with the smallest access time, the first of these if there are several, and chooses none
-- exactly when no page is in the RAM.
pub lru_victim-Chosen : (s : Sim) → InTime s → Chosen s nb_pages (lru_victim s)
unfolding lru_victim
lru_victim-Chosen s time = Best-Chosen s nb_pages (lru_scan s nb_pages 0 (none, s.tvc)) (
    lru_scan-Best s time nb_pages 0 nb_pages (none, s.tvc) refl
      ((λ j p. absurd (omega arith)), refl))

-- `v` is the first page of the RAM.
pub record IsFirst (s : Sim) (i v : ℕ) : Type 0 where
  pub below : v < i
  pub valid : is_valid s v ≡ true
  pub first : NoneBelow s v

abbrev Stale : Sim → ℕ → Option ℕ × ℕ → Type 0
Stale s i (none, m) = NoneBelow s i × (m ≡ s.tvc)
Stale s i (some v, m) = IsFirst s i v × (m ≡ s.tvc)

module _ (s : Sim) where
  lru_round-Stale :
      AllLater s
      → (i : ℕ) (acc : Option ℕ × ℕ) → Stale s i acc
      → Stale s (i + 1) (lru_round s i acc)
  lru_round-Stale late i (none, m) b = elim (Bool-cases (is_valid s i)) [
    | inl e ↦
        rw e (record { below = omega arith; valid = e; first = b.0 }, ground (arith, late i e))
    | inr e ↦ rw e (NoneBelow-suc s i b.0 e, b.1)
  ]
  lru_round-Stale late i (some v, m) b = elim (Bool-cases (is_valid s i)) [
    | inr e ↦
        rw e
          (record { below = omega (arith, b.0.below); valid = b.0.valid; first = b.0.first }, b.1)
    | inl e ↦
        let l : ltb (tdu_at s i) m ≡ false = ground (arith, late i e) in
        rw (e, l) (record { below = omega arith; valid = b.0.valid; first = b.0.first }, b.1)
  ]

  lru_scan-Stale :
      AllLater s
      → (left i j : ℕ) (acc : Option ℕ × ℕ) → i + left ≡ j
      → Stale s i acc
      → Stale s j (lru_scan s left i acc)
  unfolding lru_scan
  lru_scan-Stale late zero i j acc e b = let e' : i ≡ j = omega arith in rw (← e') b
  lru_scan-Stale late (suc left) i j acc e b =
      lru_scan-Stale late left (i + 1) j _ (omega arith) (lru_round-Stale late i acc b)

abbrev pub FirstOf : Sim → Option ℕ → Type 0
FirstOf s none = NoneBelow s nb_pages
FirstOf s (some v) = IsFirst s nb_pages v

Stale-FirstOf : (s : Sim) (acc : Option ℕ × ℕ) → Stale s nb_pages acc → FirstOf s acc.0
Stale-FirstOf s (none, m) b = b.0
Stale-FirstOf s (some v, m) b = b.0

-- When every page of the RAM bears a time that is not before the present, as once the 8-bit
-- counter has wrapped, replaceLRU chooses the first page of the RAM, whatever the access times
-- are, and none if the RAM is empty.
pub lru_victim-FirstOf : (s : Sim) → AllLater s → FirstOf s (lru_victim s)
unfolding lru_victim
lru_victim-FirstOf s late = Stale-FirstOf s (lru_scan s nb_pages 0 (none, s.tvc)) (
    lru_scan-Stale s late nb_pages 0 nb_pages (none, s.tvc) refl
      ((λ j p. absurd (omega arith)), refl))
