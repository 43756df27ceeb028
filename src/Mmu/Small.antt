-- ===== src/Mmu/Small.antt =====
-- The entries that `l2_loop` of Mmu.antt writes.
use sye.Base.{
  ℕ, zero, suc, ◌+◌, ◌-◌, ◌*◌, ◌≤◌, ◌<◌, ◌≡◌, refl, ap, ◌∙◌, ◌≢◌, ◌⊎◌, inl, inr, Bool, true, false,
  some, arith, ◌^◌, u32_below, ◌==◌, Bool-cases,
}
use sye.Mmu.{Macros, page_size, write, l2_loop}

-- `table'` is `table` after `n` entries from `p` on were written, for the pages from `pfn` on.
pub record Filled (h : Macros) (p n pfn : ℕ) (nocache : Bool) (table table' : ℕ → ℕ) : Type 0 where
  pub inside :
      (j : ℕ) → p ≤ j → j < p + n → table' j ≡ h.small_entry ((pfn + (j - p)) * page_size) nocache
  pub outside : (j : ℕ) → (j < p) ⊎ (p + n ≤ j) → table' j ≡ table j

pub write-here {ℓ} : {A : Type ℓ} (f : ℕ → A) (i : ℕ) (v : A) → write f i v i ≡ v
write-here f i v = let same : (i == i) ≡ true = ground arith in rw same refl

pub write-other {ℓ} : {A : Type ℓ} (f : ℕ → A) (i j : ℕ) (v : A) → i ≢ j → write f i v j ≡ f j
write-other f i j v apart = let differs : (i == j) ≡ false = ground arith in rw differs refl

l2_loop-suc :
    (h : Macros) (n fuel p addr end pfn : ℕ) (nocache : Bool) (table : ℕ → ℕ)
    → n < fuel
    → end ≡ addr + suc n * page_size
    → end < 2 ^ 32
    → (pfn + suc n) * page_size ≤ 2 ^ 32
    → (table' : ℕ → ℕ) × (l2_loop h fuel p addr end pfn nocache table ≡ some table')
      × Filled h p (suc n) pfn nocache table table'
unfolding l2_loop
l2_loop-suc h n zero p addr end pfn nocache table enough e low phys_low = absurd (omega arith)
l2_loop-suc h zero (suc fuel) p addr end pfn nocache table enough e low phys_low =
    let next = u32_below (addr + page_size) (omega arith) in
    let frame = u32_below (pfn * page_size) (omega arith) in
    let stop : (addr + page_size == end) ≡ true = ground arith in
    let page = h.small_entry (pfn * page_size) nocache in
    (
      write table p page,
      rw (next, frame, stop) refl,
      record {
        inside = λ j a b.
            let here : j ≡ p = omega arith in
            let first : pfn + (p - p) ≡ pfn = omega arith in
            rw (here, first) (write-here table p page);
        outside = λ j away.
            write-other table p j page
              (λ q. elim away [ inl a ↦ omega arith | inr a ↦ omega arith ]);
      },
    )
l2_loop-suc h (suc n) (suc fuel) p addr end pfn nocache table enough e low phys_low =
    let next = u32_below (addr + page_size) (omega arith) in
    let frame = u32_below (pfn * page_size) (omega arith) in
    let go_on : (addr + page_size == end) ≡ false = ground arith in
    let step : l2_loop h (suc fuel) p addr end pfn nocache table
        ≡ l2_loop h fuel (p + 1) (addr + page_size) end (pfn + 1) nocache
            (write table p (h.small_entry (pfn * page_size) nocache)) =
      rw (next, frame, go_on) refl in
    let page = h.small_entry (pfn * page_size) nocache in
    let (table', run, r) =
      l2_loop-suc h n fuel (p + 1) (addr + page_size) end (pfn + 1) nocache (write table p page)
        (omega arith) (omega arith) low (omega arith) in
    (
      table',
      step ∙ run,
      record {
        inside = λ j a b. elim (Bool-cases (j == p)) [
          | inl t ↦
              let here : j ≡ p = ground arith in
              let first : pfn + (p - p) ≡ pfn = omega arith in
              rw (here, first) (r.outside p (inl (omega arith)) ∙ write-here table p page)
          | inr t ↦
              let past : suc p ≤ j = ground arith in
              let frames : pfn + 1 + (j - (p + 1)) ≡ pfn + (j - p) = omega arith in
              r.inside j (omega arith) (omega arith)
              ∙ ap (λ x. h.small_entry (x * page_size) nocache) frames
        ];
        outside = λ j away. elim away [
          | inl a ↦ r.outside j (inl (omega arith)) ∙ write-other table p j page (λ q. omega arith)
          | inr a ↦ r.outside j (inr (omega arith)) ∙ write-other table p j page (λ q. omega arith)
        ];
      },
    )

-- The loop over some pages ends, and fills their entries.
pub l2_loop-Filled :
    (h : Macros) (n fuel p addr end pfn : ℕ) (nocache : Bool) (table : ℕ → ℕ)
    → 0 < n
    → n ≤ fuel
    → end ≡ addr + n * page_size
    → end < 2 ^ 32
    → (pfn + n) * page_size ≤ 2 ^ 32
    → (table' : ℕ → ℕ) × (l2_loop h fuel p addr end pfn nocache table ≡ some table')
      × Filled h p n pfn nocache table table'
l2_loop-Filled h zero fuel p addr end pfn nocache table some_page enough e low phys_low =
    absurd (omega arith)
l2_loop-Filled h (suc n) fuel p addr end pfn nocache table some_page enough e low phys_low =
    l2_loop-suc h n fuel p addr end pfn nocache table (omega arith) e low phys_low
