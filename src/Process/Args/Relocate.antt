-- ===== src/Process/Args/Relocate.antt =====
-- The pointers of the page after `relocate` and `relocate_env` of Process/Args.antt.
use sye.Base.{
  ℕ, zero, suc, ◌+◌, ◌-◌, ◌*◌, ◌^◌, ◌≤◌, ◌<◌, ◌≡◌, refl, sym, ap, ◌∙◌, ◌⊎◌, inl, inr, true, false,
  some, List, [], ◌∷◌, arith, ◌==◌, length,
}
use sye.Process.Args.{Memory, page_size, store_word, load_word, moved, relocate, relocate_env}
use sye.Process.Args.Words.{
  load_word-store_word, store_word-frame, load_word-agree, load_word-other, IsString-agree,
}
use sye.Process.Args.Place.{Holds}

module _ (args base : ℕ) where
  -- A pointer into the page at `args`, after it has moved to `base`.
  moved_page :
      (q : ℕ)
      → args ≤ q
      → q < args + page_size
      → args + page_size ≤ 2 ^ 32
      → base + page_size ≤ 2 ^ 32
      → moved args base q ≡ base + (q - args)
  moved_page q a b c d = omega arith

  pub relocate-frame :
      (n slot : ℕ) (m : Memory) (b : ℕ)
      → (b < slot) ⊎ (slot + 4 * n ≤ b)
      → relocate args base n slot m b ≡ m b
  unfolding relocate
  relocate-frame zero slot m b h = refl
  relocate-frame (suc n) slot m b (inl p) =
      relocate-frame n (slot + 4) _ b (inl (omega arith)) ∙ store_word-frame m slot _ b (inl p)
  relocate-frame (suc n) slot m b (inr p) =
      relocate-frame n (slot + 4) _ b (inr (omega arith))
      ∙ store_word-frame m slot _ b (inr (omega arith))

  pub relocate-word :
      (n slot : ℕ) (m : Memory) (i : ℕ)
      → i < n
      → load_word (relocate args base n slot m) (slot + 4 * i)
        ≡ moved args base (load_word m (slot + 4 * i))
  unfolding relocate
  relocate-word zero slot m i p = absurd (omega arith)
  relocate-word (suc n) slot m zero p =
      let q = moved args base (load_word m slot) in
      let m1 = store_word m slot q in
      let e : slot + 4 * 0 ≡ slot = omega arith in
      let kept =
        load_word-agree m1 (relocate args base n (slot + 4) m1) slot
          (λ b x y. relocate-frame n (slot + 4) m1 b (inl (omega arith))) in
      rw e (kept ∙ load_word-store_word m slot q (omega arith))
  relocate-word (suc n) slot m (suc i) p =
      let m1 = store_word m slot (moved args base (load_word m slot)) in
      let e : slot + 4 * suc i ≡ slot + 4 + 4 * i = omega arith in
      let other =
        load_word-other m slot (moved args base (load_word m slot)) (slot + 4 + 4 * i)
          (inr (omega arith)) in
      rw e (relocate-word n (slot + 4) m1 i (omega arith) ∙ ap (moved args base) other)

  -- The loop that ends at NULL makes as many rounds as there are pointers before it.
  pub relocate_env-relocate :
      (n slot fuel : ℕ) (m : Memory)
      → n < fuel
      → ((i : ℕ) → i < n → (load_word m (slot + 4 * i) == 0) ≡ false)
      → load_word m (slot + 4 * n) ≡ 0
      → relocate_env args base fuel slot m ≡ some (relocate args base n slot m)
  unfolding relocate_env relocate
  relocate_env-relocate n slot zero m p nz z = absurd (omega arith)
  relocate_env-relocate zero slot (suc fuel) m p nz z =
      let e : slot + 4 * 0 ≡ slot = omega arith in
      let t : (load_word m slot == 0) ≡ true =
        let z' = ap (load_word m) (sym e) ∙ z in ground arith in
      rw t refl
  relocate_env-relocate (suc n) slot (suc fuel) m p nz z =
      let e : slot + 4 * 0 ≡ slot = omega arith in
      let t : (load_word m slot == 0) ≡ false =
        ap (λ x. load_word m x == 0) (sym e) ∙ nz 0 (omega arith) in
      let m1 = store_word m slot (moved args base (load_word m slot)) in
      let later = λ (i : ℕ).
        load_word-other m slot (moved args base (load_word m slot)) (slot + 4 + 4 * i)
          (inr (omega arith)) in
      rw t (
        relocate_env-relocate n (slot + 4) fuel m1 (omega arith)
          (λ i q.
            let l : slot + 4 + 4 * i ≡ slot + 4 * (i + 1) = omega arith in
            ap (λ w. w == 0) (later i) ∙ ap (λ x. load_word m x == 0) l ∙ nz (i + 1) (omega arith))
          (let l : slot + 4 + 4 * n ≡ slot + 4 * suc n = omega arith in
            later n ∙ ap (load_word m) l ∙ z))

  -- The strings for moved pointers, in a memory that has the bytes of the page at the new place.
  pub Holds-moved :
      (ss : List (List ℕ)) (m m' : Memory) (lo hi slot slot' : ℕ)
      → args ≤ lo
      → hi ≤ args + page_size
      → args + page_size ≤ 2 ^ 32
      → base + page_size ≤ 2 ^ 32
      → ((i : ℕ)
          → i < length ss
          → load_word m' (slot' + 4 * i) ≡ moved args base (load_word m (slot + 4 * i)))
      → ((b : ℕ) → lo ≤ b → b < hi → m' (base + (b - args)) ≡ m b)
      → Holds m lo hi slot ss
      → Holds m' base (base + page_size) slot' ss
  Holds-moved [] m m' lo hi slot slot' a b c d words bytes h = tt
  Holds-moved (s ∷ ss) m m' lo hi slot slot' a b c d words bytes (x, y, str, rest) =
      let e : slot + 4 * 0 ≡ slot = omega arith in
      let e' : slot' + 4 * 0 ≡ slot' = omega arith in
      let q = load_word m slot in
      let pointer : load_word m' slot' ≡ base + (q - args) =
        ap (load_word m') (sym e')
        ∙ words 0 (omega arith)
        ∙ ap (λ z. moved args base (load_word m z)) e
        ∙ moved_page q (omega arith) (omega arith) c d in
      rw pointer (
        omega arith,
        omega arith,
        IsString-agree s m m' q (base + (q - args))
            (λ i p.
              let l : base + (q - args) + i ≡ base + (q + i - args) = omega arith in
              ap m' l ∙ bytes (q + i) (omega arith) (omega arith))
            str,
        Holds-moved ss m m' lo hi (slot + 4) (slot' + 4) a b c d
            (λ i p.
              let l : slot + 4 + 4 * i ≡ slot + 4 * (i + 1) = omega arith in
              let l' : slot' + 4 + 4 * i ≡ slot' + 4 * (i + 1) = omega arith in
              ap (load_word m') l'
              ∙ words (i + 1) (omega arith)
              ∙ ap (λ z. moved args base (load_word m z)) (sym l))
            bytes rest,
      )

-- The pointers are not below the strings.
pub Holds-pointer :
    (ss : List (List ℕ)) (m : Memory) (lo hi slot i : ℕ)
    → i < length ss
    → Holds m lo hi slot ss
    → lo ≤ load_word m (slot + 4 * i)
Holds-pointer [] m lo hi slot i p h = absurd (omega arith)
Holds-pointer (s ∷ ss) m lo hi slot zero p (a, b, c, d) =
    let e : slot + 4 * 0 ≡ slot = omega arith in rw e a
Holds-pointer (s ∷ ss) m lo hi slot (suc i) p (a, b, c, d) =
    let e : slot + 4 * suc i ≡ slot + 4 + 4 * i = omega arith in
    rw e (Holds-pointer ss m lo hi (slot + 4) i (omega arith) d)
