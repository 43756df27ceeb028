-- ===== src/Process/Args/Place.antt =====
-- What `place` and `relocate` of Process/Args.antt leave in the page.
use sye.Base.{
  ℕ, ◌+◌, ◌-◌, ◌*◌, ◌^◌, ◌≤◌, ◌<◌, ◌≡◌, refl, ◌∙◌, ◌⊎◌, inl, inr, false, some, List, [], ◌∷◌, arith,
  ltb, length,
}
use sye.Process.Args.{Memory, page_size, store_word, load_word, store_string, place}
use sye.Process.Args.Words.{
  load_word-store_word, store_word-frame, load_word-agree, IsString, store_string-frame,
  store_string-IsString, IsString-agree,
}

-- The bytes that the strings take, each with its final 0.
abbrev pub bytes_of : List (List ℕ) → ℕ
bytes_of [] = 0
bytes_of (s ∷ ss) = length s + 1 + bytes_of ss

-- From `slot` on, the pointers to the strings, which stand between `lo` and `hi`.
abbrev pub Holds : Memory → (lo hi slot : ℕ) → List (List ℕ) → Type 0
Holds m lo hi slot [] = Unit {0}
Holds m lo hi slot (s ∷ ss) =
    (lo ≤ load_word m slot)
    × (load_word m slot + length s + 1 ≤ hi)
    × IsString m (load_word m slot) s
    × Holds m lo hi (slot + 4) ss

-- Two memories that have the same bytes in the pointers and the strings.
pub Holds-agree :
    (ss : List (List ℕ)) (m m' : Memory) (lo hi slot : ℕ)
    → ((b : ℕ) → slot ≤ b → b < slot + 4 * length ss → m' b ≡ m b)
    → ((b : ℕ) → lo ≤ b → b < hi → m' b ≡ m b)
    → Holds m lo hi slot ss
    → Holds m' lo hi slot ss
Holds-agree [] m m' lo hi slot ptrs strs h = tt
Holds-agree (s ∷ ss) m m' lo hi slot ptrs strs (a, b, c, d) =
    let word = load_word-agree m m' slot (λ x p q. ptrs x p (omega arith)) in
    rw word (
      a,
      b,
      IsString-agree s m m' _ _ (λ i p. strs _ (omega arith) (omega arith)) c,
      Holds-agree ss m m' lo hi (slot + 4) (λ x p q. ptrs x (omega arith) (omega arith)) strs d,
    )

pub Holds-weaken :
    (ss : List (List ℕ)) (m : Memory) (lo lo' hi hi' slot : ℕ)
    → lo' ≤ lo
    → hi ≤ hi'
    → Holds m lo hi slot ss
    → Holds m lo' hi' slot ss
Holds-weaken [] m lo lo' hi hi' slot p q h = tt
Holds-weaken (s ∷ ss) m lo lo' hi hi' slot p q (a, b, c, d) =
    (omega arith, omega arith, c, Holds-weaken ss m lo lo' hi hi' (slot + 4) p q d)

-- The memory after the strings are placed.
pub record Placed (m m' : Memory) (slot p : ℕ) (ss : List (List ℕ)) : Type 0 where
  pub holds : Holds m' p (p + bytes_of ss) slot ss
  pub frame :
      (b : ℕ)
      → (b < slot) ⊎ (slot + 4 * length ss ≤ b)
      → (b < p) ⊎ (p + bytes_of ss ≤ b)
      → m' b ≡ m b

-- One string and its pointer before the others.
Placed-cons :
    (s : List ℕ) (ss : List (List ℕ)) (m m' : Memory) (slot p : ℕ)
    → p < 2 ^ 32
    → slot + 4 * length (s ∷ ss) ≤ p
    → Placed (store_string (store_word m slot p) p s) m' (slot + 4) (p + length s + 1) ss
    → Placed m m' slot p (s ∷ ss)
Placed-cons s ss m m' slot p word apart r =
    let m1 = store_word m slot p in
    let m2 = store_string m1 p s in
    let kept : load_word m' slot ≡ load_word m2 slot =
      load_word-agree m2 m' slot (λ b x y. r.frame b (inl (omega arith)) (inl (omega arith))) in
    let kept' : load_word m2 slot ≡ load_word m1 slot =
      load_word-agree m1 m2 slot (λ b x y. store_string-frame s m1 p b (inl (omega arith))) in
    let pointer = kept ∙ kept' ∙ load_word-store_word m slot p word in
    let str =
      IsString-agree s m2 m' p p (λ i x. r.frame (p + i) (inr (omega arith)) (inl (omega arith)))
        (store_string-IsString s m1 p) in
    record {
      holds = rw pointer (
        omega arith,
        omega arith,
        str,
        Holds-weaken ss m' (p + length s + 1) p _ (p + bytes_of (s ∷ ss)) (slot + 4) (omega arith)
            (omega arith) r.holds,
      );
      frame = λ b x y.
          r.frame b (past b x) (beyond b y)
          ∙ store_string-frame s m1 p b (string_side b y)
          ∙ store_word-frame m slot p b (slot_side b x);
    }
  where
    past :
        (b : ℕ)
        → (b < slot) ⊎ (slot + 4 * length (s ∷ ss) ≤ b)
        → (b < slot + 4) ⊎ (slot + 4 + 4 * length ss ≤ b)
    past b (inl x) = inl (omega arith)
    past b (inr x) = inr (omega arith)

    beyond :
        (b : ℕ)
        → (b < p) ⊎ (p + bytes_of (s ∷ ss) ≤ b)
        → (b < p + length s + 1) ⊎ (p + length s + 1 + bytes_of ss ≤ b)
    beyond b (inl x) = inl (omega arith)
    beyond b (inr x) = inr (omega arith)

    string_side : (b : ℕ) → (b < p) ⊎ (p + bytes_of (s ∷ ss) ≤ b) → (b < p) ⊎ (p + length s + 1 ≤ b)
    string_side b (inl x) = inl x
    string_side b (inr x) = inr (omega arith)

    slot_side :
        (b : ℕ) → (b < slot) ⊎ (slot + 4 * length (s ∷ ss) ≤ b) → (b < slot) ⊎ (slot + 4 ≤ b)
    slot_side b (inl x) = inl x
    slot_side b (inr x) = inr (omega arith)

-- Strings that fit in the page are all placed.
pub place-Placed :
    (args : ℕ) (ss : List (List ℕ)) (m : Memory) (slot p : ℕ)
    → args ≤ p
    → p + bytes_of ss ≤ args + page_size
    → args + page_size ≤ 2 ^ 32
    → slot + 4 * length ss ≤ p
    → (m' : Memory) × (place args m slot p ss ≡ some (m', p + bytes_of ss)) × Placed m m' slot p ss
unfolding place
place-Placed args [] m slot p a fits word apart =
    let e : p + 0 ≡ p = omega arith in (m, rw e refl, record { holds = tt; frame = λ b x y. refl })
place-Placed args (s ∷ ss) m slot p a fits word apart =
    let within : ltb page_size (p + length s + 1 - args) ≡ false = ground arith in
    let (m', run, r) =
      place-Placed args ss (store_string (store_word m slot p) p s) (slot + 4) (p + length s + 1)
        (omega arith) (omega arith) word (omega arith) in
    let total : p + length s + 1 + bytes_of ss ≡ p + (length s + 1 + bytes_of ss) = omega arith in
    (m', rw (within, run, total) refl, Placed-cons s ss m m' slot p (omega arith) apart r)
