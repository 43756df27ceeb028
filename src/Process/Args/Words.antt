-- ===== src/Process/Args/Words.antt =====
-- Words and strings in the memory of Process/Args.antt: reads after writes.
use sye.Base.{
  ℕ, ◌+◌, ◌/◌, ◌%◌, ◌^◌, ◌≤◌, ◌<◌, ◌≡◌, refl, sym, ap, ◌∙◌, ◌⊎◌, inl, inr, List, [], ◌∷◌, arith,
  length,
}
use sye.Process.Args.{Memory, put, store_word, load_word, store_string}

pub load_word-store_word : (m : Memory) (a v : ℕ) → v < 2 ^ 32 → load_word (store_word m a v) a ≡ v
unfolding load_word store_word
load_word-store_word m a v p =
    let b0 : store_word m a v a ≡ v % 256 = ground arith in
    let b1 : store_word m a v (a + 1) ≡ v / 256 % 256 = ground arith in
    let b2 : store_word m a v (a + 2) ≡ v / 65536 % 256 = ground arith in
    let b3 : store_word m a v (a + 3) ≡ v / 16777216 % 256 = ground arith in
    omega (arith, b0, b1, b2, b3)

pub store_word-frame : (m : Memory) (a v b : ℕ) → (b < a) ⊎ (a + 4 ≤ b) → store_word m a v b ≡ m b
unfolding store_word
store_word-frame m a v b (inl p) = ground arith
store_word-frame m a v b (inr p) = ground arith

pub load_word-agree :
    (m m' : Memory) (a : ℕ)
    → ((b : ℕ) → a ≤ b → b < a + 4 → m' b ≡ m b)
    → load_word m' a ≡ load_word m a
unfolding load_word
load_word-agree m m' a same = omega (
  arith,
  same a (omega arith) (omega arith),
  same (a + 1) (omega arith) (omega arith),
  same (a + 2) (omega arith) (omega arith),
  same (a + 3) (omega arith) (omega arith),
)

pub load_word-other :
    (m : Memory) (a v b : ℕ)
    → (b + 4 ≤ a) ⊎ (a + 4 ≤ b)
    → load_word (store_word m a v) b ≡ load_word m b
load_word-other m a v b (inl p) =
    load_word-agree m (store_word m a v) b λ c q r. store_word-frame m a v c (inl (omega arith))
load_word-other m a v b (inr p) =
    load_word-agree m (store_word m a v) b λ c q r. store_word-frame m a v c (inr (omega arith))

-- A word whose bytes stand elsewhere, and one whose bytes are 0.
pub load_word-bytes :
    (m m' : Memory) (a a' : ℕ)
    → ((i : ℕ) → i < 4 → m' (a' + i) ≡ m (a + i))
    → load_word m' a' ≡ load_word m a
unfolding load_word
load_word-bytes m m' a a' same =
    let l : a + 0 ≡ a = omega arith in
    let l' : a' + 0 ≡ a' = omega arith in
    omega (
      arith,
      ap m' l',
      ap m l,
      same 0 (omega arith),
      same 1 (omega arith),
      same 2 (omega arith),
      same 3 (omega arith),
    )

pub load_word-zeros :
    (m : Memory) (a : ℕ) → ((b : ℕ) → a ≤ b → b < a + 4 → m b ≡ 0) → load_word m a ≡ 0
unfolding load_word
load_word-zeros m a z = omega (
  arith,
  z a (omega arith) (omega arith),
  z (a + 1) (omega arith) (omega arith),
  z (a + 2) (omega arith) (omega arith),
  z (a + 3) (omega arith) (omega arith),
)

pub store_word-zero : (m : Memory) (a b : ℕ) → m b ≡ 0 → store_word m a 0 b ≡ 0
unfolding store_word
store_word-zero m a b z = ground arith

-- The bytes of the string stand from `a` on, and a 0 after them.
abbrev pub IsString : Memory → ℕ → List ℕ → Type 0
IsString m a [] = m a ≡ 0
IsString m a (c ∷ s) = (m a ≡ c) × IsString m (a + 1) s

pub store_string-frame :
    (s : List ℕ) (m : Memory) (a b : ℕ)
    → (b < a) ⊎ (a + length s + 1 ≤ b)
    → store_string m a s b ≡ m b
unfolding store_string
store_string-frame [] m a b (inl p) = ground arith
store_string-frame [] m a b (inr p) = ground arith
store_string-frame (c ∷ s) m a b (inl p) =
    let apart : put m a c b ≡ m b = ground arith in
    store_string-frame s (put m a c) (a + 1) b (inl (omega arith)) ∙ apart
store_string-frame (c ∷ s) m a b (inr p) =
    let apart : put m a c b ≡ m b = ground arith in
    store_string-frame s (put m a c) (a + 1) b (inr (omega arith)) ∙ apart

pub store_string-IsString : (s : List ℕ) (m : Memory) (a : ℕ) → IsString (store_string m a s) a s
unfolding store_string
store_string-IsString [] m a = ground arith
store_string-IsString (c ∷ s) m a =
    let first : put m a c a ≡ c = ground arith in
    (
      store_string-frame s (put m a c) (a + 1) a (inl (omega arith)) ∙ first,
      store_string-IsString s (put m a c) (a + 1),
    )

-- The byte at an address and 0 more.
byte_at : (m : Memory) (a : ℕ) → m (a + 0) ≡ m a
byte_at m a = let l : a + 0 ≡ a = omega arith in rw l refl

-- A string where another memory has the same bytes, from `a'` on.
pub IsString-agree :
    (s : List ℕ) (m m' : Memory) (a a' : ℕ)
    → ((i : ℕ) → i < length s + 1 → m' (a' + i) ≡ m (a + i))
    → IsString m a s
    → IsString m' a' s
IsString-agree [] m m' a a' same h = sym (byte_at m' a') ∙ same 0 (omega arith) ∙ byte_at m a ∙ h
IsString-agree (c ∷ s) m m' a a' same (h, t) = (
  sym (byte_at m' a') ∙ same 0 (omega arith) ∙ byte_at m a ∙ h,
  IsString-agree s m m' (a + 1) (a' + 1)
      (λ i p.
        let l : a + 1 + i ≡ a + (i + 1) = omega arith in
        let l' : a' + 1 + i ≡ a' + (i + 1) = omega arith in
        ap m' l' ∙ same (i + 1) (omega arith) ∙ ap m (sym l))
      t,
)
