-- ===== src/Shell/Parsing.antt =====
-- `parse_token` of sh.c on a line of tokens and spaces.
use sye.Base.{
  ℕ, zero, suc, ◌+◌, ◌-◌, ◌≤◌, ◌<◌, ◌≡◌, refl, sym, ap, ◌∙◌, Bool, true, false, not, ◌&&◌, none,
  some, List, [], ◌∷◌, ◌++◌, arith, ltb, ◌==◌, length, set, replicate, Text, length-append,
}
use mathlib.Core.List.{append_assoc}
use sye.Shell.{
  token_nr, token_size, space, skip_spaces, until_space, strtok, Tokens, set_token, parse_loop,
  parse_token, no_tokens,
}

unfoldable pub no_space : Text → Bool
no_space [] = true
no_space (c ∷ s) = not (c == space) && no_space s

-- A token that fits: some bytes, no space among them, fewer than the size of an element of `tokens`.
unfoldable pub is_token : Text → Bool
is_token [] = false
is_token (c ∷ s) = no_space (c ∷ s) && ltb (length (c ∷ s)) token_size

-- The line of the tokens: `k` spaces, and after each token as many as stand with it.
unfoldable pub line : (k : ℕ) → List (Text × ℕ) → Text
line k [] = replicate k space
line k ((t, j) ∷ ts) = replicate k space ++ (t ++ line j ts)

-- The tokens fit, and between two of them there is a space.
unfoldable pub is_spaced : List (Text × ℕ) → Bool
is_spaced [] = true
is_spaced ((t, j) ∷ []) = is_token t
is_spaced ((t, j) ∷ (t', j') ∷ ts) = is_token t && (ltb 0 j && is_spaced ((t', j') ∷ ts))

abbrev pub texts : List (Text × ℕ) → List Text
texts [] = []
texts ((t, j) ∷ ts) = t ∷ texts ts

skip_spaces-spaces : (k : ℕ) (s : Text) → skip_spaces (replicate k space ++ s) ≡ skip_spaces s
unfolding skip_spaces
skip_spaces-spaces zero s = refl
skip_spaces-spaces (suc k) s = skip_spaces-spaces k s

until_space-end : (t : Text) → no_space t ≡ true → until_space (t ++ []) ≡ (t, [])
unfolding until_space no_space
until_space-end [] e = refl
until_space-end (c ∷ t) e =
    let here : (c == space) ≡ false = ground arith in
    rw (here, until_space-end t (ground arith)) refl

until_space-space : (t s : Text) → no_space t ≡ true → until_space (t ++ (space ∷ s)) ≡ (t, s)
unfolding until_space no_space
until_space-space [] s e = refl
until_space-space (c ∷ t) s e =
    let here : (c == space) ≡ false = ground arith in
    rw (here, until_space-space t s (ground arith)) refl

skip_spaces-token :
    (k c : ℕ) (t s : Text)
    → no_space (c ∷ t) ≡ true
    → skip_spaces (replicate k space ++ ((c ∷ t) ++ s)) ≡ c ∷ (t ++ s)
unfolding no_space skip_spaces
skip_spaces-token zero c t s e =
    let here : (c == space) ≡ false = ground arith in rw (here, skip_spaces) refl
skip_spaces-token (suc k) c t s e = skip_spaces-token k c t s e

-- The token at the start of a text, after spaces.
strtok-token :
    (k c : ℕ) (t s s' : Text)
    → no_space (c ∷ t) ≡ true
    → until_space ((c ∷ t) ++ s) ≡ (c ∷ t, s')
    → strtok (replicate k space ++ ((c ∷ t) ++ s)) ≡ some (c ∷ t, s')
unfolding strtok
strtok-token k c t s s' e u = rw (skip_spaces-token k c t s e, u, strtok) refl

-- strtok finds the first token and leaves the line of the others.
strtok-line :
    (k : ℕ) (t : Text) (j : ℕ) (ts : List (Text × ℕ))
    → is_spaced ((t, j) ∷ ts) ≡ true
    → (k' : ℕ) × (strtok (line k ((t, j) ∷ ts)) ≡ some (t, line k' ts))
unfolding line is_spaced is_token
strtok-line k [] j [] e = cc
strtok-line k [] j (u ∷ ts) e = cc
strtok-line k (c ∷ t) zero [] e =
    (0, strtok-token k c t [] [] (ground arith) (until_space-end (c ∷ t) (ground arith)))
strtok-line k (c ∷ t) (suc j) [] e = (
  j,
  strtok-token k c t (space ∷ replicate j space) (replicate j space) (ground arith)
      (until_space-space (c ∷ t) (replicate j space) (ground arith)),
)
strtok-line k (c ∷ t) zero ((t', j') ∷ ts) e = absurd (ground arith)
strtok-line k (c ∷ t) (suc j) ((t', j') ∷ ts) e = (
  j,
  strtok-token k c t (space ∷ line j ((t', j') ∷ ts)) (line j ((t', j') ∷ ts)) (ground arith)
      (until_space-space (c ∷ t) (line j ((t', j') ∷ ts)) (ground arith)),
)

strtok-spaces : (k : ℕ) → strtok (line k []) ≡ none
unfolding strtok line skip_spaces
strtok-spaces zero = refl
strtok-spaces (suc k) = strtok-spaces k

-- The tokens stored from `i` on.
abbrev store : (i : ℕ) → List Text → Tokens → Tokens
store i [] tokens = tokens
store i (t ∷ ts) tokens = store (i + 1) ts (set tokens i t)

spaced-head :
    (t : Text) (j : ℕ) (ts : List (Text × ℕ))
    → is_spaced ((t, j) ∷ ts) ≡ true
    → (ltb (length t) token_size ≡ true) × (is_spaced ts ≡ true) × (0 < length t)
unfolding is_spaced is_token
spaced-head [] j [] e = cc
spaced-head [] j (u ∷ ts) e = cc
spaced-head (c ∷ t) j [] e = (ground arith, refl, omega arith)
spaced-head (c ∷ t) j ((t', j') ∷ ts) e = (ground arith, ground arith, omega arith)

parse_loop-store :
    (ts : List (Text × ℕ)) (k i fuel : ℕ) (tokens : Tokens)
    → is_spaced ts ≡ true
    → i + length ts ≤ token_nr
    → length ts < fuel
    → parse_loop fuel i (line k ts) tokens ≡ some (store i (texts ts) tokens)
unfolding parse_loop set_token
parse_loop-store [] k i zero tokens e p q = absurd (omega arith)
parse_loop-store [] k i (suc fuel) tokens e p q = rw (strtok-spaces k, parse_loop) refl
parse_loop-store ((t, j) ∷ ts) k i zero tokens e p q = absurd (omega arith)
parse_loop-store ((t, j) ∷ ts) k i (suc fuel) tokens e p q =
    let (k', cut) = strtok-line k t j ts e in
    let (short, rest, _) = spaced-head t j ts e in
    let room : ltb i token_nr ≡ true = ground arith in
    rw (cut, room, short, parse_loop)
      (parse_loop-store ts k' (i + 1) fuel (set tokens i t) rest (omega arith) (omega arith))

line-length : (ts : List (Text × ℕ)) (k : ℕ) → is_spaced ts ≡ true → length ts ≤ length (line k ts)
unfolding line
line-length [] k e = omega arith
line-length ((t, j) ∷ ts) k e =
    let (_, rest, some_byte) = spaced-head t j ts e in
    omega (
      arith,
      length-append (replicate k space) (t ++ line j ts),
      length-append t (line j ts),
      line-length ts j rest,
    )

-- Stored in order, the tokens fill the free elements.
set-next :
    (done : Tokens) (t : Text) (free : Tokens)
    → set (done ++ ([] ∷ free)) (length done) t ≡ (done ++ t ∷ []) ++ free
set-next [] t free = refl
set-next (d ∷ done) t free = ap (◌∷◌ d) (set-next done t free)

store-free :
    (ts : List Text) (done : Tokens) (m : ℕ)
    → store (length done) ts (done ++ replicate (length ts + m) []) ≡ done ++ (ts ++ replicate m [])
store-free [] done m = let e : 0 + m ≡ m = omega arith in rw e refl
store-free (t ∷ ts) done m =
    let more : suc (length ts) + m ≡ suc (length ts + m) = omega arith in
    let next : length done + 1 ≡ length (done ++ t ∷ []) =
      omega (arith, length-append done (t ∷ [])) in
    rw (more, set-next done t (replicate (length ts + m) []), next)
      (store-free ts (done ++ t ∷ []) m ∙ append_assoc done (t ∷ []) (ts ++ replicate m []))

length-texts : (ts : List (Text × ℕ)) → length (texts ts) ≡ length ts
length-texts [] = refl
length-texts ((t, j) ∷ ts) = ap suc (length-texts ts)

filled :
    (ts : List Text) (m : ℕ)
    → length ts + m ≡ token_nr
    → store 0 ts no_tokens ≡ ts ++ replicate m []
filled ts m e = ap (λ n. store 0 ts (replicate n [])) (sym e) ∙ store-free ts [] m

-- A line of up to TOKEN_NR tokens of fewer than 80 bytes, with at least one space between two of
-- them and any number before, after and between, is cut into these tokens, in order, and the other
-- elements of `tokens` stay empty.
pub parse_token-line :
    (k : ℕ) (ts : List (Text × ℕ))
    → is_spaced ts ≡ true
    → length ts ≤ token_nr
    → parse_token (line k ts) no_tokens ≡ some (texts ts ++ replicate (token_nr - length ts) [])
unfolding parse_token
parse_token-line k ts e p =
    let n = length ts in
    let sum : length (texts ts) + (token_nr - n) ≡ token_nr = omega (arith, length-texts ts) in
    parse_loop-store ts k 0 (length (line k ts) + 1) no_tokens e (omega arith)
      (omega (arith, line-length ts k e))
    ∙ ap some (filled (texts ts) (token_nr - n) sum)
