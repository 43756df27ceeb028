-- ===== src/Process/Args/Page.antt =====
-- The page of the arguments as preserve_args_and_env leaves it.
use sye.Base.{
  ℕ, ◌+◌, ◌*◌, ◌^◌, ◌≤◌, ◌<◌, ◌≡◌, refl, ap, ◌∙◌, inl, inr, false, Option, none, some, List, [],
  ◌∷◌, arith, ◌==◌, length, take,
}
use sye.Process.Args.{
  Memory, page_size, store_word, load_word, clear_page, strings_start, page_header, place,
  place_env, place_all, preserved, preserve_args_and_env,
}
use sye.Process.Args.Words.{
  load_word-store_word, store_word-frame, load_word-agree, load_word-other, load_word-zeros,
  store_word-zero,
}
use sye.Process.Args.Place.{bytes_of, Holds, Holds-agree, Holds-weaken, Placed, place-Placed}

-- The environment as a list; NULL is none.
abbrev pub env_of : Option (List (List ℕ)) → List (List ℕ)
env_of none = []
env_of (some env) = env

cleared : (m : Memory) (args b : ℕ) → args ≤ b → b < args + page_size → clear_page m args b ≡ 0
unfolding clear_page
cleared m args b p q = ground arith

-- The page before the strings are placed: argc and zeros.
header_lem :
    (envp : Option (List (List ℕ))) (m : Memory) (args n : ℕ)
    → 0 < n
    → args + 4 + 4 * n + 4 * (length (env_of envp) + 1) ≤ args + page_size
    → (load_word (page_header m args n envp) args ≡ n)
      × ((b : ℕ) → args + 4 ≤ b → b < args + page_size → page_header m args n envp b ≡ 0)
      × (strings_start args n envp ≡ args + 4 + 4 * n + 4 * (length (env_of envp) + 1))
unfolding page_header strings_start
header_lem none m args n p fits =
    let nz : (n == 0) ≡ false = ground arith in
    let m' = store_word (clear_page m args) args n in
    rw nz (
      load_word-other m' (args + 4 + 4 * n) 0 args (inl (omega arith))
          ∙ load_word-store_word (clear_page m args) args n (omega arith),
      (λ b x y. store_word-zero m' (args + 4 + 4 * n) b (
          store_word-frame (clear_page m args) args n b (inr x)
          ∙ cleared m args b (omega arith) y)),
      omega arith,
    )
header_lem (some env) m args n p fits =
    let nz : (n == 0) ≡ false = ground arith in
    rw nz (
      load_word-store_word (clear_page m args) args n (omega arith),
      (λ b x y.
          store_word-frame (clear_page m args) args n b (inr x) ∙ cleared m args b (omega arith) y),
      omega arith,
    )

place_env-run :
    (envp : Option (List (List ℕ))) (args : ℕ) (m m' : Memory) (p q : ℕ)
    → place args m (args + 4 + 4 * load_word m args) p (env_of envp) ≡ some (m', q)
    → place_env m args p envp ≡ some m'
unfolding place_env place
place_env-run none args m m' p q e = cc
place_env-run (some env) args m m' p q e = rw (e, place_env) refl

take-length : (xs : List (List ℕ)) → take (length xs) xs ≡ xs
take-length [] = refl
take-length (x ∷ xs) = ap (◌∷◌ x) (take-length xs)

preserve-run :
    (m : Memory) (args p q : ℕ) (name : List ℕ) (argv : List (List ℕ))
    → (envp : Option (List (List ℕ))) → (m1 m2 : Memory) → 0 < length argv
    → strings_start args (length argv) envp ≡ p
    → place args (page_header m args (length argv) envp) (args + 4) p argv ≡ some (m1, q)
    → place_env m1 args q envp ≡ some m2
    → preserve_args_and_env m args name (length argv) (some argv) envp ≡ preserved m2
unfolding preserve_args_and_env place_all
preserve-run m args p q name argv envp m1 m2 some_arg starts run run' =
    let nz : (length argv == 0) ≡ false = ground arith in
    rw (nz, starts, take-length argv, run, run', place_all) refl

module _ (args : ℕ) (argv : List (List ℕ)) (envp : Option (List (List ℕ))) where
  abbrev pub n : ℕ
  n = length argv

  abbrev pub env : List (List ℕ)
  env = env_of envp

  abbrev pub begin : ℕ
  begin = args + 4 + 4 * n + 4 * (length env + 1)

  -- The page as preserve_args_and_env leaves it.
  pub record Page (m : Memory) : Type 0 where
    pub argc : load_word m args ≡ n
    pub arguments : Holds m begin (args + page_size) (args + 4) argv
    pub environment : Holds m begin (args + page_size) (args + 4 + 4 * n) env
    pub last : load_word m (args + 4 + 4 * n + 4 * length env) ≡ 0

  module _ (some_arg : 0 < n) (fits : begin + bytes_of argv + bytes_of env ≤ args + page_size)
      (word : args + page_size ≤ 2 ^ 32) where
    -- The strings placed one after the other make a page.
    Placed-Page :
        (m m1 m2 : Memory)
        → load_word m args ≡ n
        → ((b : ℕ) → args + 4 ≤ b → b < args + page_size → m b ≡ 0)
        → Placed m m1 (args + 4) begin argv
        → Placed m1 m2 (args + 4 + 4 * n) (begin + bytes_of argv) env
        → Page m2
    Placed-Page m m1 m2 argc zeros r1 r2 = record {
      argc =
          load_word-agree m1 m2 args (λ b x y. r2.frame b (inl (omega arith)) (inl (omega arith)))
          ∙ load_word-agree m m1 args (λ b x y. r1.frame b (inl (omega arith)) (inl (omega arith)))
          ∙ argc;
      arguments =
          Holds-weaken argv m2 begin begin (begin + bytes_of argv) (args + page_size) (args + 4)
            (omega arith) (omega arith)
            (Holds-agree argv m1 m2 begin (begin + bytes_of argv) (args + 4)
              (λ b x y. r2.frame b (inl (omega arith)) (inl (omega arith)))
              (λ b x y. r2.frame b (inr (omega arith)) (inl (omega arith))) r1.holds);
      environment =
          Holds-weaken env m2 (begin + bytes_of argv) begin (begin + bytes_of argv + bytes_of env)
            (args + page_size) (args + 4 + 4 * n) (omega arith) (omega arith) r2.holds;
      last = load_word-zeros m2 _ λ b x y.
          r2.frame b (inr (omega arith)) (inl (omega arith))
          ∙ r1.frame b (inr (omega arith)) (inl (omega arith))
          ∙ zeros b (omega arith) (omega arith);
    }

    pub preserve-Page :
        (m : Memory) (name : List ℕ)
        → (m' : Memory) × (preserve_args_and_env m args name n (some argv) envp ≡ preserved m')
          × Page m'
    preserve-Page m name =
        let (argc, zeros, starts) = header_lem envp m args n some_arg (omega arith) in
        let h = page_header m args n envp in
        let (m1, run1, r1) =
          place-Placed args argv h (args + 4) begin (omega arith) (omega arith) word
            (omega arith) in
        let (m2, run2, r2) =
          place-Placed args env m1 (args + 4 + 4 * n) (begin + bytes_of argv) (omega arith)
            (omega arith) word (omega arith) in
        let argc1 : load_word m1 args ≡ n =
          load_word-agree h m1 args (λ b x y. r1.frame b (inl (omega arith)) (inl (omega arith)))
          ∙ argc in
        let run : place_env m1 args (begin + bytes_of argv) envp ≡ some m2 =
          place_env-run envp args m1 m2 (begin + bytes_of argv)
            (begin + bytes_of argv + bytes_of env) (rw argc1 run2) in
        (
          m2,
          preserve-run m args begin (begin + bytes_of argv) name argv envp m1 m2 some_arg starts
              run1 run,
          Placed-Page h m1 m2 argc zeros r1 r2,
        )
