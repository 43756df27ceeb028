-- ===== src/Process/Args/RoundTrip.antt =====
-- The page of the arguments, written by preserve_args_and_env and moved by post_setup_image.
use sye.Base.{
  ℕ, ◌+◌, ◌-◌, ◌*◌, ◌^◌, ◌≤◌, ◌<◌, ◌≡◌, refl, sym, ap, ◌∙◌, inl, inr, true, ◌&&◌, Option, some,
  List, arith, ltb, leb, length,
}
use sye.Process.Args.{
  Memory, page_size, load_word, preserved, preserve_args_and_env, copy_page, relocate, relocate_env,
  post_setup_image, moved,
}
use sye.Process.Args.Words.{load_word-agree, load_word-bytes}
use sye.Process.Args.Place.{Holds-agree, bytes_of, Holds}
use sye.Process.Args.Page.{env_of, Page, preserve-Page}
use sye.Process.Args.Relocate.{
  relocate-frame, relocate-word, relocate_env-relocate, Holds-moved, Holds-pointer,
}

-- A page at `base` with argc, the pointers to the arguments, those to the environment and a NULL;
-- the pointers are to the strings, in the page.
pub record Image (base : ℕ) (m : Memory) (argv env : List (List ℕ)) : Type 0 where
  pub argc : load_word m base ≡ length argv
  pub arguments : Holds m base (base + page_size) (base + 4) argv
  pub environment : Holds m base (base + page_size) (base + 4 + 4 * length argv) env
  pub last : load_word m (base + 4 + 4 * length argv + 4 * length env) ≡ 0

-- Two memories with the same bytes in the page.
pub Image-agree :
    (base : ℕ) (m m' : Memory) (argv env : List (List ℕ))
    → 4 + 4 * length argv + 4 * (length env + 1) ≤ page_size
    → ((b : ℕ) → base ≤ b → b < base + page_size → m' b ≡ m b)
    → Image base m argv env
    → Image base m' argv env
Image-agree base m m' argv env fits same image =
    let word_at = λ (a : ℕ) (p : base ≤ a) (q : a + 4 ≤ base + page_size).
      load_word-agree m m' a (λ b x y. same b (omega arith) (omega arith)) in
    record {
      argc = word_at base (omega arith) (omega arith) ∙ image.argc;
      arguments =
          Holds-agree argv m m' base (base + page_size) (base + 4)
            (λ b x y. same b (omega arith) (omega arith)) same image.arguments;
      environment =
          Holds-agree env m m' base (base + page_size) (base + 4 + 4 * length argv)
            (λ b x y. same b (omega arith) (omega arith)) same image.environment;
      last =
          word_at (base + 4 + 4 * length argv + 4 * length env) (omega arith) (omega arith)
          ∙ image.last;
    }

copy_page-byte :
    (m : Memory) (args base i : ℕ) → i < page_size → copy_page m args base (base + i) ≡ m (args + i)
unfolding copy_page
copy_page-byte m args base i p =
    let inside : (leb base (base + i) && ltb (base + i) (base + page_size)) ≡ true = ground arith in
    let back : base + i - base ≡ i = omega arith in rw (inside, back) refl

module _ (args base : ℕ) (argv : List (List ℕ)) (envp : Option (List (List ℕ))) where
  abbrev n : ℕ
  n = length argv

  abbrev env : List (List ℕ)
  env = env_of envp

  abbrev begin : ℕ
  begin = args + 4 + 4 * n + 4 * (length env + 1)

  module _ (some_arg : 0 < n) (fits : begin + bytes_of argv + bytes_of env ≤ args + page_size)
      (word : args + page_size ≤ 2 ^ 32) (word' : base + page_size ≤ 2 ^ 32) where
    -- A word of the page at its new place.
    copied_word :
        (m : Memory) (off : ℕ)
        → off + 4 ≤ page_size
        → load_word (copy_page m args base) (base + off) ≡ load_word m (args + off)
    copied_word m off p = load_word-bytes m (copy_page m args base) (args + off) (base + off) λ i q.
        let l : base + off + i ≡ base + (off + i) = omega arith in
        let l' : args + off + i ≡ args + (off + i) = omega arith in
        ap (copy_page m args base) l
        ∙ copy_page-byte m args base (off + i) (omega arith)
        ∙ ap m (sym l')

    -- Slot `i` of the pointers to the environment, at both places.
    env_word :
        (m : Memory) (i : ℕ)
        → i ≤ length env
        → load_word
            (relocate args base n (base + 4) (copy_page m args base))
            (base + 4 + 4 * n + 4 * i)
          ≡ load_word m (args + 4 + 4 * n + 4 * i)
    env_word m i p =
        let l : base + 4 + 4 * n + 4 * i ≡ base + (4 + 4 * n + 4 * i) = omega arith in
        let l' : args + 4 + 4 * n + 4 * i ≡ args + (4 + 4 * n + 4 * i) = omega arith in
        load_word-agree (copy_page m args base)
          (relocate args base n (base + 4) (copy_page m args base)) (base + 4 + 4 * n + 4 * i)
          (λ b x y.
            relocate-frame args base n (base + 4) (copy_page m args base) b (inr (omega arith)))
        ∙ ap (load_word (copy_page m args base)) l
        ∙ copied_word m (4 + 4 * n + 4 * i) (omega arith)
        ∙ ap (load_word m) (sym l')

    relocated_env :
        (m : Memory)
        → Page args argv envp m
        → relocate_env args base page_size
            (base + 4 + 4 * n)
            (relocate args base n (base + 4) (copy_page m args base))
          ≡ some (
              relocate args base
                (length env)
                (base + 4 + 4 * n)
                (relocate args base n (base + 4) (copy_page m args base)))
    relocated_env m page =
        relocate_env-relocate args base (length env) (base + 4 + 4 * n) page_size _ (omega arith)
          (λ i p.
            let e = env_word m i (omega arith) in
            let q =
              Holds-pointer env m begin (args + page_size) (args + 4 + 4 * n) i p
                page.environment in
            ground arith)
          (env_word m (length env) (omega arith) ∙ page.last)

    -- A byte of the strings, which no pointer overlaps.
    string_byte :
        (m : Memory) (b : ℕ)
        → begin ≤ b
        → b < args + page_size
        → relocate args base
            (length env)
            (base + 4 + 4 * n)
            (relocate args base n (base + 4) (copy_page m args base))
            (base + (b - args))
          ≡ m b
    string_byte m b p q =
        let l : args + (b - args) ≡ b = omega arith in
        relocate-frame args base (length env) (base + 4 + 4 * n) _ (base + (b - args))
          (inr (omega arith))
        ∙ relocate-frame args base n (base + 4) _ (base + (b - args)) (inr (omega arith))
        ∙ copy_page-byte m args base (b - args) (omega arith)
        ∙ ap m l

    arg_word :
        (m : Memory) (i : ℕ)
        → i < n
        → load_word
            (relocate args base
              (length env)
              (base + 4 + 4 * n)
              (relocate args base n (base + 4) (copy_page m args base)))
            (base + 4 + 4 * i)
          ≡ moved args base (load_word m (args + 4 + 4 * i))
    arg_word m i p =
        let mc = copy_page m args base in
        let m1 = relocate args base n (base + 4) mc in
        let l : base + 4 + 4 * i ≡ base + (4 + 4 * i) = omega arith in
        let l' : args + 4 + 4 * i ≡ args + (4 + 4 * i) = omega arith in
        load_word-agree m1 (relocate args base (length env) (base + 4 + 4 * n) m1)
          (base + 4 + 4 * i)
          (λ b x y.
            relocate-frame args base (length env) (base + 4 + 4 * n) m1 b (inl (omega arith)))
        ∙ relocate-word args base n (base + 4) mc i p
        ∙ ap (moved args base) (
            ap (load_word mc) l
            ∙ copied_word m (4 + 4 * i) (omega arith)
            ∙ ap (load_word m) (sym l'))

    relocated-Image :
        (m : Memory)
        → Page args argv envp m
        → load_word (copy_page m args base) base ≡ n
        → Image base
            (relocate args base
              (length env)
              (base + 4 + 4 * n)
              (relocate args base n (base + 4) (copy_page m args base)))
            argv
            env
    relocated-Image m page argc =
        let mc = copy_page m args base in
        let m1 = relocate args base n (base + 4) mc in
        let slot = base + 4 + 4 * n in
        let m2 = relocate args base (length env) slot m1 in
        record {
          argc =
              load_word-agree m1 m2 base
                (λ b x y. relocate-frame args base (length env) slot m1 b (inl (omega arith)))
              ∙ load_word-agree mc m1 base
                  (λ b x y. relocate-frame args base n (base + 4) mc b (inl (omega arith)))
              ∙ argc;
          arguments =
              Holds-moved args base argv m m2 begin (args + page_size) (args + 4) (base + 4)
                (omega arith) (omega arith) word word' (arg_word m) (string_byte m) page.arguments;
          environment =
              Holds-moved args base env m m2 begin (args + page_size) (args + 4 + 4 * n) slot
                (omega arith) (omega arith) word word'
                (λ i p.
                  relocate-word args base (length env) slot m1 i p
                  ∙ ap (moved args base) (env_word m i (omega arith)))
                (string_byte m) page.environment;
          last =
              load_word-agree m1 m2 (slot + 4 * length env)
                (λ b x y. relocate-frame args base (length env) slot m1 b (inr (omega arith)))
              ∙ env_word m (length env) (omega arith)
              ∙ page.last;
        }

    post_setup-Image :
        (m : Memory)
        → Page args argv envp m
        → (m' : Memory) × (post_setup_image page_size args base m ≡ some m')
          × Image base m' argv env
    unfolding post_setup_image
    post_setup-Image m page =
        let mc = copy_page m args base in
        let m1 = relocate args base n (base + 4) mc in
        let slot = base + 4 + 4 * n in
        let m2 = relocate args base (length env) slot m1 in
        let l : base + 0 ≡ base = omega arith in
        let l' : args + 0 ≡ args = omega arith in
        let argc : load_word mc base ≡ n =
          ap (load_word mc) (sym l)
          ∙ copied_word m 0 (omega arith)
          ∙ ap (load_word m) l'
          ∙ page.argc in
        let swap : base + 4 + n * 4 ≡ slot = omega arith in
        (m2, rw (argc, swap) (relocated_env m page), relocated-Image m page argc)

    -- A page is one in every memory that has its bytes.
    Page-agree :
        (m m' : Memory)
        → ((b : ℕ) → args ≤ b → b < args + page_size → m' b ≡ m b)
        → Page args argv envp m
        → Page args argv envp m'
    Page-agree m m' same page =
        let word_at = λ (a : ℕ) (p : args ≤ a) (q : a + 4 ≤ args + page_size).
          load_word-agree m m' a (λ b x y. same b (omega arith) (omega arith)) in
        record {
          argc = word_at args (omega arith) (omega arith) ∙ page.argc;
          arguments =
              Holds-agree argv m m' begin (args + page_size) (args + 4)
                (λ b x y. same b (omega arith) (omega arith)) (λ b x y. same b (omega arith) y)
                page.arguments;
          environment =
              Holds-agree env m m' begin (args + page_size) (args + 4 + 4 * n)
                (λ b x y. same b (omega arith) (omega arith)) (λ b x y. same b (omega arith) y)
                page.environment;
          last =
              word_at (args + 4 + 4 * n + 4 * length env) (omega arith) (omega arith) ∙ page.last;
        }

    -- The round trip, when the memory changes in between, but not in the temporary page.
    pub post_setup-remapped :
        (remap : Memory → Memory) (m : Memory) (name : List ℕ)
        → ((m' : Memory) (b : ℕ) → args ≤ b → b < args + page_size → remap m' b ≡ m' b)
        → (m1 : Memory) × (m2 : Memory) × (preserve_args_and_env m args name
              (length argv)
              (some argv)
              envp
            ≡ preserved m1)
          × (post_setup_image page_size args base (remap m1) ≡ some m2)
          × Image base m2 argv (env_of envp)
    post_setup-remapped remap m name same =
        let (m1, run, page) = preserve-Page args argv envp some_arg fits word m name in
        let (m2, run', image) =
          post_setup-Image (remap m1) (Page-agree m1 (remap m1) (same m1) page) in
        (m1, m2, run, run', image)

    -- For at least one argument, when argc, the pointers and the strings fit in a page, and the
    -- pages at `args` and `base` end below 2^32, preserve_args_and_env succeeds, and
    -- post_setup_image, with fuel for a page, leaves at `base` argc, pointers to the arguments and
    -- to the environment, and a NULL; the pointers are into the page at `base`, to the strings
    -- that were passed.
    pub post_setup-preserve :
        (m : Memory) (name : List ℕ)
        → (m1 : Memory) × (m2 : Memory) × (preserve_args_and_env m args name
              (length argv)
              (some argv)
              envp
            ≡ preserved m1)
          × (post_setup_image page_size args base m1 ≡ some m2)
          × Image base m2 argv (env_of envp)
    post_setup-preserve m name = post_setup-remapped (λ m'. m') m name (λ m' b p q. refl)
