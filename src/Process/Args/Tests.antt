-- ===== src/Process/Args/Tests.antt =====
-- The arguments page for one argument and one variable of the environment.
use sye.Base.{ℕ, ◌≡◌, refl, none, some, List, [], ◌∷◌, arith}
use sye.Process.{einval}
use sye.Process.Args.{Memory, page_size, preserve_args_and_env, post_setup_image, preserved, failed}
use sye.Process.Args.RoundTrip.{Image, post_setup-preserve}

abbrev zeros : Memory
zeros b = 0

-- "ls" and "A=1"
abbrev ls : List (List ℕ)
ls = (108 ∷ 115 ∷ []) ∷ []

abbrev env : List (List ℕ)
env = (65 ∷ 61 ∷ 49 ∷ []) ∷ []

post_setup-preserve_example :
    (m1 : Memory) × (m2 : Memory) × (preserve_args_and_env zeros 0x10000 [] 1 (some ls) (some env)
      ≡ preserved m1)
    × (post_setup_image page_size 0x10000 0x20000 m1 ≡ some m2)
    × Image 0x20000 m2 ls env
post_setup-preserve_example =
    post_setup-preserve 0x10000 0x20000 ls (some env) (omega arith) (omega arith) (omega arith)
      (omega arith) zeros []

no_arguments : preserve_args_and_env zeros 0x10000 [] 1 none none ≡ failed einval
unfolding preserve_args_and_env
no_arguments = refl
