-- ===== src/Count/Tests.antt =====
-- count_parallel.c on three children.
use sye.Base.{
  ℕ, zero, suc, ◌+◌, ◌≡◌, refl, Bool, true, List, [], ◌∷◌, if◌then◌else◌, ℤ, pos, negsuc, arith,
  ltb, inl,
}
use sye.Count.{
  parallel_mode, sequential_mode, Event, forks, waits, execs, success, failure, replaced, overrun,
  main, finish, fork_loop, handle, wait_loop, wait_for,
}
use sye.Count.Children.{offspring, Reaps, children, AllForked}
use sye.Count.Reaped.{main-Reaps, main-failure}

-- fork gives the process numbers from 101 on, and fails in round 3.
abbrev three : ℕ → ℤ
three i = if ltb i 3 then pos (suc (100 + i)) else negsuc 0

abbrev executes : List ℕ → Bool
executes id = true

three-AllForked : AllForked three 3 0
three-AllForked zero a b = (100, refl)
three-AllForked (suc zero) a b = (101, refl)
three-AllForked (suc (suc zero)) a b = (102, refl)
three-AllForked (suc (suc (suc j))) a b = absurd (omega arith)

-- The events of both modes, what the child does, and the id of two digits.
modes :
    (main three executes 3 (pos 2) sequential_mode
      ≡ (success, forks (pos 101) ∷ waits (pos 101) ∷ forks (pos 102) ∷ waits (pos 102) ∷ []))
    × (main three executes 3 (pos 2) parallel_mode
        ≡ (success, forks (pos 101) ∷ forks (pos 102) ∷ waits (pos 101) ∷ waits (pos 102) ∷ []))
    × (main (λ i. pos 0) executes 3 (pos 2) parallel_mode ≡ (replaced, execs (48 ∷ []) ∷ []))
    × ((main (λ i. pos 7) executes 3 (pos 11) parallel_mode).0 ≡ overrun)
unfolding main finish fork_loop handle wait_loop wait_for
modes = (refl, refl, refl, refl)

main-Reaps_example :
    (es : List Event) × (main three executes 3 (pos 3) parallel_mode ≡ (success, es))
    × (offspring es ≡ children three 3 0)
    × Reaps 3 [] es []
main-Reaps_example =
    main-Reaps three executes 3 parallel_mode (omega arith) (inl refl) three-AllForked

main-failure_example :
    (es : List Event) × (main three executes 3 (pos 4) parallel_mode ≡ (failure, es))
    × (offspring es ≡ children three 3 0)
    × Reaps 3 [] es (children three 3 0)
main-failure_example =
    main-failure three executes 3 4 parallel_mode (omega arith) (omega arith) (inl refl)
      three-AllForked 0 refl
