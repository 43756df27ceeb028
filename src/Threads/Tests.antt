-- ===== src/Threads/Tests.antt =====
-- Two threads of threads.c on a short text, in a mixed order.
use sye.Base.{ℕ, ◌≡◌, refl, List, [], ◌∷◌, map, arith, pos}
use sye.Threads.{Worker, count_round, split, main, bad_count, count_letters, count_param}
use sye.Threads.Runs.{here, later, Run, started, then_round, Progress, Run-Progress}

-- "abA"
abbrev text : List ℕ
text = 97 ∷ 98 ∷ 65 ∷ []

pub record Schedule (n : ℕ) : Type 0 where
  last : List Worker
  run : Run text (split 2 text 2 0) n last

mixed : Schedule 3
unfolding split count_param count_round
mixed = record {
  last = _;
  run =
      then_round (then_round (then_round started (later (here refl))) (here refl))
        (later (here refl));
}

Run-Progress_example : Progress text 2 3 mixed.last
Run-Progress_example = Run-Progress text 2 3 mixed.last (omega arith) (omega arith) mixed.run

refused : main 3 (pos 16) text (map (count_letters text)) ≡ bad_count
unfolding main
refused = refl
