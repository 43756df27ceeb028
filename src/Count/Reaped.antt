-- ===== src/Count/Reaped.antt =====
-- Which children count_parallel.c leaves.
use sye.Base.{
  ℕ, suc, ◌+◌, ◌-◌, ◌≤◌, ◌<◌, ◌≡◌, refl, sym, ap, ap₂, ◌∙◌, Bool, false, List, [], ◌++◌, leb, ◌⊎◌,
  ◌==◌, if◌then◌else◌, Bool-cases, replicate, arith, ℤ, pos, negsuc, inl, inr,
}
use mathlib.Core.List.{append-nil}
use sye.Count.{
  max_childs, parallel_mode, sequential_mode, Event, success, failure, prepend, ended, went_on,
  fork_loop, handle, wait_loop, finish, main,
}
use sye.Count.Children.{
  offspring, offspring-append, offspring-made, offspring-wait_loop, Reaps, quiet, Reaps-append,
  children, stored, made, AllForked, fork_loop-made, made-sequential, made-parallel, stored-get,
  wait_loop-Reaps,
}

module _ (fork : ℕ → ℤ) (execl : List ℕ → Bool) where
  main-finish :
      (n mode : ℕ)
      → n ≤ 10
      → (mode ≡ parallel_mode) ⊎ (mode ≡ sequential_mode)
      → main fork execl 3 (pos n) mode
        ≡ finish mode n (fork_loop fork execl mode n 0 (replicate max_childs (pos 0)))
  unfolding main
  main-finish n mode small known = ground arith

  offspring-made_append :
      (n mode : ℕ) (last : List Event)
      → offspring last ≡ []
      → offspring ((made fork mode n 0 ++ []) ++ last) ≡ children fork n 0
  offspring-made_append n mode last e =
      offspring-append (made fork mode n 0 ++ []) last
      ∙ ap₂ (λ l l'. offspring l ++ l') (append-nil (made fork mode n 0)) e
      ∙ append-nil (offspring (made fork mode n 0))
      ∙ offspring-made fork mode n 0

  -- For n of at most 10 and a fork that makes a child in each of n rounds, the program returns
  -- success in either mode. It made these children in order, and waited for each of them, the oldest
  -- one first: there was at most one at a time in the sequential mode, at most n in the parallel one.
  pub main-Reaps :
      (n mode : ℕ)
      → n ≤ 10
      → (mode ≡ parallel_mode) ⊎ (mode ≡ sequential_mode)
      → AllForked fork n 0
      → (es : List Event) × (main fork execl 3 (pos n) mode ≡ (success, es))
        × (offspring es ≡ children fork n 0)
        × Reaps (if mode == sequential_mode then 1 else n) [] es []
  unfolding finish fork_loop
  main-Reaps n mode small known all =
      let start = replicate max_childs (pos 0) in
      let pids = stored fork n 0 start in
      let size : n + 0 ≡ n = omega arith in
      let run : fork_loop fork execl mode n 0 start
          ≡ prepend (made fork mode n 0) (went_on [] pids) =
        ap (λ k. fork_loop fork execl mode k 0 start) (sym size)
        ∙ fork_loop-made fork execl mode n 0 0 start (omega arith) all in
      let first = main-finish n mode small known ∙ ap (finish mode n) run in
      let last = if mode == parallel_mode then wait_loop n 0 pids else [] in
      let no_more : offspring last ≡ [] = elim (Bool-cases (mode == parallel_mode)) [
        | inl t ↦ rw t (offspring-wait_loop n 0 pids)
        | inr t ↦ rw t refl
      ] in
      let kids = offspring-made_append n mode last no_more in
      elim known [
        | inl parallel ↦ (
          _,
          first,
          kids,
          rw parallel (
              Reaps-append (Reaps-append (made-parallel fork n n 0 [] (omega arith)) quiet) (
                wait_loop-Reaps fork n n 0 pids all
                  (λ j a b. stored-get fork n 0 j start (omega arith) a b))),
        )
        | inr sequential ↦ (
          _,
          first,
          kids,
          rw sequential (Reaps-append (Reaps-append (made-sequential fork n 0) quiet) quiet),
        )
      ]

  -- For n of at most 10, if the first m rounds make a child each and fork fails in the next of the n
  -- rounds, the program returns failure in either mode. It made these m children in order: in the
  -- sequential mode each of them was waited for, in the parallel mode none.
  pub main-failure :
      (m n mode : ℕ)
      → m < n
      → n ≤ 10
      → (mode ≡ parallel_mode) ⊎ (mode ≡ sequential_mode)
      → AllForked fork m 0
      → (e : ℕ) → fork m ≡ negsuc e
      → (es : List Event) × (main fork execl 3 (pos n) mode ≡ (failure, es))
        × (offspring es ≡ children fork m 0)
        × Reaps
            (if mode == sequential_mode then 1 else m)
            []
            es
            (if mode == sequential_mode then [] else children fork m 0)
  unfolding finish fork_loop handle
  main-failure m n mode lt small known all e failed =
      let start = replicate max_childs (pos 0) in
      let pids = stored fork m 0 start in
      let size : m + suc (n - suc m) ≡ n = omega arith in
      let early : leb 10 m ≡ false = ground arith in
      let stop : fork_loop fork execl mode (suc (n - suc m)) (0 + m) pids ≡ ended failure [] =
        let here : 0 + m ≡ m = omega arith in rw (here, early, failed) refl in
      let run : fork_loop fork execl mode n 0 start
          ≡ prepend (made fork mode m 0) (ended failure []) =
        ap (λ k. fork_loop fork execl mode k 0 start) (sym size)
        ∙ fork_loop-made fork execl mode m (suc (n - suc m)) 0 start (omega arith) all
        ∙ ap (prepend (made fork mode m 0)) stop in
      let first = main-finish n mode small known ∙ ap (finish mode n) run in
      let kids = ap offspring (append-nil (made fork mode m 0)) ∙ offspring-made fork mode m 0 in
      elim known [
        | inl parallel ↦ (
          _,
          first,
          kids,
          rw parallel (Reaps-append (made-parallel fork m m 0 [] (omega arith)) quiet),
        )
        | inr sequential ↦
            (_, first, kids, rw sequential (Reaps-append (made-sequential fork m 0) quiet))
      ]
