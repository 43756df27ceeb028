-- ===== src/Count.antt =====
-- l2-syscalls-fork/usr/host/count_parallel.c: one process for each count. fork and execl are
-- parameters, and so are the results of atoi; the messages are not modelled.
pub mod Children
pub mod Reaped
mod Tests
use sye.Base.{
  ℕ, zero, suc, ◌+◌, ◌-◌, ◌^◌, ◌<◌, ◌≡◌, refl, Bool, true, false, not, ◌&&◌, List, [], ◌∷◌, ◌++◌,
  ltb, leb, ◌==◌, if◌then◌else◌, length, get_or, set, replicate, arith, ℤ, pos, negsuc,
}

abbrev pub max_childs : ℕ
max_childs = 15

-- The codes of 'p' and 's'.
abbrev pub parallel_mode : ℕ
parallel_mode = 112

abbrev pub sequential_mode : ℕ
sequential_mode = 115

-- A child that was made, a wait for one, and an execl with its argument `id`.
pub data Event : Type 0 where
  forks : ℤ → Event
  waits : ℤ → Event
  execs : List ℕ → Event

-- How the process ends: it returns, execl replaces it, or sprintf writes past the end of `id`, after
-- which C says nothing.
pub data Exit : Type 0 where
  success failure replaced overrun : Exit

-- What a loop leaves, with how the process ended in it, if it did.
pub data Outcome : Type 0 where
  ended : Exit → List Event → Outcome
  went_on : List Event → (pids : List ℤ) → Outcome

abbrev pub prepend : List Event → Outcome → Outcome
prepend es (ended e es') = ended e (es ++ es')
prepend es (went_on es' pids) = went_on (es ++ es') pids

-- An `int` as the size_t, of 64 bits, that the loops compare it with.
abbrev pub size_of : ℤ → ℕ
size_of (pos n) = n
size_of (negsuc n) = 2 ^ 64 - suc n

-- sprintf of one digit; `id` has no room for a second one.
abbrev pub id_of : ℕ → List ℕ
id_of i = (48 + i) ∷ []

-- The wait for one slot of `pids`.
pub wait_for : ℤ → List Event
wait_for (pos zero) = []
wait_for (pos (suc p)) = waits (pos (suc p)) ∷ []
wait_for (negsuc e) = []

pub wait_loop : (left i : ℕ) → (pids : List ℤ) → List Event
wait_loop zero i pids = []
wait_loop (suc left) i pids = wait_for (get_or pids i (pos 0)) ++ wait_loop left (i + 1) pids

-- The second loop, where the first one ran to its end.
pub finish : (mode n : ℕ) → Outcome → Exit × List Event
finish mode n (ended e es) = (e, es)
finish mode n (went_on es pids) =
    (success, es ++ (if mode == parallel_mode then wait_loop n 0 pids else []))

module _ (fork : ℕ → ℤ) (execl : List ℕ → Bool) where
  -- The tests of `pid` in round `i`, before the rounds that follow.
  pub handle : (mode i : ℕ) → (pid : ℤ) → Outcome → Outcome
  handle mode i (pos zero) rest =
      if execl (id_of i)
      then ended replaced (execs (id_of i) ∷ [])
      else prepend (execs (id_of i) ∷ []) rest
  handle mode i (pos (suc p)) rest =
      prepend
        (forks (pos (suc p)) ∷ (if mode == sequential_mode then waits (pos (suc p)) ∷ [] else []))
        rest
  handle mode i (negsuc e) rest = ended failure []

  -- The first loop, with `left` rounds to go.
  pub fork_loop : (mode left i : ℕ) → (pids : List ℤ) → Outcome
  fork_loop mode zero i pids = went_on [] pids
  fork_loop mode (suc left) i pids =
      let rest = fork_loop mode left (i + 1) (set pids i (fork i)) in
      if leb 10 i then ended overrun [] else handle mode i (fork i) rest

  -- `argc`, what atoi gives for the first argument, and the first letter of the second one.
  pub main : (argc : ℕ) → (n : ℤ) → (mode : ℕ) → Exit × List Event
  main argc n mode =
      if not (argc == 3)
      then (failure, [])
      else if not (mode == parallel_mode) && not (mode == sequential_mode)
      then (failure, [])
      else if above n
      then (failure, [])
      else finish mode (size_of n) (fork_loop mode (size_of n) 0 (replicate max_childs (pos 0)))
    where
      above : ℤ → Bool
      above (pos m) = ltb max_childs m
      above (negsuc m) = false
