-- ===== src/Count/Children.antt =====
-- The children that count_parallel.c makes and waits for.
use sye.Base.{
  ℕ, zero, suc, ◌+◌, ◌≤◌, ◌<◌, ◌≡◌, refl, sym, ap, ◌∙◌, Bool, false, List, [], ◌∷◌, ◌++◌, leb, ◌==◌,
  if◌then◌else◌, Bool-cases, inl, inr, length, get_or, set, arith, ℤ, pos, negsuc, length-append,
  length-set, get_or-set_self, get_or-set_ne, ℕ_discrete,
}
use mathlib.Core.List.{append-nil, append_assoc}
use sye.Count.{
  parallel_mode, sequential_mode, Event, forks, waits, execs, Outcome, ended, went_on, prepend,
  fork_loop, handle, wait_for, wait_loop,
}

-- `Reaps bound ps es qs`: with the children `ps`, oldest first, the events `es` lead to the children
-- `qs`. There are never more than `bound`, and the oldest one is waited for.
pub data Reaps (bound : ℕ) : List ℤ → List Event → List ℤ → Type 0 where
  quiet : {ps : List ℤ} → Reaps bound ps [] ps
  born :
      {p : ℤ} {ps qs : List ℤ} {es : List Event}
      → length (ps ++ p ∷ []) ≤ bound
      → Reaps bound (ps ++ p ∷ []) es qs
      → Reaps bound ps (forks p ∷ es) qs
  reaped :
      {p : ℤ} {ps qs : List ℤ} {es : List Event}
      → Reaps bound ps es qs
      → Reaps bound (p ∷ ps) (waits p ∷ es) qs

pub Reaps-append :
    {bound : ℕ} {ps qs rs : List ℤ} {es es' : List Event}
    → Reaps bound ps es qs
    → Reaps bound qs es' rs
    → Reaps bound ps (es ++ es') rs
Reaps-append quiet r' = r'
Reaps-append (born b r) r' = born b (Reaps-append r r')
Reaps-append (reaped r) r' = reaped (Reaps-append r r')

-- The children that were made, in order.
abbrev pub offspring : List Event → List ℤ
offspring [] = []
offspring (forks p ∷ es) = p ∷ offspring es
offspring (waits p ∷ es) = offspring es
offspring (execs id ∷ es) = offspring es

pub offspring-append : (es es' : List Event) → offspring (es ++ es') ≡ offspring es ++ offspring es'
offspring-append [] es' = refl
offspring-append (forks p ∷ es) es' = ap (λ l. p ∷ l) (offspring-append es es')
offspring-append (waits p ∷ es) es' = offspring-append es es'
offspring-append (execs id ∷ es) es' = offspring-append es es'

offspring-wait_for : (p : ℤ) (es : List Event) → offspring (wait_for p ++ es) ≡ offspring es
unfolding wait_for
offspring-wait_for (pos zero) es = refl
offspring-wait_for (pos (suc p)) es = refl
offspring-wait_for (negsuc e) es = refl

pub offspring-wait_loop : (n i : ℕ) (pids : List ℤ) → offspring (wait_loop n i pids) ≡ []
unfolding wait_loop
offspring-wait_loop zero i pids = refl
offspring-wait_loop (suc n) i pids =
    offspring-wait_for (get_or pids i (pos 0)) (wait_loop n (i + 1) pids)
    ∙ offspring-wait_loop n (i + 1) pids

prepend-append :
    (es es' : List Event) (o : Outcome) → prepend es (prepend es' o) ≡ prepend (es ++ es') o
prepend-append es es' (ended e es0) = ap (ended e) (sym (append_assoc es es' es0))
prepend-append es es' (went_on es0 pids) = ap (λ x. went_on x pids) (sym (append_assoc es es' es0))

prepend-nil : (o : Outcome) → prepend [] o ≡ o
prepend-nil (ended e es) = refl
prepend-nil (went_on es pids) = refl

module _ (fork : ℕ → ℤ) where
  -- The children of `n` rounds from round `i` on, and `pids` after these.
  abbrev pub children : (n i : ℕ) → List ℤ
  children zero i = []
  children (suc n) i = fork i ∷ children n (i + 1)

  pub stored : (n i : ℕ) → List ℤ → List ℤ
  stored zero i pids = pids
  stored (suc n) i pids = stored n (i + 1) (set pids i (fork i))

  -- What `n` rounds that make a child each add to the events.
  abbrev pub made : (mode n i : ℕ) → List Event
  made mode zero i = []
  made mode (suc n) i =
      forks (fork i) ∷ (if mode == sequential_mode then waits (fork i) ∷ [] else [])
      ++ made mode n (i + 1)

  -- Every round from `i` to `i + n` makes a child.
  abbrev pub AllForked : (n i : ℕ) → Type 0
  AllForked n i = (j : ℕ) → i ≤ j → j < i + n → (p : ℕ) × (fork j ≡ pos (suc p))

  pub offspring-made : (mode n i : ℕ) → offspring (made mode n i) ≡ children n i
  offspring-made mode zero i = refl
  offspring-made mode (suc n) i = elim (Bool-cases (mode == sequential_mode)) [
    | inl t ↦ rw t (ap (λ l. fork i ∷ l) (offspring-made mode n (i + 1)))
    | inr t ↦ rw t (ap (λ l. fork i ∷ l) (offspring-made mode n (i + 1)))
  ]

  pub made-sequential : (n i : ℕ) → Reaps 1 [] (made sequential_mode n i) []
  made-sequential zero i = quiet
  made-sequential (suc n) i = born (omega arith) (reaped (made-sequential n (i + 1)))

  pub made-parallel :
      (bound n i : ℕ) (ps : List ℤ)
      → length ps + n ≤ bound
      → Reaps bound ps (made parallel_mode n i) (ps ++ children n i)
  made-parallel bound zero i ps room = rw (append-nil ps) quiet
  made-parallel bound (suc n) i ps room =
      let longer = length-append ps (fork i ∷ []) in
      let rest = made-parallel bound n (i + 1) (ps ++ fork i ∷ []) (omega arith) in
      born (omega arith) (rw (sym (append_assoc ps (fork i ∷ []) (children n (i + 1)))) rest)

  stored-before :
      (n i j : ℕ) (pids : List ℤ)
      → j < i
      → get_or (stored n i pids) j (pos 0) ≡ get_or pids j (pos 0)
  unfolding stored
  stored-before zero i j pids before = refl
  stored-before (suc n) i j pids before =
      stored-before n (i + 1) j (set pids i (fork i)) (omega arith)
      ∙ get_or-set_ne pids i j (fork i) (pos 0) (λ e. omega arith)

  pub stored-get :
      (n i j : ℕ) (pids : List ℤ)
      → i + n ≤ length pids
      → i ≤ j
      → j < i + n
      → get_or (stored n i pids) j (pos 0) ≡ fork j
  unfolding stored
  stored-get zero i j pids fits a b = absurd (omega arith)
  stored-get (suc n) i j pids fits a b =
      let len = length-set pids i (fork i) in
      elim (ℕ_discrete i j) [
        | yes here ↦ rw (← here) (
            stored-before n (i + 1) i (set pids i (fork i)) (omega arith)
            ∙ get_or-set_self pids i (fork i) (pos 0) (omega arith))
        | no other ↦
            stored-get n (i + 1) j (set pids i (fork i)) (omega arith) (ground arith) (omega arith)
      ]

  pub wait_loop-Reaps :
      (bound n i : ℕ) (pids : List ℤ)
      → AllForked n i
      → ((j : ℕ) → i ≤ j → j < i + n → get_or pids j (pos 0) ≡ fork j)
      → Reaps bound (children n i) (wait_loop n i pids) []
  unfolding wait_loop wait_for
  wait_loop-Reaps bound zero i pids all same = quiet
  wait_loop-Reaps bound (suc n) i pids all same =
      let (p, e) = all i (omega arith) (omega arith) in
      let slot = same i (omega arith) (omega arith) in
      let rest =
        wait_loop-Reaps bound n (i + 1) pids (λ j a b. all j (omega arith) (omega arith))
          (λ j a b. same j (omega arith) (omega arith)) in
      rw (slot, e, wait_loop, wait_for) (reaped rest)

  module _ (execl : List ℕ → Bool) where
    -- A round that makes a child.
    handle-forked :
        (mode i p : ℕ) (rest : Outcome)
        → fork i ≡ pos (suc p)
        → handle fork execl mode i (fork i) rest
          ≡ prepend
              (forks (fork i) ∷ (if mode == sequential_mode then waits (fork i) ∷ [] else []))
              rest
    unfolding handle
    handle-forked mode i p rest e = rw (e, handle) refl

    pub fork_loop-made :
        (mode n left i : ℕ) (pids : List ℤ)
        → i + n ≤ 10
        → AllForked n i
        → fork_loop fork execl mode (n + left) i pids
          ≡ prepend (made mode n i) (fork_loop fork execl mode left (i + n) (stored n i pids))
    unfolding fork_loop stored
    fork_loop-made mode zero left i pids small all =
        let here : i + 0 ≡ i = omega arith in
        let all_left : 0 + left ≡ left = omega arith in
        rw (here, all_left, stored) (sym (prepend-nil (fork_loop fork execl mode left i pids)))
    fork_loop-made mode (suc n) left i pids small all =
        let (p, e) = all i (omega arith) (omega arith) in
        let short : leb 10 i ≡ false = ground arith in
        let next : i + 1 + n ≡ i + suc n = omega arith in
        let count : suc n + left ≡ suc (n + left) = omega arith in
        let round =
          forks (fork i) ∷ (if mode == sequential_mode then waits (fork i) ∷ [] else []) in
        let rest = fork_loop fork execl mode (n + left) (i + 1) (set pids i (fork i)) in
        let ih =
          fork_loop-made mode n left (i + 1) (set pids i (fork i)) (omega arith)
            (λ j a b. all j (omega arith) (omega arith)) in
        let last =
          fork_loop fork execl mode left (i + suc n) (stored n (i + 1) (set pids i (fork i))) in
        rw (count, short)
          (handle-forked mode i p rest e
            ∙ ap (prepend round) (rw (← next) ih)
            ∙ prepend-append round (made mode n (i + 1)) last)
