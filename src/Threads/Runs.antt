-- ===== src/Threads/Runs.antt =====
-- The threads of threads.c under every schedule: they share only the text, which none writes.
use sye.Base.{
  ℕ, zero, suc, ◌+◌, ◌-◌, ◌*◌, ◌/◌, ◌≤◌, ◌<◌, ◌≡◌, refl, sym, ap, ◌∙◌, inl, inr, Bool, true, false,
  List, [], ◌∷◌, map, arith, ltb, ◌==◌, Bool-cases, length, get_or, replicate, dec_lt,
  get_or-replicate, pos,
}
use sye.Threads.{
  letters_nb, Worker, count_round, count_loop, count_letters, split, gather, main, counted,
}
use sye.Threads.Chunks.{
  letters_in, total, gather-total, split-total, count_param-last, count_param-inner,
}
use native.Mathlib.Nat.{div-add-mod}

-- The thread is in its loop.
abbrev pub is_running : Worker → Bool
is_running w = ltb w.i w.size

-- One round of one thread that is in its loop.
pub data Step (text : List ℕ) : List Worker → List Worker → Type 0 where
  here :
      {w : Worker} {ws : List Worker}
      → is_running w ≡ true
      → Step text (w ∷ ws) (count_round text w ∷ ws)
  later : {w : Worker} {ws ws' : List Worker} → Step text ws ws' → Step text (w ∷ ws) (w ∷ ws')

-- A schedule of `n` rounds, the last one outermost.
pub data Run (text : List ℕ) (start : List Worker) : ℕ → List Worker → Type 0 where
  started : Run text start 0 start
  then_round :
      {n : ℕ} {ws ws' : List Worker}
      → Run text start n ws
      → Step text ws ws'
      → Run text start (suc n) ws'

-- The rounds that the threads still have to make.
unfoldable pub rounds_left : List Worker → ℕ
rounds_left [] = 0
rounds_left (w ∷ ws) = w.size - w.i + rounds_left ws

-- A round leaves what a thread has when it is run to its end.
count_letters-round :
    (text : List ℕ) (w : Worker)
    → is_running w ≡ true
    → count_letters text (count_round text w) ≡ count_letters text w
unfolding count_letters count_loop count_round
count_letters-round text w t =
    let more : w.size - w.i ≡ suc (w.size - (w.i + 1)) = ground arith in rw more refl

Step-ends :
    {text : List ℕ} {ws ws' : List Worker}
    → Step text ws ws'
    → map (count_letters text) ws' ≡ map (count_letters text) ws
Step-ends {text} (here {w} {ws} t) = rw (count_letters-round text w t) refl
Step-ends {text} (later {w} s) = ap (◌∷◌ (count_letters text w)) (Step-ends s)

Step-rounds_left :
    {text : List ℕ} {ws ws' : List Worker}
    → Step text ws ws'
    → suc (rounds_left ws') ≡ rounds_left ws
unfolding rounds_left count_round
Step-rounds_left (here t) = ground arith
Step-rounds_left (later s) = omega (arith, Step-rounds_left s)

Run-ends :
    {text : List ℕ} {start ws : List Worker} {n : ℕ}
    → Run text start n ws
    → map (count_letters text) ws ≡ map (count_letters text) start
Run-ends started = refl
Run-ends (then_round r s) = Step-ends s ∙ Run-ends r

Run-rounds_left :
    {text : List ℕ} {start ws : List Worker} {n : ℕ}
    → Run text start n ws
    → n + rounds_left ws ≡ rounds_left start
Run-rounds_left started = omega arith
Run-rounds_left (then_round r s) = omega (arith, Run-rounds_left r, Step-rounds_left s)

-- With no round left the threads are what they end with.
none_left :
    (text : List ℕ) (ws : List Worker) → rounds_left ws ≡ 0 → map (count_letters text) ws ≡ ws
unfolding rounds_left count_letters count_loop
none_left text [] e = refl
none_left text (w ∷ ws) e =
    let done : w.size - w.i ≡ 0 = omega arith in rw (done, none_left text ws (omega arith)) refl

some_left :
    (text : List ℕ) (ws : List Worker) → 0 < rounds_left ws → (ws' : List Worker) × Step text ws ws'
unfolding rounds_left
some_left text [] p = absurd (omega arith)
some_left text (w ∷ ws) p = elim (Bool-cases (is_running w)) [
  | inl t ↦ (count_round text w ∷ ws, here t)
  | inr t ↦ let (ws', s) = some_left text ws (ground arith) in (w ∷ ws', later s)
]

split-rounds_left :
    (n : ℕ) (text : List ℕ) (left i : ℕ)
    → i + left ≡ n
    → 0 < left
    → rounds_left (split n text left i) ≡ length text - i * (length text / n)
unfolding rounds_left split
split-rounds_left n text zero i e p = absurd (omega arith)
split-rounds_left n text (suc zero) i e p =
    let c = length text / n in
    let last : (i == n - 1) ≡ true = ground arith in
    let n' : n ≡ suc i = omega arith in
    rw (count_param-last n text i last)
      (omega (arith, div-add-mod (length text) n, ap (λ (t : ℕ). t * c) n'))
split-rounds_left n text (suc (suc left)) i e p =
    let c = length text / n in
    let inner : (i == n - 1) ≡ false = ground arith in
    let rest = split-rounds_left n text (suc left) (i + 1) (omega arith) (omega arith) in
    rw (count_param-inner n text i inner)
      (omega (arith, rest, div-add-mod (length text) n, ap (λ (t : ℕ). t * c) e))

-- What holds after `n` rounds: some thread can make one more, or `main` finds in the counters how
-- often each letter stands in the text.
pub data Progress (text : List ℕ) (thread_num n : ℕ) (ws : List Worker) : Type 0 where
  goes_on : n < length text → (ws' : List Worker) × Step text ws ws' → Progress text thread_num n ws
  ends :
      n ≡ length text
      → (counters : List ℕ) × (main 3 (pos thread_num) text (λ joined. ws) ≡ counted counters)
        × ((j : ℕ) → j < letters_nb → get_or counters j 0 ≡ letters_in j text 0 (length text))
      → Progress text thread_num n ws

ended_total :
    (text : List ℕ) (t : ℕ) (ws : List Worker) (j : ℕ)
    → 0 < t
    → ws ≡ map (count_letters text) (split t text t 0)
    → j < letters_nb
    → get_or (gather ws (replicate letters_nb 0)) j 0 ≡ letters_in j text 0 (length text)
ended_total text t ws j p same inside =
    let start : 0 * (length text / t) ≡ 0 = omega arith in
    let whole : length text - 0 ≡ length text = omega arith in
    let sum = split-total j t text t 0 (omega arith) p in
    let shift : letters_in j text (0 * (length text / t)) (length text - 0 * (length text / t))
        ≡ letters_in j text 0 (length text) =
      rw (start, whole) refl in
    let zeros = get_or-replicate {A = ℕ} letters_nb j 0 in
    omega (
      arith,
      gather-total j ws (replicate letters_nb 0) inside refl,
      zeros,
      ap (total j) same,
      sum,
      shift,
    )

main_counts :
    (text : List ℕ) (t : ℕ) (ws : List Worker)
    → 0 < t
    → t ≤ 15
    → main 3 (pos t) text (λ joined. ws) ≡ counted (gather ws (replicate letters_nb 0))
unfolding main
main_counts text t ws p q =
    let some_threads : (t == 0) ≡ false = ground arith in
    let few_threads : ltb 15 t ≡ false = ground arith in rw (some_threads, few_threads) refl

-- With 1 to 15 threads, a schedule of the threads of `main` makes at most one round for each byte
-- of the text. After fewer rounds some thread can make one more; after that many, `main` finds in
-- the counters how often each letter stands in the text, whatever the order of the rounds was.
pub Run-Progress :
    (text : List ℕ) (thread_num n : ℕ) (ws : List Worker)
    → 0 < thread_num
    → thread_num ≤ 15
    → Run text (split thread_num text thread_num 0) n ws
    → Progress text thread_num n ws
Run-Progress text t n ws p q r =
    let all = split-rounds_left t text t 0 (omega arith) p in
    let left = Run-rounds_left r in
    elim (dec_lt n (length text)) [
      | yes more ↦ goes_on more (some_left text ws (omega arith))
      | no over ↦
          let same = sym (none_left text ws (omega arith)) ∙ Run-ends r in
          ends (omega arith) (
            gather ws (replicate letters_nb 0),
            main_counts text t ws p q,
            λ j inside. ended_total text t ws j p same inside,
          )
    ]
