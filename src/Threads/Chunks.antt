-- ===== src/Threads/Chunks.antt =====
-- The counts of threads.c against the number of times that a letter stands in the text.
use sye.Base.{
  ℕ, zero, suc, ◌+◌, ◌-◌, ◌*◌, ◌/◌, ◌%◌, ◌≤◌, ◌<◌, ◌≡◌, refl, ap, ◌∙◌, inl, inr, Bool, true, false,
  ◌&&◌, List, [], ◌∷◌, map, arith, ◌==◌, Bool-cases, length, get_or, set, replicate, get_or-set,
  length-set, one_if, ℕ_discrete, get_or-set_self, get_or-set_ne, get_or-replicate,
}
use native.Mathlib.Nat.{div-add-mod}
use sye.Threads.{
  letters_nb, a_lower_offset, isalpha, tolower, Worker, count_char, count_round, count_loop,
  count_letters, count_param, split, add_counters, gather,
}

-- The byte is letter number `j`, small or capital.
abbrev pub is_letter : ℕ → ℕ → Bool
is_letter j c = isalpha c && (tolower c - a_lower_offset) == j

-- How often letter `j` stands among the `left` bytes from `offset` on.
unfoldable pub letters_in : (j : ℕ) → List ℕ → (offset left : ℕ) → ℕ
letters_in j text offset zero = 0
letters_in j text offset (suc left) =
    one_if (is_letter j (get_or text offset 0)) + letters_in j text (offset + 1) left

letters_in-add :
    (j : ℕ) (text : List ℕ) (offset a b : ℕ)
    → letters_in j text offset (a + b)
      ≡ letters_in j text offset a + letters_in j text (offset + a) b
unfolding letters_in
letters_in-add j text offset zero b =
    let e : offset + 0 ≡ offset = omega arith in
    let e' : 0 + b ≡ b = omega arith in rw (e, e') (omega arith)
letters_in-add j text offset (suc a) b =
    let e : suc a + b ≡ suc (a + b) = omega arith in
    let e' : offset + suc a ≡ offset + 1 + a = omega arith in
    rw (e, e') (omega (arith, letters_in-add j text (offset + 1) a b))

-- The counters keep their number, and the one of letter `j` grows with the letter.
count_char-counters :
    (j c : ℕ) (counters : List ℕ)
    → length counters ≡ letters_nb
    → (length (count_char c counters) ≡ letters_nb)
      × (get_or (count_char c counters) j 0 ≡ get_or counters j 0 + one_if (is_letter j c))
unfolding count_char
count_char-counters j c counters size = elim (Bool-cases (isalpha c)) [
  | inl t ↦
      let k = tolower c - a_lower_offset in
      let inside : k < length counters = ground arith in
      let v = get_or counters k 0 + 1 in
      rw t (length-set counters k v ∙ size, ground (arith, get_or-set counters k j v 0 inside))
  | inr t ↦ rw t (size, omega arith)
]

count_loop-counters :
    (j : ℕ) (text : List ℕ) (left : ℕ) (w : Worker)
    → length w.counters ≡ letters_nb
    → (length (count_loop text left w).counters ≡ letters_nb)
      × (get_or (count_loop text left w).counters j 0
          ≡ get_or w.counters j 0 + letters_in j text (w.text_pointer + w.i) left)
unfolding count_loop letters_in count_round
count_loop-counters j text zero w size = (size, omega arith)
count_loop-counters j text (suc left) w size =
    let (size', one) =
      count_char-counters j (get_or text (w.text_pointer + w.i) 0) w.counters size in
    let (size'', rest) = count_loop-counters j text left (count_round text w) size' in
    let next : w.text_pointer + (w.i + 1) ≡ w.text_pointer + w.i + 1 = omega arith in
    (size'', rest ∙ rw (next, one) (omega arith))

add_counters-past :
    (left k j : ℕ) (w : Worker) (result : List ℕ)
    → j < k
    → get_or (add_counters left k w result) j 0 ≡ get_or result j 0
unfolding add_counters
add_counters-past zero k j w result p = refl
add_counters-past (suc left) k j w result p =
    add_counters-past left (k + 1) j w _ (omega arith)
    ∙ get_or-set_ne result k j _ 0 (λ e. absurd (omega arith))

add_counters-length :
    (left k : ℕ) (w : Worker) (result : List ℕ)
    → length (add_counters left k w result) ≡ length result
unfolding add_counters
add_counters-length zero k w result = refl
add_counters-length (suc left) k w result =
    add_counters-length left (k + 1) w _ ∙ length-set result k _

add_counters-sum :
    (left k j : ℕ) (w : Worker) (result : List ℕ)
    → k ≤ j
    → j < k + left
    → j < length result
    → get_or (add_counters left k w result) j 0 ≡ get_or result j 0 + get_or w.counters j 0
unfolding add_counters
add_counters-sum zero k j w result p q r = absurd (omega arith)
add_counters-sum (suc left) k j w result p q r =
    let v = get_or result k 0 + get_or w.counters k 0 in
    elim (ℕ_discrete k j) [
      | yes e ↦
          add_counters-past left (k + 1) j w (set result k v) (omega arith)
          ∙ rw e (get_or-set_self result j (get_or result j 0 + get_or w.counters j 0) 0 r)
      | no e ↦
          add_counters-sum left (k + 1) j w (set result k v) (omega arith) (omega arith)
            (omega (arith, length-set result k v))
          ∙ rw (get_or-set_ne result k j v 0 e) refl
    ]

-- The counters of letter `j` added up.
unfoldable pub total : ℕ → List Worker → ℕ
total j [] = 0
total j (w ∷ ws) = get_or w.counters j 0 + total j ws

pub gather-total :
    (j : ℕ) (ws : List Worker) (result : List ℕ)
    → j < letters_nb
    → length result ≡ letters_nb
    → get_or (gather ws result) j 0 ≡ get_or result j 0 + total j ws
unfolding gather total
gather-total j [] result p size = omega arith
gather-total j (w ∷ ws) result p size =
    let rest =
      gather-total j ws (add_counters letters_nb 0 w result) p
        (add_counters-length letters_nb 0 w result ∙ size) in
    let here = add_counters-sum letters_nb 0 j w result (omega arith) (omega arith) (omega arith) in
    omega (arith, rest, here)

-- A thread that has not started.
abbrev pub fresh : (text_pointer size : ℕ) → Worker
fresh text_pointer size = record {
  text_pointer = text_pointer;
  size = size;
  counters = replicate letters_nb 0;
  i = 0;
}

count_letters-fresh :
    (j : ℕ) (text : List ℕ) (start size : ℕ)
    → get_or (count_letters text (fresh start size)).counters j 0 ≡ letters_in j text start size
unfolding count_letters
count_letters-fresh j text start size =
    let (_, run) = count_loop-counters j text (size - 0) (fresh start size) refl in
    let begin : start + 0 ≡ start = omega arith in
    let full : size - 0 ≡ size = omega arith in
    let zeros = get_or-replicate {A = ℕ} letters_nb j 0 in
    run ∙ rw (begin, full, zeros) (omega arith)

pub count_param-last :
    (n : ℕ) (text : List ℕ) (i : ℕ)
    → (i == n - 1) ≡ true
    → count_param n text i ≡ fresh (i * (length text / n)) (length text / n + length text % n)
unfolding count_param
count_param-last n text i t = rw t refl

pub count_param-inner :
    (n : ℕ) (text : List ℕ) (i : ℕ)
    → (i == n - 1) ≡ false
    → count_param n text i ≡ fresh (i * (length text / n)) (length text / n)
unfolding count_param
count_param-inner n text i t = rw t refl

-- The chunks of the threads from `i` on, run one after the other, hold every letter from the start
-- of chunk `i` to the end of the text, where `left` threads are left and `i + left` is their number.
pub split-total :
    (j thread_num : ℕ) (text : List ℕ) (left i : ℕ)
    → i + left ≡ thread_num
    → 0 < left
    → total j (map (count_letters text) (split thread_num text left i))
      ≡ letters_in j text
          (i * (length text / thread_num))
          (length text - i * (length text / thread_num))
unfolding total split
split-total j n text zero i e p = absurd (omega arith)
split-total j n text (suc zero) i e p =
    let c = length text / n in
    let last : (i == n - 1) ≡ true = ground arith in
    let n' : n ≡ suc i = omega arith in
    let size : length text - i * c ≡ c + length text % n =
      omega (arith, div-add-mod (length text) n, ap (λ (t : ℕ). t * c) n') in
    rw (count_param-last n text i last, size)
      (omega (arith, count_letters-fresh j text (i * c) (c + length text % n)))
split-total j n text (suc (suc left)) i e p =
    let c = length text / n in
    let inner : (i == n - 1) ≡ false = ground arith in
    let room : i * c + c + (left + 1) * c ≤ length text =
      omega (arith, div-add-mod (length text) n, ap (λ (t : ℕ). t * c) e) in
    let rest = split-total j n text (suc left) (i + 1) (omega arith) (omega arith) in
    let here = count_letters-fresh j text (i * c) c in
    let next : (i + 1) * c ≡ i * c + c = omega arith in
    let size : length text - i * c ≡ c + (length text - (i * c + c)) = omega arith in
    let shift : letters_in j text ((i + 1) * c) (length text - (i + 1) * c)
        ≡ letters_in j text (i * c + c) (length text - (i * c + c)) =
      rw next refl in
    rw (count_param-inner n text i inner, size)
      (omega
        (arith, here, rest, shift, letters_in-add j text (i * c) c (length text - (i * c + c))))
