-- ===== src/Threads.antt =====
-- l3-ipc/usr/src/threads.c: the letters of a text counted by several threads. The text is the list
-- of its bytes, which the program reads from a file; a pointer into it is an index.
pub mod Chunks
pub mod Runs
mod Tests
use sye.Base.{
  ℕ, zero, suc, ◌+◌, ◌-◌, ◌*◌, ◌/◌, ◌%◌, ◌^◌, ◌≤◌, ◌<◌, ◌≡◌, refl, sym, ap, ap₂, ◌∙◌, ◌≢◌, ◌⊎◌, inl,
  inr, Bool, true, false, not, ◌&&◌, ◌||◌, Option, none, some, List, [], ◌∷◌, ◌++◌, map, arith, ltb,
  leb, ◌==◌, if◌then◌else◌, Bool-cases, Option-cases, length, get_elem?, get_or, set, take, drop,
  replicate, bit_and, bit_or, u8, u16, u32, ◌<<<◌, ◌>>>◌, get_or-set, length-set, count_if, one_if,
  count_if-set, ℤ, pos, negsuc,
}

abbrev pub letters_nb : ℕ
letters_nb = 26

abbrev pub a_lower_offset : ℕ
a_lower_offset = 97

abbrev pub max_thread_num : ℕ
max_thread_num = 15

-- isalpha and tolower of the C library, in its default locale.
abbrev pub isalpha : ℕ → Bool
isalpha c = leb 65 c && leb c 90 || leb 97 c && leb c 122

abbrev pub tolower : ℕ → ℕ
tolower c = if leb 65 c && leb c 90 then c + 32 else c

-- A thread with its `count_param_t`; `i` is the variable of the loop of `count_letters`.
pub record Worker : Type 0 where
  pub text_pointer : ℕ
  pub size : ℕ
  pub counters : List ℕ
  pub i : ℕ

-- The body of the loop of `count_letters`.
pub count_char : ℕ → List ℕ → List ℕ
count_char c counters =
    let letter = tolower c - a_lower_offset in
    if isalpha c then set counters letter (get_or counters letter 0 + 1) else counters

-- One round of a thread.
pub count_round : List ℕ → Worker → Worker
count_round text w = record w {
  counters = count_char (get_or text (w.text_pointer + w.i) 0) w.counters;
  i = w.i + 1;
}

-- The loop of `count_letters`, with `left` rounds to go.
pub count_loop : List ℕ → (left : ℕ) → Worker → Worker
count_loop text zero w = w
count_loop text (suc left) w = count_loop text left (count_round text w)

pub count_letters : List ℕ → Worker → Worker
count_letters text w = count_loop text (w.size - w.i) w

-- The parameters of thread `i`.
pub count_param : (thread_num : ℕ) → List ℕ → ℕ → Worker
count_param thread_num text i =
    let chunk_size = length text / thread_num in
    let leftovers = length text % thread_num in
    record {
      text_pointer = i * chunk_size;
      size = if i == thread_num - 1 then chunk_size + leftovers else chunk_size;
      counters = replicate letters_nb 0;
      i = 0;
    }

-- The loop that splits the text, with `left` threads to go.
pub split : (thread_num : ℕ) → List ℕ → (left i : ℕ) → List Worker
split thread_num text zero i = []
split thread_num text (suc left) i =
    count_param thread_num text i ∷ split thread_num text left (i + 1)

-- The two loops that add up the counters.
pub add_counters : (left j : ℕ) → Worker → List ℕ → List ℕ
add_counters zero j w result = result
add_counters (suc left) j w result =
    add_counters left (j + 1) w (set result j (get_or result j 0 + get_or w.counters j 0))

pub gather : List Worker → List ℕ → List ℕ
gather [] result = result
gather (w ∷ ws) result = gather ws (add_counters letters_nb 0 w result)

-- What `main` ends with: the usage, the refusal of the thread count, or the counters it prints.
pub data Outcome : Type 0 where
  usage bad_count : Outcome
  counted : List ℕ → Outcome

-- `main` on the number that atoi read. `join` is what the threads have made of their parameters
-- when all are joined.
pub main : (argc : ℕ) (thread_num : ℤ) → List ℕ → (join : List Worker → List Worker) → Outcome
main argc (negsuc n) text join = if argc == 3 then bad_count else usage
main argc (pos n) text join =
    if argc == 3
    then if n == 0 || ltb max_thread_num n
      then bad_count
      else counted (gather (join (split n text n 0)) (replicate letters_nb 0))
    else usage
