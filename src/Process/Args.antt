-- ===== src/Process/Args.antt =====
-- preserve_args_and_env and post_setup_image of process.c: the page that holds the arguments and
-- the environment of a program. Memory is a function from addresses to bytes, a pointer and an int
-- are four bytes of it, the low one first, and a string is a list of bytes with no 0.
pub mod Words
pub mod Place
pub mod Page
pub mod Relocate
pub mod RoundTrip
mod Tests
use sye.Base.{
  ℕ, zero, suc, ◌+◌, ◌-◌, ◌*◌, ◌/◌, ◌%◌, ◌^◌, ◌≤◌, ◌<◌, ◌≡◌, refl, sym, ap, ap₂, ◌∙◌, ◌≢◌, ◌⊎◌, inl,
  inr, Bool, true, false, not, ◌&&◌, ◌||◌, Option, none, some, List, [], ◌∷◌, ◌++◌, map, arith, ltb,
  leb, ◌==◌, if◌then◌else◌, Bool-cases, Option-cases, length, get_elem?, get_or, set, take, drop,
  replicate, bit_and, bit_or, u8, u16, u32, ◌<<<◌, ◌>>>◌, get_or-set, length-set, count_if, one_if,
  count_if-set,
}
use sye.Process.{Errno, einval, enomem}

abbrev pub Memory : Type 0
Memory = ℕ → ℕ

abbrev pub page_size : ℕ
page_size = 4096

abbrev pub put : Memory → ℕ → ℕ → Memory
put m a v b = if b == a then v else m b

pub store_word : Memory → ℕ → ℕ → Memory
store_word m a v =
    put (put (put (put m a (v % 256)) (a + 1) (v / 256 % 256)) (a + 2) (v / 65536 % 256)) (a + 3)
      (v / 16777216 % 256)

pub load_word : Memory → ℕ → ℕ
load_word m a = m a + m (a + 1) * 256 + m (a + 2) * 65536 + m (a + 3) * 16777216

-- strcpy
pub store_string : Memory → ℕ → List ℕ → Memory
store_string m a [] = put m a 0
store_string m a (c ∷ s) = store_string (put m a c) (a + 1) s

-- The two loops that store a pointer at `slot`, copy a string to `p` and then test whether the page
-- is exceeded; the result is the memory and the place after the last string, or ENOMEM. The memory
-- after an error, in which the last string may have left the page, is not followed.
pub place : (args : ℕ) → Memory → (slot p : ℕ) → List (List ℕ) → Option (Memory × ℕ)
place args m slot p [] = some (m, p)
place args m slot p (s ∷ ss) =
    let p' = p + length s + 1 in
    let rest = place args (store_string (store_word m slot p) p s) (slot + 4) p' ss in
    if ltb page_size (p' - args) then none else rest

pub clear_page : Memory → ℕ → Memory
clear_page m args b = if leb args b && ltb b (args + page_size) then 0 else m b

-- Where the strings start: after argc, the pointers to them and one pointer that stays NULL.
pub strings_start : (args argc : ℕ) → Option (List (List ℕ)) → ℕ
strings_start args argc envp =
    args
    + 4
    + (if argc == 0 then 4 else 4 * argc)
    + (elim envp [ none ↦ 4 | some env ↦ 4 * (length env + 1) ])

-- The page as it is before the strings are placed.
pub page_header : Memory → (args argc : ℕ) → Option (List (List ℕ)) → Memory
page_header m args argc envp =
    let counted = store_word (clear_page m args) args (if argc == 0 then 1 else argc) in
    elim envp [
      | none ↦ store_word counted (args + 4 + (if argc == 0 then 4 else 4 * argc)) 0
      | some env ↦ counted
    ]

-- The strings of the environment, after those of the arguments end at `p`.
pub place_env : Memory → (args p : ℕ) → Option (List (List ℕ)) → Option Memory
place_env m args p none = some m
place_env m args p (some env) = elim (place args m (args + 4 + 4 * load_word m args) p env) [
  | none ↦ none
  | some (m', p') ↦ some m'
]

-- `args` is the address that malloc returned and `name` the name of the process. An error goes
-- with the number that is set.
pub data Preserved : Type 0 where
  failed : Errno → Preserved
  preserved : Memory → Preserved

pub place_all :
    Memory → (args : ℕ) → List ℕ → ℕ → List (List ℕ) → Option (List (List ℕ)) → Preserved
place_all m args name argc argv envp =
    let header = page_header m args argc envp in
    let p = strings_start args argc envp in
    let named = store_string (store_word header (args + 4) p) p name in
    let placed =
      if argc == 0
      then some (named, p + length name + 1)
      else place args header (args + 4) p (take argc argv) in
    elim placed [
      | none ↦ failed enomem
      | some (m', p') ↦ elim (place_env m' args p' envp) [
        | none ↦ failed enomem
        | some m'' ↦ preserved m''
      ]
    ]

pub preserve_args_and_env :
    Memory
    → (args : ℕ) → (name : List ℕ) → (argc : ℕ) → (argv envp : Option (List (List ℕ))) → Preserved
preserve_args_and_env m args name argc none envp =
    if ltb 0 argc then failed einval else place_all m args name argc [] envp
preserve_args_and_env m args name argc (some argv) envp = place_all m args name argc argv envp

-- The memcpy of the page to its definitive place.
pub copy_page : Memory → (args base : ℕ) → Memory
copy_page m args base b =
    if leb base b && ltb b (base + page_size) then m (args + (b - base)) else m b

-- A pointer into the page moves with it.
abbrev pub moved : (args base q : ℕ) → ℕ
moved args base q = u32 (q + 2 ^ 32 - args + base)

-- The loop over the pointers to the arguments, with `left` to go.
pub relocate : (args base left slot : ℕ) → Memory → Memory
relocate args base zero slot m = m
relocate args base (suc left) slot m =
    relocate args base left (slot + 4) (store_word m slot (moved args base (load_word m slot)))

-- The loop over the pointers to the environment, which ends at NULL; `none` is out of fuel.
pub relocate_env : (args base fuel slot : ℕ) → Memory → Option Memory
relocate_env args base zero slot m = none
relocate_env args base (suc fuel) slot m =
    let rest =
      relocate_env args base fuel (slot + 4)
        (store_word m slot (moved args base (load_word m slot))) in
    if load_word m slot == 0 then some m else rest

pub post_setup_image : (fuel args base : ℕ) → Memory → Option Memory
post_setup_image fuel args base m =
    let copied = copy_page m args base in
    let argc = load_word copied base in
    let m' = relocate args base argc (base + 4) copied in
    relocate_env args base fuel (base + 4 + argc * 4) m'
