-- ===== src/Shell.antt =====
-- l1-intro/usr/src/sh.c: the shell. A text is the list of its bytes. The system calls that a command
-- makes are values of `Action`; what fork, exec and wait do is not followed.
pub mod Parsing
pub mod Pipelines
mod Tests
use sye.Base.{
  ℕ, zero, suc, ◌+◌, ◌-◌, ◌*◌, ◌/◌, ◌%◌, ◌^◌, ◌≤◌, ◌<◌, ◌≡◌, refl, sym, ap, ap₂, ◌∙◌, ◌≢◌, ◌⊎◌, inl,
  inr, Bool, true, false, not, ◌&&◌, ◌||◌, Option, none, some, List, [], ◌∷◌, ◌++◌, map, arith, ltb,
  leb, ◌==◌, if◌then◌else◌, Bool-cases, Option-cases, length, get_elem?, get_or, set, take, drop,
  replicate, bit_and, bit_or, u8, u16, u32, ◌<<<◌, ◌>>>◌, get_or-set, length-set, count_if, one_if,
  count_if-set, ℤ, Text, codes, same_text, atoi,
}

abbrev pub token_nr : ℕ
token_nr = 10

-- The size of a token, with its final 0.
abbrev pub token_size : ℕ
token_size = 80

-- The delimiter of strtok.
abbrev pub space : ℕ
space = 32

pub skip_spaces : Text → Text
skip_spaces [] = []
skip_spaces (c ∷ s) = let rest = skip_spaces s in if c == space then rest else c ∷ s

-- The bytes up to the next space, and those after it.
pub until_space : Text → Text × Text
until_space [] = ([], [])
until_space (c ∷ s) =
    let (token, rest) = until_space s in if c == space then ([], s) else (c ∷ token, rest)

-- `strtok` on what is left of the text.
pub strtok : Text → Option (Text × Text)
strtok s = elim (skip_spaces s) [ [] ↦ none | c ∷ t ↦ some (until_space (c ∷ t)) ]

-- The global `tokens`: TOKEN_NR texts, an empty one where its first byte is 0.
abbrev pub Tokens : Type 0
Tokens = List Text

-- `strcpy(tokens[i], token)`; `none` writes past a token or past the array.
pub set_token : Tokens → ℕ → Text → Option Tokens
set_token tokens i token =
    if ltb i token_nr && ltb (length token) token_size then some (set tokens i token) else none

-- The calls of strtok, which are at most one more than the bytes; `none` is an overflow, or out of
-- fuel.
pub parse_loop : (fuel i : ℕ) → Text → Tokens → Option Tokens
parse_loop zero i s tokens = none
parse_loop (suc fuel) i s tokens = elim (strtok s) [
  | none ↦ some tokens
  | some (token, rest) ↦ elim (set_token tokens i token) [
    | none ↦ none
    | some tokens' ↦ parse_loop fuel (i + 1) rest tokens'
  ]
]

pub parse_token : Text → Tokens → Option Tokens
parse_token str tokens = parse_loop (length str + 1) 0 str tokens

-- The tokens that `main` resets before it reads a line.
abbrev pub no_tokens : Tokens
no_tokens = replicate token_nr []

-- An element of `argv`: a token, NULL, or one that is not set.
pub data Cell : Type 0 where
  word : Text → Cell
  null unset : Cell

-- The local variables of `process_cmd` that prepare the call of exec.
pub record Launch : Type 0 where
  pub argv : List Cell
  pub argv2 : List Text
  pub pipe_on : Bool
  pub background : Bool

-- What the loop does with a token that is neither empty nor "&".
pub take_token : Text → Launch → Launch
take_token t l =
    if same_text t (codes "|")
    then record l { pipe_on = true; argv = l.argv ++ null ∷ [] }
    else if l.pipe_on
    then record l { argv2 = l.argv2 ++ t ∷ []; argv = l.argv ++ unset ∷ [] }
    else record l { argv = l.argv ++ word t ∷ [] }

-- The loop over the tokens; `none` reads past the array.
pub scan : Tokens → Launch → Option Launch
scan [] l = none
scan (t ∷ ts) l =
    let rest = scan ts (take_token t l) in
    if same_text t []
    then some l
    else if same_text t (codes "&")
    then some (record l { background = true })
    else rest

-- The arguments that exec reads, up to the NULL that ends them; one that is not set is not read.
pub exec_args : List Cell → List Text
exec_args [] = []
exec_args (word t ∷ cells) = t ∷ exec_args cells
exec_args (null ∷ cells) = []
exec_args (unset ∷ cells) = []

pub data Signal : Type 0 where
  no_signal sigterm sigusr1 sigkill : Signal

-- The size of `filename`.
abbrev pub filename_size : ℕ
filename_size = 30

-- The file name made from argv[0], which is not NULL, with ".elf" and the final 0 fits.
pub is_file : List Text → Bool
is_file [] = false
is_file (t ∷ ts) = leb (length t + 5) filename_size

-- What the shell does with a command. The pid of `send` is missing where the variable is not set;
-- `run` has the arguments of one process, or of the two of a pipe; the file executed is that of the
-- first argument with ".elf" added. Last come a read past `tokens`, the arguments of a command that
-- starts with "&", which no NULL ends, and a file name that is copied from NULL or past the end of
-- `filename`, in one of the processes: after these C says nothing.
pub data Action : Type 0 where
  dump_sched dump_proc keep_root leave show_env nothing : Action
  set_env : Text → Text → Action
  unset_env : Text → Action
  send : Option ℤ → Signal → Action
  run : List Text → (background : Bool) → Action
  run_pipe : List Text → List Text → (background : Bool) → Action
  past_tokens unterminated bad_filename : Action

abbrev pub token : Tokens → ℕ → Text
token tokens i = get_or tokens i []

abbrev pub is_cmd : Tokens → Text → Bool
is_cmd tokens name = same_text (token tokens 0) name

abbrev pub is_empty : Text → Bool
is_empty t = same_text t []

pub setenv_cmd : Tokens → Action
setenv_cmd tokens =
    if is_empty (token tokens 1)
    then nothing
    else if is_empty (token tokens 2)
    then unset_env (token tokens 1)
    else set_env (token tokens 1) (token tokens 2)

pub kill_cmd : Tokens → Action
kill_cmd tokens =
    if is_empty (token tokens 2)
    then send (some (atoi (token tokens 1))) sigterm
    else if same_text (token tokens 1) (codes "-USR1")
    then send (some (atoi (token tokens 2))) sigusr1
    else if same_text (token tokens 1) (codes "-9")
    then send (some (atoi (token tokens 2))) sigkill
    else send none no_signal

abbrev pub idle : Launch
idle = record { argv = []; argv2 = []; pipe_on = false; background = false }

-- The general case. Without a pipe, argv[0] is set to tokens[0] again.
pub launch_cmd : Tokens → Action
launch_cmd tokens = elim (scan tokens idle) [
  | none ↦ past_tokens
  | some l ↦
      if l.pipe_on
      then if is_file (exec_args l.argv) && is_file l.argv2
        then run_pipe (exec_args l.argv) l.argv2 l.background
        else bad_filename
      else elim l.argv [
        | [] ↦ unterminated
        | c ∷ cells ↦
            if is_file (token tokens 0 ∷ [])
            then run (token tokens 0 ∷ exec_args cells) l.background
            else bad_filename
      ]
]

pub process_cmd : (getpid : ℕ) → Tokens → Action
process_cmd getpid tokens =
    if is_cmd tokens (codes "dumpsched")
    then dump_sched
    else if is_cmd tokens (codes "dumpproc")
    then dump_proc
    else if is_cmd tokens (codes "exit")
    then if getpid == 1 then keep_root else leave
    else if is_cmd tokens (codes "setenv")
    then setenv_cmd tokens
    else if is_cmd tokens (codes "env")
    then show_env
    else if is_cmd tokens (codes "kill")
    then kill_cmd tokens
    else launch_cmd tokens

-- The size of the buffer that gets writes to.
abbrev pub input_size : ℕ
input_size = 80

-- One round of the loop of `main` on a line: the tokens, reset and filled, and what is done; `none`
-- writes past the line buffer or the tokens.
pub command : (getpid : ℕ) → Text → Option (Tokens × Action)
command getpid line =
    let parsed = if is_empty line then some no_tokens else parse_token line no_tokens in
    elim (if leb input_size (length line) then none else parsed) [
      | none ↦ none
      | some tokens ↦
          some (tokens, if is_empty (token tokens 0) then nothing else process_cmd getpid tokens)
    ]
