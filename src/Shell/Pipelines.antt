-- ===== src/Shell/Pipelines.antt =====
-- The general case of `process_cmd` of sh.c: commands with a pipe, and in the background.
use sye.Base.{
  ◌+◌, ◌≤◌, leb, length, ◌≡◌, refl, ap, ◌∙◌, Bool, true, false, not, ◌&&◌, some, List, [], ◌∷◌,
  ◌++◌, map, arith, Text, codes, same_text,
}
use mathlib.Core.List.{append_assoc, append-nil}
use sye.Shell.{
  Tokens, Cell, word, null, unset, Launch, take_token, scan, exec_args, run, run_pipe, launch_cmd,
  idle, is_file, filename_size,
}

-- A token that the loop takes as an argument.
abbrev pub is_plain : Text → Bool
is_plain t =
    not (same_text t []) && (not (same_text t (codes "&")) && not (same_text t (codes "|")))

abbrev pub all_plain : List Text → Bool
all_plain [] = true
all_plain (t ∷ ts) = is_plain t && all_plain ts

-- Where the tokens of a command end: at "&" in the background, else at an empty element.
abbrev pub end_of : (background : Bool) → Tokens → Tokens
end_of true rest = codes "&" ∷ rest
end_of false rest = [] ∷ rest

abbrev words : List Text → List Cell
words ts = map word ts

abbrev unsets : List Text → List Cell
unsets ts = map (λ t. unset) ts

exec_args-words : (ts : List Text) → exec_args (words ts) ≡ ts
unfolding exec_args
exec_args-words [] = refl
exec_args-words (t ∷ ts) = ap (◌∷◌ t) (exec_args-words ts)

exec_args-null : (ts : List Text) (cells : List Cell) → exec_args (words ts ++ (null ∷ cells)) ≡ ts
unfolding exec_args
exec_args-null [] cells = refl
exec_args-null (t ∷ ts) cells = ap (◌∷◌ t) (exec_args-null ts cells)

abbrev launch : List Cell → List Text → Bool → Bool → Launch
launch argv argv2 pipe_on background = record {
  argv = argv;
  argv2 = argv2;
  pipe_on = pipe_on;
  background = background;
}

scan-end :
    (background : Bool) (rest : Tokens) (argv : List Cell) (argv2 : List Text) (pipe_on : Bool)
    → scan (end_of background rest) (launch argv argv2 pipe_on false)
      ≡ some (launch argv argv2 pipe_on background)
unfolding scan same_text
scan-end true rest argv argv2 pipe_on = refl
scan-end false rest argv argv2 pipe_on = refl

scan-words :
    (ts rest : List Text) (argv : List Cell)
    → all_plain ts ≡ true
    → scan (ts ++ rest) (launch argv [] false false)
      ≡ scan rest (launch (argv ++ words ts) [] false false)
unfolding scan take_token
scan-words [] rest argv e = rw append-nil
scan-words (t ∷ ts) rest argv e =
    let filled : same_text t [] ≡ false = ground arith in
    let waits : same_text t (codes "&") ≡ false = ground arith in
    let no_pipe : same_text t (codes "|") ≡ false = ground arith in
    rw (filled, waits, no_pipe, scan)
      (scan-words ts rest (argv ++ word t ∷ []) (ground arith)
        ∙ rw (append_assoc argv (word t ∷ []) (words ts)) refl)

scan-after_pipe :
    (ts rest : List Text) (argv : List Cell) (argv2 : List Text)
    → all_plain ts ≡ true
    → scan (ts ++ rest) (launch argv argv2 true false)
      ≡ scan rest (launch (argv ++ unsets ts) (argv2 ++ ts) true false)
unfolding scan take_token
scan-after_pipe [] rest argv argv2 e = rw (append-nil argv, append-nil argv2) refl
scan-after_pipe (t ∷ ts) rest argv argv2 e =
    let filled : same_text t [] ≡ false = ground arith in
    let waits : same_text t (codes "&") ≡ false = ground arith in
    let no_pipe : same_text t (codes "|") ≡ false = ground arith in
    rw (filled, waits, no_pipe, scan)
      (scan-after_pipe ts rest (argv ++ unset ∷ []) (argv2 ++ t ∷ []) (ground arith)
        ∙ rw (append_assoc argv (unset ∷ []) (unsets ts), append_assoc argv2 (t ∷ []) ts) refl)

scan-pipe :
    (ts : List Text) (argv : List Cell)
    → scan (codes "|" ∷ ts) (launch argv [] false false)
      ≡ scan ts (launch (argv ++ null ∷ []) [] true false)
unfolding scan take_token same_text
scan-pipe ts argv = refl

scan-one :
    (left rest : List Text) (background : Bool)
    → all_plain left ≡ true
    → scan (left ++ end_of background rest) idle ≡ some (launch (words left) [] false background)
scan-one left rest background e =
    scan-words left (end_of background rest) [] e ∙ scan-end background rest (words left) [] false

scan-two :
    (left right rest : List Text) (background : Bool)
    → all_plain left ≡ true
    → all_plain right ≡ true
    → scan (left ++ (codes "|" ∷ (right ++ end_of background rest))) idle
      ≡ some (launch ((words left ++ null ∷ []) ++ unsets right) right true background)
scan-two left right rest background e e' =
    scan-words left (codes "|" ∷ (right ++ end_of background rest)) [] e
    ∙ scan-pipe (right ++ end_of background rest) (words left)
    ∙ scan-after_pipe right (end_of background rest) (words left ++ null ∷ []) [] e'
    ∙ scan-end background rest ((words left ++ null ∷ []) ++ unsets right) right true

-- Tokens that are not empty, "&" or "|", the first of at most 25 bytes, up to an empty element or a
-- "&", run as the arguments of one process, in the background exactly for the "&"; with one "|"
-- between such tokens those before it and those after it, where there is one, run as the arguments
-- of the two processes of a pipe.
pub launch_cmd-Pipeline :
    (t u : Text) (left right rest : List Text) (background : Bool)
    → all_plain (t ∷ left) ≡ true
    → all_plain (u ∷ right) ≡ true
    → length t ≤ 25
    → length u ≤ 25
    → (launch_cmd ((t ∷ left) ++ end_of background rest) ≡ run (t ∷ left) background)
      × (launch_cmd ((t ∷ left) ++ (codes "|" ∷ ((u ∷ right) ++ end_of background rest)))
          ≡ run_pipe (t ∷ left) (u ∷ right) background)
unfolding launch_cmd exec_args is_file
launch_cmd-Pipeline t u left right rest background e e' fits fits' =
    let name : leb (length t + 5) filename_size ≡ true = ground arith in
    let name' : leb (length u + 5) filename_size ≡ true = ground arith in
    (
      rw (scan-one (t ∷ left) rest background e, exec_args-words left, name, launch_cmd) refl,
      rw
          (
            scan-two (t ∷ left) (u ∷ right) rest background e e',
            append_assoc (words left) (null ∷ []) (unsets (u ∷ right)),
            exec_args-null left (unsets (u ∷ right)),
            name,
            name',
            launch_cmd,
          )
          refl,
    )
