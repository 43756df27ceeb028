-- ===== src/Shell/Tests.antt =====
-- Lines given to the shell, and its theorems at these lines.
use sye.Base.{
  ℕ, ◌-◌, ◌≡◌, refl, true, false, none, some, List, [], ◌∷◌, ◌++◌, arith, replicate, Text, codes,
  same_text, atoi, digits_value, pos,
}
use sye.Shell.{
  no_tokens, parse_token, scan, take_token, skip_spaces, until_space, strtok, set_token, parse_loop,
  run, run_pipe, send, sigkill, no_signal, past_tokens, bad_filename, is_file, launch_cmd,
  process_cmd, kill_cmd, command, exec_args, keep_root, token_nr,
}
use sye.Shell.Parsing.{line, texts, is_spaced, is_token, no_space, parse_token-line}
use sye.Shell.Pipelines.{end_of, launch_cmd-Pipeline, all_plain}

-- " ls  -l &"
abbrev ls_line : List (Text × ℕ)
ls_line = (codes "ls", 2) ∷ (codes "-l", 1) ∷ (codes "&", 0) ∷ []

ls_spaced : is_spaced ls_line ≡ true
unfolding is_spaced is_token no_space
ls_spaced = refl

parse_token-line_example :
    parse_token (line 1 ls_line) no_tokens ≡ some (texts ls_line ++ replicate (token_nr - 3) [])
parse_token-line_example = parse_token-line 1 ls_line ls_spaced (omega arith)

-- The line is " ls  -l &", and runs in the background.
ls_runs :
    (line 1 ls_line ≡ codes " ls  -l &")
    × (command 5 (codes " ls  -l &")
        ≡ some (texts ls_line ++ replicate 7 [], run (codes "ls" ∷ codes "-l" ∷ []) true))
unfolding line command parse_token parse_loop strtok skip_spaces until_space set_token process_cmd
    launch_cmd scan take_token exec_args is_file same_text
ls_runs = (refl, refl)

plain_words : all_plain (codes "ls" ∷ codes "-l" ∷ []) ≡ true
unfolding same_text
plain_words = refl

plain_word : all_plain (codes "cat" ∷ []) ≡ true
unfolding same_text
plain_word = refl

launch_cmd-Pipeline_example :
    (launch_cmd ((codes "ls" ∷ codes "-l" ∷ []) ++ end_of true [])
      ≡ run (codes "ls" ∷ codes "-l" ∷ []) true)
    × (launch_cmd
          ((codes "ls" ∷ codes "-l" ∷ []) ++ (codes "|" ∷ ((codes "cat" ∷ []) ++ end_of true [])))
        ≡ run_pipe (codes "ls" ∷ codes "-l" ∷ []) (codes "cat" ∷ []) true)
launch_cmd-Pipeline_example =
    launch_cmd-Pipeline (codes "ls") (codes "cat") (codes "-l" ∷ []) [] [] true plain_words
      plain_word (omega arith) (omega arith)

-- The second pipe of a line is forgotten, an unknown signal is sent to a pid that is not set, and
-- ten arguments are read past the end of the array.
edge_cases :
    (launch_cmd (codes "a" ∷ codes "|" ∷ codes "b" ∷ codes "|" ∷ codes "c" ∷ [] ∷ [])
      ≡ run_pipe (codes "a" ∷ []) (codes "b" ∷ codes "c" ∷ []) false)
    × (process_cmd 5 (codes "kill" ∷ codes "-2" ∷ codes "7" ∷ []) ≡ send none no_signal)
    × (process_cmd 5 (codes "kill" ∷ codes "-9" ∷ codes "17" ∷ []) ≡ send (some (pos 17)) sigkill)
    × (launch_cmd (replicate 10 (codes "a")) ≡ past_tokens)
    × (launch_cmd (codes "a" ∷ codes "|" ∷ [] ∷ []) ≡ bad_filename)
    × (launch_cmd (replicate 26 97 ∷ [] ∷ []) ≡ bad_filename)
    × (process_cmd 1 (codes "exit" ∷ []) ≡ keep_root)
unfolding process_cmd kill_cmd launch_cmd scan take_token exec_args is_file same_text atoi
    digits_value
edge_cases = (refl, refl, refl, refl, refl, refl, refl)
