-- ===== src/Player/Tests.antt =====
-- A player of tictactoe_player.c who types a wrong word first.
use sye.Base.{
  ℕ, ◌≡◌, refl, none, some, List, [], ◌∷◌, if◌then◌else◌, get_elem?, replicate, Text, codes,
  digits_value, pos, ◌==ℤ◌, atoi, is_space, ◌^◌, ◌<◌, ◌==◌, false, arith,
}
use sye.Player.{cell_index, line_loop, parse_line, get_input_move, game_over, overrun, player_loop}
use sye.Player.Moves.{ReadsInts, Parsed, parse_line-Parsed, moves_of, accepts-player_loop}
use sye.Tictactoe.{Header, cell, accepts, Cmd, game_start, you_can_play, move_rejected, you_win}

abbrev cmds : List Cmd
cmds = game_start ∷ you_can_play ∷ move_rejected ∷ you_win ∷ []

abbrev words_typed : List Text
words_typed = codes "x" ∷ codes "1" ∷ codes "9" ∷ []

session : player_loop atoi 20 cmds words_typed [] ≡ game_over (pos 8 ∷ pos 0 ∷ [])
unfolding player_loop get_input_move parse_line line_loop cell_index atoi digits_value
session = refl

first_sent : get_elem? (moves_of (player_loop atoi 20 cmds words_typed [])) 1 ≡ some (pos 0)
unfolding player_loop get_input_move parse_line line_loop cell_index atoi digits_value
first_sent = refl

abbrev board : Header
board = record { grid_size = 9; player_id = pos 1; ai_id = pos 2; empty_id = pos 0; max_depth = 3 }

-- Digits start with no sign and no space.
atoi-ReadsInts : ReadsInts atoi
unfolding atoi digits_value
atoi-ReadsInts [] d low = refl
atoi-ReadsInts (c ∷ s) d low =
    let no_space : is_space c ≡ false = ground arith in
    let no_minus : (c == 45) ≡ false = ground arith in
    let no_plus : (c == 43) ≡ false = ground arith in rw (no_space, no_minus, no_plus, atoi) refl

value : digits_value 0 (codes "12") < 2 ^ 31
unfolding digits_value
value = omega arith

-- A word that does not fit.
long_word : player_loop atoi 3 (you_can_play ∷ []) (codes "123" ∷ []) [] ≡ overrun []
unfolding player_loop get_input_move
long_word = refl

parse_line-Parsed_example : Parsed 20 (codes "12") (parse_line atoi 20 (codes "12"))
parse_line-Parsed_example = parse_line-Parsed atoi 20 (codes "12") atoi-ReadsInts value

accepts-player_loop_example :
    (i : ℕ) × (pos 0 ≡ pos i)
    × (accepts board (replicate 9 (pos 0)) (pos 0)
        ≡ (if cell (replicate 9 (pos 0)) i ==ℤ pos 0 then some i else none))
accepts-player_loop_example =
    accepts-player_loop atoi board (replicate 9 (pos 0)) 20 cmds words_typed 1 (pos 0) refl
      first_sent
