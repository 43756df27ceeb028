-- ===== src/Player.antt =====
-- l2-syscalls-fork/usr/src/tictactoe_player.c: the player's side of the tic-tac-toe game. The words
-- typed and the commands received are lists; atoi of the C library is a parameter.
pub mod Moves
mod Tests
use sye.Base.{
  ℕ, zero, suc, ◌+◌, ◌-◌, ◌*◌, ◌/◌, ◌%◌, ◌^◌, ◌≤◌, ◌<◌, ◌≡◌, refl, sym, ap, ap₂, ◌∙◌, ◌≢◌, ◌⊎◌, inl,
  inr, Bool, true, false, not, ◌&&◌, ◌||◌, Option, none, some, List, [], ◌∷◌, ◌++◌, map, arith, ltb,
  leb, ◌==◌, if◌then◌else◌, Bool-cases, Option-cases, length, get_elem?, get_or, set, take, drop,
  replicate, bit_and, bit_or, u8, u16, u32, ◌<<<◌, ◌>>>◌, get_or-set, length-set, count_if, one_if,
  count_if-set, ℤ, pos, negsuc, Text, digits_value, is_digit, length-append, ◌==ℤ◌,
}
use sye.Tictactoe.{
  Cmd, game_start, you_can_play, move_rejected, you_win, you_lose, no_winner, game_end,
}

-- The tests of an index that atoi gave, and its place in the grid; `none` is 0.
pub cell_index : ℤ → Option ℕ
cell_index (pos index) = if index == 0 || ltb 9 index then none else some (index - 1)
cell_index (negsuc n) = none

-- How get_input_move ends: with a move and the words left, waiting for a word, or by a word that
-- scanf writes past the end of the buffer, after which C says nothing.
pub data Input : Type 0 where
  typed : ℕ → List Text → Input
  no_word too_long_word : Input

-- How the process of the player ends, with the moves sent, the last one first: by a command, waiting
-- for a command or for a word, or by a word that is too long.
pub data Played : Type 0 where
  game_over waits overrun : List ℤ → Played

module _ (atoi : Text → ℤ) where
  -- The loop of `parse_line`, with `left` rounds to go, on the rest of the text; `none` is 0.
  pub line_loop : (left : ℕ) → Text → (buffer : Text) → Option ℕ
  line_loop zero s buffer = none
  line_loop (suc left) [] buffer = cell_index (atoi buffer)
  line_loop (suc left) (c ∷ s) buffer =
      let rest = line_loop left s (buffer ++ c ∷ []) in if is_digit c then rest else none

  -- `max` is MAX_BUFFER_LENGTH.
  pub parse_line : (max : ℕ) → Text → Option ℕ
  parse_line max [] = none
  parse_line max (c ∷ s) = line_loop max (c ∷ s) []

  pub get_input_move : (max : ℕ) → List Text → Input
  get_input_move max [] = no_word
  get_input_move max (s ∷ words) =
      let again = get_input_move max words in
      if leb max (length s)
      then too_long_word
      else elim (parse_line max s) [ none ↦ again | some index ↦ typed index words ]

  -- The loop of `main` on the commands received.
  pub player_loop : (max : ℕ) → List Cmd → List Text → List ℤ → Played
  player_loop max [] words sent = waits sent
  player_loop max (game_start ∷ cmds) words sent = player_loop max cmds words sent
  player_loop max (game_end ∷ cmds) words sent = game_over sent
  player_loop max (you_can_play ∷ cmds) words sent = elim (get_input_move max words) [
    | no_word ↦ waits sent
    | too_long_word ↦ overrun sent
    | typed pending_move rest ↦ player_loop max cmds rest (pos pending_move ∷ sent)
  ]
  player_loop max (move_rejected ∷ cmds) words sent = elim (get_input_move max words) [
    | no_word ↦ waits sent
    | too_long_word ↦ overrun sent
    | typed pending_move rest ↦ player_loop max cmds rest (pos pending_move ∷ sent)
  ]
  player_loop max (no_winner ∷ cmds) words sent = game_over sent
  player_loop max (you_win ∷ cmds) words sent = game_over sent
  player_loop max (you_lose ∷ cmds) words sent = game_over sent
