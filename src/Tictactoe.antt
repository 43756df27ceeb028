-- ===== src/Tictactoe.antt =====
-- l2-syscalls-fork/usr/src/tictactoe_gm.c: the game manager of the tic-tac-toe game. What the
-- header tictactoe.h defines, which is not part of the repository, is the record `Header`.
-- The functions that write the global grid return it; the commands sent to the player's process
-- are a list, and those received from it an input list.
pub mod Ai
pub mod Win
pub mod Manager
mod Tests
use sye.Base.{
  ℕ, zero, suc, ◌+◌, ◌-◌, ◌%◌, ◌^◌, Bool, true, false, not, ◌&&◌, ◌||◌, Option, none, some, List,
  [], ◌∷◌, ◌++◌, ℤ, pos, negsuc, neg, ◌==ℤ◌, lt_ℤ, ◌==◌, ltb, if◌then◌else◌, get_or, set, u32,
  replicate,
}

-- The identifiers of tictactoe.h that the game manager uses.
pub record Header : Type 0 where
  pub grid_size : ℕ
  pub player_id : ℤ
  pub ai_id : ℤ
  pub empty_id : ℤ
  pub max_depth : ℕ

abbrev pub Grid : Type 0
Grid = List ℤ

abbrev pub cell : Grid → ℕ → ℤ
cell g i = get_or g i (pos 0)

-- STATE_PROGRESS, STATE_WIN and STATE_DRAW.
pub data State : Type 0 where
  progress win_state draw : State

module _ (h : Header) where
  -- The loop of `minmax` at cell `i`. `play` is the recursive call, at a smaller depth.
  pub minmax_loop :
      (play : ℤ → Grid → ℤ × Grid)
      → (player : ℤ) (left i : ℕ) → (move : Option ℕ) (score : ℤ) → Grid
      → ℤ × Grid
  minmax_loop play player zero i none score g = (pos 0, g)
  minmax_loop play player zero i (some m) score g = (score, g)
  minmax_loop play player (suc left) i move score g =
      let (reply, g') = play (neg player) (set g i player) in
      let next_score = neg reply in
      let better = lt_ℤ score next_score in
      let score' = (if better then next_score else score) in
      let g'' = set g' i (pos 0) in
      let rest =
        minmax_loop play player left (i + 1) (if better then some i else move) score' g'' in
      let skip = minmax_loop play player left (i + 1) move score g in
      if cell g i ==ℤ h.empty_id then if lt_ℤ (pos 0) score' then (score', g'') else rest else skip

  pub minmax : (depth : ℕ) → ℤ → Grid → ℤ × Grid
  minmax zero player g = (pos 0, g)
  minmax (suc depth) player g = minmax_loop (minmax depth) player h.grid_size 0 none (negsuc 1) g

  -- The loop of `computers_turn` at cell `i`. `depth - 1` is passed as an unsigned int.
  pub turn_loop : (left i : ℕ) → (move : Option ℕ) (score : ℤ) → Grid → Option ℕ × Grid
  turn_loop zero i move score g = (move, g)
  turn_loop (suc left) i move score g =
      let (reply, g') = minmax (u32 (h.max_depth + 2 ^ 32 - 1)) h.ai_id (set g i h.ai_id) in
      let temp_score = neg reply in
      let better = lt_ℤ score temp_score in
      let rest =
        turn_loop left (i + 1) (if better then some i else move)
          (if better then temp_score else score) (set g' i (pos 0)) in
      let skip = turn_loop left (i + 1) move score g in
      if cell g i ==ℤ h.empty_id then rest else skip

  -- The move of the computer, counted from 1; 0 if there is none.
  pub computers_turn : Grid → ℕ × Grid
  computers_turn g =
      let (move, g') = turn_loop h.grid_size 0 none (negsuc 1) g in
      (elim move [ none ↦ 0 | some m ↦ m + 1 ], g')

  -- The cells `a`, `b` and `c` hold the mark `id`.
  abbrev pub holds : Grid → ℤ → ℕ → ℕ → ℕ → Bool
  holds g id a b c = cell g a ==ℤ id && (cell g b ==ℤ id && cell g c ==ℤ id)

  abbrev pub three : Grid → ℕ → ℕ → ℕ → Bool
  three g a b c = holds g h.player_id a b c || holds g h.ai_id a b c

  -- The loop that counts the cells left.
  pub cells_left : (left i : ℕ) → Grid → (cell_left : ℕ) → ℕ
  cells_left zero i g n = n
  cells_left (suc left) i g n =
      cells_left left (i + 1) g
        (if cell g i ==ℤ h.ai_id || cell g i ==ℤ h.player_id then n - 1 else n)

  -- The eight tests of `win`, as they are written: the seventh looks at the cells 0, 4 and 5, and
  -- the second half of the eighth at 2, 5 and 6.
  pub is_won : Grid → Bool
  is_won g =
      three g 0 1 2
      || (three g 3 4 5
          || (three g 6 7 8
              || (three g 0 3 6
                  || (three g 1 4 7
                      || (three g 2 5 8
                          || (three g 0 4 5
                              || (holds g h.player_id 2 4 6 || holds g h.ai_id 2 5 6)))))))

  pub win : Grid → State
  win g =
      if is_won g
      then win_state
      else if cells_left h.grid_size 0 g h.grid_size == 0
      then draw
      else progress

-- The commands of tictactoe.h that the game manager sends.
pub data Cmd : Type 0 where
  game_start you_can_play move_rejected you_win you_lose no_winner game_end : Cmd

-- The global `game`, the commands sent, the last one first, and the moves still to be received.
pub record Game : Type 0 where
  pub grid : Grid
  pub over : Bool
  pub sent : List Cmd
  pub moves : List ℤ

pub send : Cmd → Game → Game
send c s = record s { sent = c ∷ s.sent }

module _ (h : Header) where
  -- The loop of `init_game` leaves every cell empty.
  pub init_game : Game → Game
  init_game s = record s { grid = replicate h.grid_size h.empty_id; over = false }

  -- `move` as an index, if the cell is on the grid and its content is 0.
  pub accepts : Grid → ℤ → Option ℕ
  accepts g (negsuc n) = none
  accepts g (pos m) = if ltb (h.grid_size - 1) m || not (cell g m ==ℤ pos 0) then none else some m

  -- The loop of `get_player_move` over the moves received; `none` waits for a move.
  pub receive : Game → List ℤ → Option (ℕ × Game)
  receive s [] = none
  receive s (m ∷ ms) =
      let again = receive (send move_rejected s) ms in
      elim (accepts s.grid m) [ none ↦ again | some i ↦ some (i, record s { moves = ms }) ]

  pub get_player_move : Game → Option (ℕ × Game)
  get_player_move s = receive (send you_can_play s) s.moves

  pub check_game_state : ℤ → Game → Game
  check_game_state current s = elim (win h s.grid) [
    | progress ↦ s
    | win_state ↦ record (send (if current ==ℤ h.player_id then you_win else you_lose) s) {
      over = true;
    }
    | draw ↦ record (send no_winner s) { over = true }
  ]

  pub mark : ℤ → ℕ → Game → Game
  mark id i s = record s { grid = set s.grid i id }

  -- A turn of the player; `none` waits for a move.
  pub player_turn : Game → Option Game
  player_turn s = elim (get_player_move s) [
    | none ↦ none
    | some (i, s') ↦ some (check_game_state h.player_id (mark h.player_id i s'))
  ]

  -- A turn of the computer; `none` writes to `grid[-1]`.
  pub computer_turn : Game → Option Game
  computer_turn s =
      let (n, g) = computers_turn h s.grid in
      if n == 0
      then none
      else some (check_game_state h.ai_id (mark h.ai_id (n - 1) (record s { grid = g })))

-- How the game manager ends: it waits for a move that does not come, or writes out of the grid.
pub data Run : Type 0 where
  finished : Game → Run
  waiting fault out_of_fuel : Run

module _ (h : Header) where
  -- The loop of `game_manager`; `player` says whose turn it is.
  pub manager_loop : ℕ → ℤ → Game → Run
  manager_loop zero player s = out_of_fuel
  manager_loop (suc fuel) player s = elim s.over [
    | true ↦ finished (send game_end s)
    | false ↦ elim (player ==ℤ h.player_id) [
      | true ↦ elim (player_turn h s) [ none ↦ waiting | some s' ↦ manager_loop fuel h.ai_id s' ]
      | false ↦ elim (computer_turn h s) [
        | none ↦ fault
        | some s' ↦ manager_loop fuel h.player_id s'
      ]
    ]
  ]

  pub game_manager : ℕ → Game → Run
  game_manager fuel s = manager_loop fuel h.player_id (send game_start s)
