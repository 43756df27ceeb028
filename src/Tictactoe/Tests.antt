-- ===== src/Tictactoe/Tests.antt =====
-- Games of tictactoe_gm.c on a 3 by 3 grid, and its theorems at these games.
use sye.Base.{
  ℕ, zero, suc, ◌≡◌, refl, ◌≢◌, true, false, ◌||◌, List, [], ◌∷◌, arith, ◌==◌, ℤ, pos, negsuc,
  ◌==ℤ◌,
}
use sye.Tictactoe.{
  Header, Grid, cell, State, progress, win_state, draw, win, is_won, Cmd, Game, init_game, minmax,
  Run, finished, waiting, fault, out_of_fuel, holds, game_manager, computers_turn, game_start,
  you_can_play, move_rejected, you_win, you_lose, no_winner, game_end,
}
use sye.Tictactoe.Ai.{Turn, computers_turn-Turn}
use sye.Tictactoe.Win.{row1, diagonal, owns, is_marked, Judged, win-Judged, win_misses_diagonal}
use sye.Tictactoe.Manager.{Ended, game_manager-Ended}

abbrev board : Header
board = record {
  grid_size = 9;
  player_id = pos 1;
  ai_id = negsuc 0;
  empty_id = pos 0;
  max_depth = 3;
}

abbrev x : ℤ
x = pos 1

abbrev o : ℤ
o = negsuc 0

abbrev e : ℤ
e = pos 0

abbrev diagonal_grid : Grid
diagonal_grid = x ∷ o ∷ o ∷ e ∷ x ∷ e ∷ e ∷ e ∷ x ∷ []

abbrev bent_grid : Grid
bent_grid = x ∷ o ∷ o ∷ e ∷ x ∷ x ∷ e ∷ e ∷ e ∷ []

abbrev middle_grid : Grid
middle_grid = o ∷ o ∷ e ∷ x ∷ x ∷ x ∷ e ∷ e ∷ e ∷ []

abbrev table : List ℤ → Game
table ms = record { grid = []; over = true; sent = []; moves = ms }

-- The cells beyond the grid hold no mark.
others_free :
    (j : ℕ) → (j == 0 || (j == 4 || j == 8)) ≡ false → (cell diagonal_grid j ==ℤ x) ≡ false
unfolding ◌==ℤ◌
others_free zero q = cc
others_free (suc zero) q = refl
others_free (suc (suc zero)) q = refl
others_free (suc (suc (suc zero))) q = refl
others_free (suc (suc (suc (suc zero)))) q = cc
others_free (suc (suc (suc (suc (suc zero))))) q = refl
others_free (suc (suc (suc (suc (suc (suc zero)))))) q = refl
others_free (suc (suc (suc (suc (suc (suc (suc zero))))))) q = refl
others_free (suc (suc (suc (suc (suc (suc (suc (suc zero)))))))) q = cc
others_free (suc (suc (suc (suc (suc (suc (suc (suc (suc n))))))))) q = refl

owned_row : owns middle_grid x row1 ≡ true
unfolding ◌==ℤ◌
owned_row = refl

bent_free : holds board diagonal_grid o 2 5 6 ≡ false
unfolding ◌==ℤ◌
bent_free = refl

distinct : (x ==ℤ o) ≡ false
unfolding ◌==ℤ◌
distinct = refl

zero_free : is_marked board e ≡ false
unfolding ◌==ℤ◌
zero_free = refl

straight : row1 ≢ diagonal
straight q = cc

-- A diagonal is missed; three cells that are not in line win.
verdicts :
    (win board diagonal_grid ≡ progress)
    × (win board bent_grid ≡ win_state)
    × (win board middle_grid ≡ win_state)
unfolding win is_won ◌==ℤ◌ sye.Tictactoe.cells_left
verdicts = (refl, refl, refl)

computers_turn-Turn_example :
    Turn board refl middle_grid (computers_turn board middle_grid).0
    × ((computers_turn board middle_grid).1 ≡ middle_grid)
computers_turn-Turn_example = computers_turn-Turn board refl middle_grid

win-Judged_example : Judged board bent_grid (win board bent_grid)
win-Judged_example = win-Judged board bent_grid

win_misses_diagonal_example : win board diagonal_grid ≢ win_state
win_misses_diagonal_example =
    win_misses_diagonal board diagonal_grid distinct refl refl refl others_free bent_free

game_manager-Ended_example :
    Ended board
      (game_manager board 10 (init_game board (table (pos 0 ∷ pos 4 ∷ pos 0 ∷ pos 8 ∷ []))))
game_manager-Ended_example =
    game_manager-Ended board refl zero_free (omega arith)
      (table (pos 0 ∷ pos 4 ∷ pos 0 ∷ pos 8 ∷ []))
