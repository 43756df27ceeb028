-- ===== src/Player/Moves.antt =====
-- The moves of tictactoe_player.c, and what the game manager of tictactoe_gm.c makes of them.
use sye.Base.{
  ℕ, zero, suc, ◌+◌, ◌-◌, ◌≤◌, ◌<◌, ◌≡◌, refl, sym, ap, ◌∙◌, ◌⊎◌, inl, inr, Bool, true, false, ◌&&◌,
  ◌||◌, Option, none, some, List, [], ◌∷◌, ◌++◌, arith, ltb, ◌==◌, if◌then◌else◌, Bool-cases,
  Option-cases, length, get_elem?, ℤ, pos, negsuc, leb, ◌^◌, Text, digits_value, is_digit,
  length-append, ◌==ℤ◌, ℕ_discrete,
}
use mathlib.Core.Path.{subst}
use mathlib.Core.List.{append-nil, append_assoc}
use sye.Player.{
  cell_index, line_loop, parse_line, Input, typed, no_word, too_long_word, get_input_move, Played,
  game_over, waits, overrun, player_loop,
}
use sye.Tictactoe.Manager.{accepts-cell}
use sye.Tictactoe.{
  Header, Grid, cell, accepts, Cmd, game_start, you_can_play, move_rejected, you_win, you_lose,
  no_winner, game_end,
}

abbrev pub all_digits : Text → Bool
all_digits [] = true
all_digits (c ∷ s) = is_digit c && all_digits s

-- What `parse_line` answers on a text.
pub data Parsed (max : ℕ) (s : Text) : Option ℕ → Type 0 where
  move :
      (i : ℕ)
      → all_digits s ≡ true
      → 0 < length s
      → length s < max
      → digits_value 0 s ≡ suc i
      → i < 9
      → Parsed max s (some i)
  not_digits : all_digits s ≡ false → Parsed max s none
  too_long : max ≤ length s → Parsed max s none
  empty : s ≡ [] → Parsed max s none
  not_a_cell : (digits_value 0 s ≡ 0) ⊎ (9 < digits_value 0 s) → Parsed max s none

all_digits-append : (s t : Text) → all_digits (s ++ t) ≡ all_digits s && all_digits t
all_digits-append [] t = refl
all_digits-append (c ∷ s) t = ground (arith, all_digits-append s t)

out_of_range : (v : ℕ) → (v == 0 || ltb 9 v) ≡ true → (v ≡ 0) ⊎ (9 < v)
out_of_range v t = elim (ℕ_discrete v 0) [ yes e ↦ inl e | no e ↦ inr (ground arith) ]

-- What is documented of atoi on digits: their value, if it is an int.
abbrev pub ReadsInts : (Text → ℤ) → Type 0
ReadsInts atoi =
    (s : Text) → all_digits s ≡ true → digits_value 0 s < 2 ^ 31 → atoi s ≡ pos (digits_value 0 s)

module _ (atoi : Text → ℤ) where
  line_loop-Parsed :
      (max left : ℕ) (s buffer : Text)
      → ReadsInts atoi
      → digits_value 0 (buffer ++ s) < 2 ^ 31
      → length buffer + left ≡ max
      → all_digits buffer ≡ true
      → 0 < length (buffer ++ s)
      → Parsed max (buffer ++ s) (line_loop atoi left s buffer)
  unfolding line_loop cell_index
  line_loop-Parsed max zero s buffer reads low e d p =
      too_long (omega (arith, length-append buffer s))
  line_loop-Parsed max (suc left) [] buffer reads low e d p =
      let size = length-append buffer [] in
      let index = digits_value 0 buffer in
      let same : digits_value 0 (buffer ++ []) ≡ index = ap (digits_value 0) (append-nil buffer) in
      let value = reads buffer d (omega (arith, same)) in
      rw (append-nil buffer) (elim (Bool-cases (index == 0 || ltb 9 index)) [
        | inl t ↦ rw (value, t, line_loop) (not_a_cell (out_of_range index t))
        | inr t ↦
            rw (value, t, line_loop)
              (move (index - 1) d (omega arith) (omega arith) (ground arith) (ground arith))
      ])
  line_loop-Parsed max (suc left) (c ∷ s) buffer reads low e d p = elim (Bool-cases (is_digit c)) [
    | inl t ↦
        let d' : all_digits (buffer ++ c ∷ []) ≡ true =
          ground (arith, all_digits-append buffer (c ∷ [])) in
        let size = length-append buffer (c ∷ []) in
        let same = ap (digits_value 0) (append_assoc buffer (c ∷ []) s) in
        let rest =
          line_loop-Parsed max left s (buffer ++ c ∷ []) reads (omega (arith, same))
            (omega (arith, size)) d' (omega (arith, length-append (buffer ++ c ∷ []) s, size)) in
        rw (t, line_loop) (rw (append_assoc buffer (c ∷ []) s) at rest)
    | inr t ↦ rw (t, line_loop) (not_digits (ground (arith, all_digits-append buffer (c ∷ s))))
  ]

  -- For a text whose leading digits have a value below 2^31, `parse_line` answers a cell, counted
  -- from 0, exactly for some digits, fewer than MAX_BUFFER_LENGTH, whose value is between 1 and 9;
  -- it refuses the others. atoi gives the value of digits that is below 2^31.
  pub parse_line-Parsed :
      (max : ℕ) (s : Text)
      → ReadsInts atoi
      → digits_value 0 s < 2 ^ 31
      → Parsed max s (parse_line atoi max s)
  unfolding parse_line
  parse_line-Parsed max [] reads low = empty refl
  parse_line-Parsed max (c ∷ s) reads low =
      line_loop-Parsed max max (c ∷ s) [] reads low (omega arith) refl (omega arith)

  cell_index-below : (n : ℤ) (i : ℕ) → cell_index n ≡ some i → i < 9
  unfolding cell_index
  cell_index-below (negsuc n) i e = cc
  cell_index-below (pos n) i e = elim (Bool-cases (n == 0 || ltb 9 n)) [
    | inl t ↦ let gone : cell_index (pos n) ≡ none = rw (t, cell_index) refl in cc
    | inr t ↦
        let found : cell_index (pos n) ≡ some (n - 1) = rw (t, cell_index) refl in
        let same : n - 1 ≡ i = cc in ground arith
  ]

  line_loop-below :
      (left : ℕ) (s buffer : Text) (i : ℕ) → line_loop atoi left s buffer ≡ some i → i < 9
  unfolding line_loop
  line_loop-below zero s buffer i e = cc
  line_loop-below (suc left) [] buffer i e = cell_index-below (atoi buffer) i e
  line_loop-below (suc left) (c ∷ s) buffer i e = elim (Bool-cases (is_digit c)) [
    | inl t ↦
        let step : line_loop atoi (suc left) (c ∷ s) buffer
            ≡ line_loop atoi left s (buffer ++ c ∷ []) =
          rw (t, line_loop) refl in
        line_loop-below left s (buffer ++ c ∷ []) i (sym step ∙ e)
    | inr t ↦
        let gone : line_loop atoi (suc left) (c ∷ s) buffer ≡ none = rw (t, line_loop) refl in cc
  ]

  parse_line-below : (max : ℕ) (s : Text) (i : ℕ) → parse_line atoi max s ≡ some i → i < 9
  unfolding parse_line
  parse_line-below max [] i e = cc
  parse_line-below max (c ∷ s) i e = line_loop-below max (c ∷ s) [] i e

  -- A move that was typed is a cell.
  abbrev IsBelow : Input → Type 0
  IsBelow (typed i rest) = i < 9
  IsBelow no_word = Unit {0}
  IsBelow too_long_word = Unit {0}

  get_input_move-IsBelow : (max : ℕ) (words : List Text) → IsBelow (get_input_move atoi max words)
  unfolding get_input_move
  get_input_move-IsBelow max [] = tt
  get_input_move-IsBelow max (s ∷ words) = elim (Bool-cases (leb max (length s))) [
    | inl long ↦ rw (long, get_input_move) tt
    | inr short ↦ elim (Option-cases (parse_line atoi max s)) [
      | inl e ↦ rw (short, e, get_input_move) (get_input_move-IsBelow max words)
      | inr (i, e) ↦ rw (short, e, get_input_move) (parse_line-below max s i e)
    ]
  ]

-- Every move of the list is a cell of the board.
abbrev pub AllCells : List ℤ → Type 0
AllCells [] = Unit {0}
AllCells (m ∷ ms) = (i : ℕ) × (m ≡ pos i) × (i < 9) × AllCells ms

-- The moves that were sent, up to a word that is too long.
abbrev pub moves_of : Played → List ℤ
moves_of (game_over ms) = ms
moves_of (waits ms) = ms
moves_of (overrun ms) = ms

Input-cases :
    (o : Input)
    → (o ≡ no_word) ⊎ ((o ≡ too_long_word) ⊎ ((i : ℕ) × (rest : List Text) × (o ≡ typed i rest)))
Input-cases (typed i rest) = inr (inr (i, rest, refl))
Input-cases no_word = inl refl
Input-cases too_long_word = inr (inl refl)

pub player_loop-AllCells :
    (atoi : Text → ℤ) (max : ℕ) (cmds : List Cmd) (words : List Text) (sent : List ℤ)
    → AllCells sent
    → AllCells (moves_of (player_loop atoi max cmds words sent))
unfolding player_loop
player_loop-AllCells atoi max [] words sent ok = ok
player_loop-AllCells atoi max (game_start ∷ cmds) words sent ok =
    player_loop-AllCells atoi max cmds words sent ok
player_loop-AllCells atoi max (game_end ∷ cmds) words sent ok = ok
player_loop-AllCells atoi max (no_winner ∷ cmds) words sent ok = ok
player_loop-AllCells atoi max (you_win ∷ cmds) words sent ok = ok
player_loop-AllCells atoi max (you_lose ∷ cmds) words sent ok = ok
player_loop-AllCells atoi max (you_can_play ∷ cmds) words sent ok =
    elim (Input-cases (get_input_move atoi max words)) [
      | inl e ↦ rw (e, player_loop) ok
      | inr (inl e) ↦ rw (e, player_loop) ok
      | inr (inr (i, rest, e)) ↦
          let below = subst (IsBelow atoi) e (get_input_move-IsBelow atoi max words) in
          rw (e, player_loop)
            (player_loop-AllCells atoi max cmds rest (pos i ∷ sent) (i, refl, below, ok))
    ]
player_loop-AllCells atoi max (move_rejected ∷ cmds) words sent ok =
    elim (Input-cases (get_input_move atoi max words)) [
      | inl e ↦ rw (e, player_loop) ok
      | inr (inl e) ↦ rw (e, player_loop) ok
      | inr (inr (i, rest, e)) ↦
          let below = subst (IsBelow atoi) e (get_input_move-IsBelow atoi max words) in
          rw (e, player_loop)
            (player_loop-AllCells atoi max cmds rest (pos i ∷ sent) (i, refl, below, ok))
    ]

AllCells-get_elem? :
    (ms : List ℤ) (k : ℕ) (m : ℤ)
    → AllCells ms
    → get_elem? ms k ≡ some m
    → (i : ℕ) × (m ≡ pos i) × (i < 9)
AllCells-get_elem? [] k m ok e = cc
AllCells-get_elem? (n ∷ ms) zero m (i, q, below, ok) e =
    let same : n ≡ m = cc in (i, sym same ∙ q, below)
AllCells-get_elem? (n ∷ ms) (suc k) m (i, q, below, ok) e = AllCells-get_elem? ms k m ok e

-- With a grid of 9 cells, whatever commands the player's process receives, whatever is typed, up
-- to a word that does not fit the buffer, and whatever ints atoi gives, each move that it sends is a
-- cell that the game manager accepts if the cell holds 0, and refuses only if it does not.
pub accepts-player_loop :
    (atoi : Text → ℤ) (h : Header) (g : Grid) (max : ℕ) (cmds : List Cmd) (words : List Text)
    (k : ℕ) (m : ℤ)
    → h.grid_size ≡ 9
    → get_elem? (moves_of (player_loop atoi max cmds words [])) k ≡ some m
    → (i : ℕ) × (m ≡ pos i) × (accepts h g m ≡ (if cell g i ==ℤ pos 0 then some i else none))
accepts-player_loop atoi h g max cmds words k m nine e =
    let sent = player_loop-AllCells atoi max cmds words [] tt in
    let (i, q, below) =
      AllCells-get_elem? (moves_of (player_loop atoi max cmds words [])) k m sent e in
    (i, q, ap (accepts h g) q ∙ accepts-cell h g i (rw nine below))
