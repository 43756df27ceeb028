-- ===== src/Tictactoe/Win.antt =====
-- The verdict of `win` in tictactoe_gm.c against the eight lines of the board.
use sye.Base.{
  ℕ, zero, suc, ◌+◌, ◌-◌, ◌≤◌, ◌<◌, ◌≡◌, refl, sym, ap, ◌∙◌, ◌≢◌, inl, inr, Bool, true, false, not,
  ◌&&◌, ◌||◌, arith, ◌==◌, Bool-cases, length, set, one_if, ℤ, pos, ◌==ℤ◌, get_or-set_ne,
  get_or-set_self,
}
use sye.Tictactoe.{
  Header, Grid, cell, holds, three, State, progress, win_state, draw, cells_left, is_won, win,
}

pub data Line : Type 0 where
  row0 row1 row2 column0 column1 column2 diagonal antidiagonal : Line

abbrev pub cells_of : Line → ℕ × ℕ × ℕ
cells_of row0 = (0, 1, 2)
cells_of row1 = (3, 4, 5)
cells_of row2 = (6, 7, 8)
cells_of column0 = (0, 3, 6)
cells_of column1 = (1, 4, 7)
cells_of column2 = (2, 5, 8)
cells_of diagonal = (0, 4, 8)
cells_of antidiagonal = (2, 4, 6)

-- The cells `a`, `b` and `c` hold the mark `id`.
abbrev pub has : Grid → ℤ → ℕ → ℕ → ℕ → Bool
has g id a b c = cell g a ==ℤ id && (cell g b ==ℤ id && cell g c ==ℤ id)

-- The three cells of the line hold the mark `id`.
abbrev pub owns : Grid → ℤ → Line → Bool
owns g id l = let (a, b, c) = cells_of l in has g id a b c

abbrev pub is_straight : Line → Bool
is_straight diagonal = false
is_straight antidiagonal = false
is_straight _ = true

abbrev pub is_marked : Header → ℤ → Bool
is_marked h v = v ==ℤ h.ai_id || v ==ℤ h.player_id

-- How many of the cells from `i` on carry no mark.
pub unmarked : Header → (left i : ℕ) → Grid → ℕ
unmarked h zero i g = 0
unmarked h (suc left) i g = one_if (not (is_marked h (cell g i))) + unmarked h left (i + 1) g

is_antidiagonal : Line → Bool
is_antidiagonal antidiagonal = true
is_antidiagonal _ = false

antidiagonal_differs : antidiagonal ≢ diagonal
unfolding is_antidiagonal
antidiagonal_differs e = let t : is_antidiagonal diagonal ≡ true = ap is_antidiagonal (sym e) in cc

module _ (h : Header) where
  won-player :
      (g : Grid) (l : Line) → l ≢ diagonal → owns g h.player_id l ≡ true → is_won h g ≡ true
  unfolding is_won
  won-player g diagonal ne e = absurd (ne refl)
  won-player g row0 ne e = ground arith
  won-player g row1 ne e = ground arith
  won-player g row2 ne e = ground arith
  won-player g column0 ne e = ground arith
  won-player g column1 ne e = ground arith
  won-player g column2 ne e = ground arith
  won-player g antidiagonal ne e = ground arith

  won-ai :
      (g : Grid) (l : Line) → is_straight l ≡ true → owns g h.ai_id l ≡ true → is_won h g ≡ true
  unfolding is_won
  won-ai g diagonal st e = cc
  won-ai g antidiagonal st e = cc
  won-ai g row0 ne e = ground arith
  won-ai g row1 ne e = ground arith
  won-ai g row2 ne e = ground arith
  won-ai g column0 ne e = ground arith
  won-ai g column1 ne e = ground arith
  won-ai g column2 ne e = ground arith

  -- What counts as won: a line but the diagonal 0 4 8 for the player, a row or a column for the
  -- computer, and the cells 0 4 5 for both and 2 5 6 for the computer.
  pub data IsWon (g : Grid) : Type 0 where
    player_line : (l : Line) → l ≢ diagonal → owns g h.player_id l ≡ true → IsWon g
    ai_line : (l : Line) → is_straight l ≡ true → owns g h.ai_id l ≡ true → IsWon g
    bent : has g h.player_id 0 4 5 ≡ true → IsWon g
    ai_bent : (has g h.ai_id 0 4 5 || has g h.ai_id 2 5 6) ≡ true → IsWon g

  pub IsWon-is_won : (g : Grid) → IsWon g → is_won h g ≡ true
  unfolding is_won
  IsWon-is_won g (player_line l ne e) = won-player g l ne e
  IsWon-is_won g (ai_line l st e) = won-ai g l st e
  IsWon-is_won g (bent e) = ground arith
  IsWon-is_won g (ai_bent e) = ground arith

  three-IsWon :
      (g : Grid) (l : Line)
      → is_straight l ≡ true
      → (owns g h.player_id l || owns g h.ai_id l) ≡ true
      → IsWon g
  three-IsWon g l st e = elim (Bool-cases (owns g h.player_id l)) [
    | inl p ↦
        player_line l
          (λ same. let d : is_straight diagonal ≡ true = ap is_straight (sym same) ∙ st in cc) p
    | inr p ↦ ai_line l st (ground arith)
  ]

  bent-IsWon :
      (g : Grid)
      → (three h g 0 4 5 || (has g h.player_id 2 4 6 || has g h.ai_id 2 5 6)) ≡ true
      → IsWon g
  bent-IsWon g e = elim (Bool-cases (has g h.player_id 0 4 5)) [
    | inl p ↦ bent p
    | inr p ↦ elim (Bool-cases (has g h.player_id 2 4 6)) [
      | inl q ↦ player_line antidiagonal (λ same. antidiagonal_differs same) q
      | inr q ↦ ai_bent (ground arith)
    ]
  ]

  is_won-IsWon : (g : Grid) → is_won h g ≡ true → IsWon g
  unfolding is_won
  is_won-IsWon g e = elim (Bool-cases (three h g 0 1 2)) [
    | inl a ↦ three-IsWon g row0 refl a
    | inr a0 ↦ elim (Bool-cases (three h g 3 4 5)) [
      | inl a ↦ three-IsWon g row1 refl a
      | inr a1 ↦ elim (Bool-cases (three h g 6 7 8)) [
        | inl a ↦ three-IsWon g row2 refl a
        | inr a2 ↦ elim (Bool-cases (three h g 0 3 6)) [
          | inl a ↦ three-IsWon g column0 refl a
          | inr a3 ↦ elim (Bool-cases (three h g 1 4 7)) [
            | inl a ↦ three-IsWon g column1 refl a
            | inr a4 ↦ elim (Bool-cases (three h g 2 5 8)) [
              | inl a ↦ three-IsWon g column2 refl a
              | inr a5 ↦
                  let left : (three h g 0 4 5 || (has g h.player_id 2 4 6 || has g h.ai_id 2 5 6))
                      ≡ true =
                    sym (rw (a0, a1, a2, a3, a4, a5) refl) ∙ e in
                  bent-IsWon g left
            ]
          ]
        ]
      ]
    ]
  ]

  -- When the player, whose mark is not the computer's, holds the cells 0, 4 and 8 and no other, and the computer not all of 2, 5 and
  -- 6, `win` does not report a win.
  pub win_misses_diagonal :
      (g : Grid)
      → (h.player_id ==ℤ h.ai_id) ≡ false
      → cell g 0 ≡ h.player_id
      → cell g 4 ≡ h.player_id
      → cell g 8 ≡ h.player_id
      → ((j : ℕ) → (j == 0 || (j == 4 || j == 8)) ≡ false → (cell g j ==ℤ h.player_id) ≡ false)
      → holds h g h.ai_id 2 5 6 ≡ false
      → win h g ≢ win_state
  unfolding win is_won
  win_misses_diagonal g ne c0 c4 c8 others ai e =
      let o1 = others 1 refl in
      let o2 = others 2 refl in
      let o3 = others 3 refl in
      let o5 = others 5 refl in
      let o6 = others 6 refl in
      let o7 = others 7 refl in
      let a0 : (cell g 0 ==ℤ h.ai_id) ≡ false = rw c0 ne in
      let a4 : (cell g 4 ==ℤ h.ai_id) ≡ false = rw c4 ne in
      let a8 : (cell g 8 ==ℤ h.ai_id) ≡ false = rw c8 ne in ground arith

  cells_left-unmarked :
      (left i : ℕ) (g : Grid) (n : ℕ)
      → left ≤ n
      → cells_left h left i g n + left ≡ unmarked h left i g + n
  unfolding cells_left unmarked
  cells_left-unmarked zero i g n p = omega arith
  cells_left-unmarked (suc left) i g n p = elim (Bool-cases (is_marked h (cell g i))) [
    | inl e ↦ rw e (omega (arith, cells_left-unmarked left (i + 1) g (n - 1) (omega arith)))
    | inr e ↦ rw e (omega (arith, cells_left-unmarked left (i + 1) g n (omega arith)))
  ]

  unmarked-some :
      (left i : ℕ) (g : Grid)
      → 0 < unmarked h left i g
      → (j : ℕ) × (i ≤ j) × (j < i + left) × (is_marked h (cell g j) ≡ false)
  unfolding unmarked
  unmarked-some zero i g p = absurd (omega arith)
  unmarked-some (suc left) i g p = elim (Bool-cases (is_marked h (cell g i))) [
    | inl e ↦
        let (j, a, b, c) = unmarked-some left (i + 1) g (ground arith) in
        (j, omega arith, omega arith, c)
    | inr e ↦ (i, omega arith, omega arith, e)
  ]

  unmarked-none :
      (left i : ℕ) (g : Grid)
      → unmarked h left i g ≡ 0
      → (j : ℕ) → i ≤ j
      → j < i + left
      → is_marked h (cell g j) ≡ true
  unfolding unmarked
  unmarked-none zero i g p j a b = absurd (omega arith)
  unmarked-none (suc left) i g p j a b = elim (Bool-cases (j == i)) [
    | inl q ↦ let q' : j ≡ i = ground arith in rw q' (ground arith)
    | inr q ↦ unmarked-none left (i + 1) g (omega arith) j (ground arith) (omega arith)
  ]

  -- What the three results say of the grid.
  pub data Judged (g : Grid) : State → Type 0 where
    won : IsWon g → Judged g win_state
    filled : ¬ IsWon g → ((j : ℕ) → j < h.grid_size → is_marked h (cell g j) ≡ true) → Judged g draw
    going :
        ¬ IsWon g
        → (j : ℕ) × (j < h.grid_size) × (is_marked h (cell g j) ≡ false)
        → Judged g progress

  -- `win` reports a win exactly when the player holds a row, a column, the diagonal 2 4 6 or the
  -- cells 0 4 5, or the computer a row, a column, the cells 0 4 5 or the cells 2 5 6. Otherwise it
  -- reports a draw when every cell is marked, and a game in progress when some cell is not.
  pub win-Judged : (g : Grid) → Judged g (win h g)
  unfolding win
  win-Judged g =
      let count = cells_left-unmarked h.grid_size 0 g h.grid_size (omega arith) in
      elim (Bool-cases (is_won h g)) [
        | inl e ↦ rw e (won (is_won-IsWon g e))
        | inr e ↦
            let no : ¬ IsWon g = λ w. let t = IsWon-is_won g w in cc in
            elim (Bool-cases (cells_left h h.grid_size 0 g h.grid_size == 0)) [
              | inl z ↦
                  rw (e, z)
                    (filled no λ j p.
                      unmarked-none h.grid_size 0 g (ground arith) j (omega arith) (omega arith))
              | inr z ↦
                  let (j, a, b, c) = unmarked-some h.grid_size 0 g (ground arith) in
                  rw (e, z) (going no (j, omega arith, c))
            ]
      ]

  pub unmarked-outside :
      (left i k : ℕ) (v : ℤ) (g : Grid)
      → k < i
      → unmarked h left i (set g k v) ≡ unmarked h left i g
  unfolding unmarked
  unmarked-outside zero i k v g p = refl
  unmarked-outside (suc left) i k v g p =
      let same = get_or-set_ne g k i v (pos 0) (λ e. absurd (omega arith)) in
      rw (same, unmarked-outside left (i + 1) k v g (omega arith)) refl

  -- A mark on a cell that has none.
  pub unmarked-set :
      (left i k : ℕ) (v : ℤ) (g : Grid)
      → i ≤ k
      → k < i + left
      → k < length g
      → is_marked h v ≡ true
      → is_marked h (cell g k) ≡ false
      → unmarked h left i (set g k v) + 1 ≡ unmarked h left i g
  unfolding unmarked
  unmarked-set zero i k v g a b c m e = absurd (omega arith)
  unmarked-set (suc left) i k v g a b c m e = elim (Bool-cases (k == i)) [
    | inl q ↦
        let q' : i ≡ k = ground arith in
        let now = get_or-set_self g k v (pos 0) c in
        rw (q', now, m, e, unmarked-outside left (k + 1) k v g (omega arith)) (omega arith)
    | inr q ↦
        let same = get_or-set_ne g k i v (pos 0) (λ e. absurd (ground arith)) in
        let rest = unmarked-set left (i + 1) k v g (ground arith) (omega arith) c m e in
        rw same (omega (arith, rest))
  ]

  pub unmarked-bound : (left i : ℕ) (g : Grid) → unmarked h left i g ≤ left
  unfolding unmarked
  unmarked-bound zero i g = omega arith
  unmarked-bound (suc left) i g = elim (Bool-cases (is_marked h (cell g i))) [
    | inl e ↦ rw e (omega (arith, unmarked-bound left (i + 1) g))
    | inr e ↦ rw e (omega (arith, unmarked-bound left (i + 1) g))
  ]
