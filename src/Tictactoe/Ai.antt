-- ===== src/Tictactoe/Ai.antt =====
-- What `minmax` and `computers_turn` of tictactoe_gm.c compute.
use sye.Base.{
  ℕ, zero, suc, ◌+◌, ◌<◌, ◌≡◌, refl, ◌∙◌, inl, inr, true, false, Option, none, some, arith, ◌==◌,
  if◌then◌else◌, Bool-cases, set, ℤ, pos, negsuc, neg, ◌==ℤ◌, ==ℤ-eq, set-set, set-get_or,
}
use sye.Tictactoe.{Header, Grid, cell, minmax_loop, minmax, turn_loop, computers_turn}

-- A cell that is played and emptied again.
undo : (g : Grid) (i : ℕ) (v : ℤ) → cell g i ≡ pos 0 → set (set g i v) i (pos 0) ≡ g
undo g i v e = set-set g i v (pos 0) ∙ rw (← e) (set-get_or g i (pos 0))

module _ (h : Header) (blank : h.empty_id ≡ pos 0) where
  abbrev score_of : Option ℕ → ℤ
  score_of none = negsuc 1
  score_of (some m) = pos 0

  legal : (g : Grid) (i : ℕ) → (cell g i ==ℤ h.empty_id) ≡ true → cell g i ≡ pos 0
  legal g i e = ==ℤ-eq (cell g i) h.empty_id e ∙ blank

  minmax_loop-zero :
      (play : ℤ → Grid → ℤ × Grid)
      → ((p : ℤ) (g : Grid) → play p g ≡ (pos 0, g))
      → (player : ℤ) (left i : ℕ) (move : Option ℕ) (g : Grid)
      → minmax_loop h play player left i move (score_of move) g ≡ (pos 0, g)
  unfolding minmax_loop
  minmax_loop-zero play draws player zero i none g = refl
  minmax_loop-zero play draws player zero i (some m) g = refl
  minmax_loop-zero play draws player (suc left) i none g =
      elim (Bool-cases (cell g i ==ℤ h.empty_id)) [
        | inl e ↦
            rw (e, draws (neg player) (set g i player), undo g i player (legal g i e))
              (minmax_loop-zero play draws player left (i + 1) (some i) g)
        | inr e ↦ rw e (minmax_loop-zero play draws player left (i + 1) none g)
      ]
  minmax_loop-zero play draws player (suc left) i (some m) g =
      elim (Bool-cases (cell g i ==ℤ h.empty_id)) [
        | inl e ↦
            rw (e, draws (neg player) (set g i player), undo g i player (legal g i e))
              (minmax_loop-zero play draws player left (i + 1) (some m) g)
        | inr e ↦ rw e (minmax_loop-zero play draws player left (i + 1) (some m) g)
      ]

  -- If an empty cell holds 0, `minmax` gives every position the score 0, at every depth and for either player, and leaves
  -- the grid as it was: it never asks whether a position is won.
  minmax-zero : (depth : ℕ) (player : ℤ) (g : Grid) → minmax h depth player g ≡ (pos 0, g)
  unfolding minmax
  minmax-zero zero player g = refl
  minmax-zero (suc depth) player g =
      minmax_loop-zero (minmax h depth) (λ p k. minmax-zero depth p k) player h.grid_size 0 none g

  -- The first cell from `i` on that is empty.
  pub first_empty : (left i : ℕ) → Grid → Option ℕ
  first_empty zero i g = none
  first_empty (suc left) i g =
      let rest = first_empty left (i + 1) g in if cell g i ==ℤ h.empty_id then some i else rest

  turn_loop-later : (left i m : ℕ) (g : Grid) → turn_loop h left i (some m) (pos 0) g ≡ (some m, g)
  unfolding turn_loop
  turn_loop-later zero i m g = refl
  turn_loop-later (suc left) i m g = elim (Bool-cases (cell g i ==ℤ h.empty_id)) [
    | inl e ↦ rw (e, minmax-zero, undo g i h.ai_id (legal g i e)) (turn_loop-later left (i + 1) m g)
    | inr e ↦ rw e (turn_loop-later left (i + 1) m g)
  ]

  turn_loop-first :
      (left i : ℕ) (g : Grid) → turn_loop h left i none (negsuc 1) g ≡ (first_empty left i g, g)
  unfolding turn_loop first_empty
  turn_loop-first zero i g = refl
  turn_loop-first (suc left) i g = elim (Bool-cases (cell g i ==ℤ h.empty_id)) [
    | inl e ↦ rw (e, minmax-zero, undo g i h.ai_id (legal g i e)) (turn_loop-later left (i + 1) i g)
    | inr e ↦ rw e (turn_loop-first left (i + 1) g)
  ]

  -- What the computer plays: nothing on a full grid, or the first empty cell.
  pub data Turn (g : Grid) (n : ℕ) : Type 0 where
    full : n ≡ 0 → ((j : ℕ) → j < h.grid_size → (cell g j ==ℤ h.empty_id) ≡ false) → Turn g n
    first :
        (m : ℕ)
        → n ≡ suc m
        → m < h.grid_size
        → cell g m ≡ h.empty_id
        → ((j : ℕ) → j < m → (cell g j ==ℤ h.empty_id) ≡ false)
        → Turn g n

  first_empty-Turn :
      (left i : ℕ) (g : Grid)
      → i + left ≡ h.grid_size
      → ((j : ℕ) → j < i → (cell g j ==ℤ h.empty_id) ≡ false)
      → Turn g (elim (first_empty left i g) [ none ↦ 0 | some m ↦ m + 1 ])
  unfolding first_empty
  first_empty-Turn zero i g e before = full refl (λ j p. before j (omega arith))
  first_empty-Turn (suc left) i g e before = elim (Bool-cases (cell g i ==ℤ h.empty_id)) [
    | inl here ↦
        rw here (first i (omega arith) (omega arith) (==ℤ-eq (cell g i) h.empty_id here) before)
    | inr there ↦ rw there (
        first_empty-Turn left (i + 1) g (omega arith) λ j p. elim (Bool-cases (j == i)) [
          | inl q ↦ let q' : j ≡ i = ground arith in rw q' there
          | inr q ↦ before j (ground arith)
        ])
  ]

  computers_turn-first :
      (g : Grid)
      → computers_turn h g ≡ (elim (first_empty h.grid_size 0 g) [ none ↦ 0 | some m ↦ m + 1 ], g)
  unfolding computers_turn
  computers_turn-first g = rw (turn_loop-first h.grid_size 0 g)

  -- If an empty cell holds 0, `computers_turn` gives the first empty cell of the grid, counted
  -- from 1, or 0 if no cell is empty, and leaves the grid as it was, whatever the search depth is.
  pub computers_turn-Turn :
      (g : Grid) → Turn g (computers_turn h g).0 × ((computers_turn h g).1 ≡ g)
  computers_turn-Turn g =
      rw (computers_turn-first g)
        (first_empty-Turn h.grid_size 0 g (omega arith) (λ j p. absurd (omega arith)), refl)
