-- ===== src/Tictactoe/Manager.antt =====
-- `get_player_move`, `check_game_state` and the loop of `game_manager` of tictactoe_gm.c.
use sye.Base.{
  ℕ, zero, suc, ◌+◌, ◌-◌, ◌<◌, ◌≡◌, refl, sym, ap, ◌∙◌, ◌⊎◌, inl, inr, Bool, true, false, not, ◌||◌,
  Option, none, some, List, [], ◌∷◌, ◌++◌, arith, ltb, ◌==◌, if◌then◌else◌, Bool-cases,
  Option-cases, length, set, replicate, length-set, ℤ, pos, negsuc, ◌==ℤ◌, ==ℤ-eq, ==ℤ-refl,
  get_or-set_self, get_or-set_ne, length-replicate, get_or-replicate,
}
use sye.Tictactoe.{
  Header, Grid, cell, State, progress, win_state, draw, win, is_won, Cmd, Game, send, init_game,
  accepts, receive, get_player_move, check_game_state, mark, player_turn, computer_turn, Run,
  finished, waiting, manager_loop, game_manager, computers_turn, game_start, you_can_play,
  move_rejected, you_win, you_lose, no_winner, game_end,
}
use sye.Tictactoe.Ai.{Turn, full, first, computers_turn-Turn}
use sye.Tictactoe.Win.{
  IsWon-is_won, Judged, won, filled, going, win-Judged, is_marked, unmarked, unmarked-set,
  unmarked-bound,
}

-- The command announces the verdict.
abbrev pub announces : Cmd → State → Bool
announces you_win win_state = true
announces you_lose win_state = true
announces no_winner draw = true
announces _ _ = false

module _ (h : Header) where
  -- A grid of the right size whose cells are marked or empty.
  pub record IsGrid (g : Grid) : Type 0 where
    pub size : length g ≡ h.grid_size
    pub legal : (j : ℕ) → j < h.grid_size → is_marked h (cell g j) ≡ false → cell g j ≡ h.empty_id

  -- Between two turns: the game goes on, or its end was the last command sent.
  pub data Settled (s : Game) : Type 0 where
    playing : s.over ≡ false → win h s.grid ≡ progress → Settled s
    ended :
        s.over ≡ true
        → (c : Cmd) × (before : List Cmd) × (s.sent ≡ c ∷ before)
          × (announces c (win h s.grid) ≡ true)
        → Settled s

  -- How the game manager may end: it waits for a move, or the game has a verdict, which was sent
  -- before the end.
  pub data Ended : Run → Type 0 where
    waits : Ended waiting
    ends :
        (s : Game) (c : Cmd) (before : List Cmd)
        → s.sent ≡ game_end ∷ c ∷ before
        → announces c (win h s.grid) ≡ true
        → Ended (finished s)

  -- The receiver refuses all of the moves.
  abbrev pub all_refused : Grid → List ℤ → Bool
  all_refused g [] = true
  all_refused g (m ∷ ms) = elim (accepts h g m) [ none ↦ all_refused g ms | some i ↦ false ]

  -- What the moves received make of `s`: all are refused, or the first one that is not is a cell
  -- of the grid that holds 0, and one refusal was sent for each move before it.
  pub data Reply (s : Game) (ms : List ℤ) : Option (ℕ × Game) → Type 0 where
    no_reply : all_refused s.grid ms ≡ true → Reply s ms none
    reply :
        (refused rest : List ℤ) (i : ℕ) (s' : Game)
        → ms ≡ refused ++ pos i ∷ rest
        → all_refused s.grid refused ≡ true
        → i < h.grid_size
        → cell s.grid i ≡ pos 0
        → s' ≡ record s { sent = replicate (length refused) move_rejected ++ s.sent; moves = rest }
        → Reply s ms (some (i, s'))

  replicate_shift {ℓ} :
      {A : Type ℓ} (n : ℕ) (a : A) (xs : List A) → replicate n a ++ a ∷ xs ≡ a ∷ replicate n a ++ xs
  replicate_shift zero a xs = refl
  replicate_shift (suc n) a xs = ap (◌∷◌ a) (replicate_shift n a xs)

  accepts-pos :
      (g : Grid) (m : ℤ) (i : ℕ)
      → 0 < h.grid_size
      → accepts h g m ≡ some i
      → (m ≡ pos i) × (i < h.grid_size) × (cell g i ≡ pos 0)
  unfolding accepts
  accepts-pos g (negsuc n) i r e = cc
  accepts-pos g (pos m) i r e = by_test (ltb (h.grid_size - 1) m || not (cell g m ==ℤ pos 0)) refl e
    where
      by_test :
          (b : Bool)
          → (ltb (h.grid_size - 1) m || not (cell g m ==ℤ pos 0)) ≡ b
          → (if b then none else some m) ≡ some i
          → (pos m ≡ pos i) × (i < h.grid_size) × (cell g i ≡ pos 0)
      by_test true t e' = cc
      by_test false t e' =
          let q : m ≡ i = cc in
          rw (← q) (refl, ground arith, ==ℤ-eq (cell g m) (pos 0) (ground arith))

  -- A cell of the grid is accepted exactly if it holds 0.
  pub accepts-cell :
      (g : Grid) (i : ℕ)
      → i < h.grid_size
      → accepts h g (pos i) ≡ (if cell g i ==ℤ pos 0 then some i else none)
  unfolding accepts
  accepts-cell g i below =
      let inside : ltb (h.grid_size - 1) i ≡ false = ground arith in
      elim (Bool-cases (cell g i ==ℤ pos 0)) [
        | inl t ↦ rw (inside, t) refl
        | inr t ↦ rw (inside, t) refl
      ]

  unsnoc :
      (s : Game) (m : ℤ) (ms : List ℤ) (o : Option (ℕ × Game))
      → accepts h s.grid m ≡ none
      → Reply (send move_rejected s) ms o
      → Reply s (m ∷ ms) o
  unfolding send
  unsnoc s m ms o e (no_reply all) = no_reply (rw (e, all_refused) all)
  unsnoc s m ms o e (reply refused rest i s' split all below empty same) =
      reply (m ∷ refused) rest i s' (ap (◌∷◌ m) split) (rw (e, all_refused) all) below empty
        (rw (same, replicate_shift (length refused) move_rejected s.sent) refl)

  pub receive-Reply : 0 < h.grid_size → (ms : List ℤ) (s : Game) → Reply s ms (receive h s ms)
  unfolding receive send
  receive-Reply r [] s = no_reply refl
  receive-Reply r (m ∷ ms) s = elim (Option-cases (accepts h s.grid m)) [
    | inl e ↦
        rw (e, receive)
          (unsnoc s m ms (receive h (send move_rejected s) ms) e
            (receive-Reply r ms (send move_rejected s)))
    | inr (i, e) ↦
        let (q, below, empty) = accepts-pos s.grid m i r e in
        rw (e, receive)
          (reply [] ms i (record s { moves = ms }) (ap (λ x. x ∷ ms) q) refl below empty refl)
  ]

  over_after : (id : ℤ) (s : Game) → s.over ≡ false → Settled (check_game_state h id s)
  unfolding check_game_state send
  over_after id s e = by_state (win h s.grid) refl
    where
      by_state : (v : State) → win h s.grid ≡ v → Settled (check_game_state h id s)
      by_state progress q = rw (q, check_game_state) (playing e q)
      by_state win_state q = elim (Bool-cases (id ==ℤ h.player_id)) [
        | inl t ↦ rw (q, t, check_game_state) (ended refl (you_win, s.sent, refl, rw q refl))
        | inr t ↦ rw (q, t, check_game_state) (ended refl (you_lose, s.sent, refl, rw q refl))
      ]
      by_state draw q = rw (q, check_game_state) (ended refl (no_winner, s.sent, refl, rw q refl))

  check_game_state-grid : (id : ℤ) (s : Game) → (check_game_state h id s).grid ≡ s.grid
  unfolding check_game_state send
  check_game_state-grid id s = by_state (win h s.grid) refl
    where
      by_state : (v : State) → win h s.grid ≡ v → (check_game_state h id s).grid ≡ s.grid
      by_state progress q = rw (q, check_game_state) refl
      by_state win_state q = rw (q, check_game_state) refl
      by_state draw q = rw (q, check_game_state) refl

  -- A turn that marks a free cell: the grid stays legal, and one cell fewer is free.
  record Played (s s' : Game) : Type 0 where
    legal_grid : IsGrid s'.grid
    fewer : unmarked h h.grid_size 0 s'.grid + 1 ≡ unmarked h h.grid_size 0 s.grid
    settled : Settled s'

  mark-Played :
      (id : ℤ) (i : ℕ) (s t : Game)
      → is_marked h id ≡ true
      → IsGrid s.grid
      → i < h.grid_size
      → is_marked h (cell s.grid i) ≡ false
      → t.grid ≡ s.grid
      → t.over ≡ false
      → Played s (check_game_state h id (mark h id i t))
  unfolding mark
  mark-Played id i s t m ok below free same going_on = record {
    legal_grid =
        rw (check_game_state-grid id (mark h id i t), same)
          (record {
            size = length-set s.grid i id ∙ ok.size;
            legal = λ j p f. elim (Bool-cases (i == j)) [
              | inl q ↦
                  let q' : j ≡ i = ground arith in
                  let now = get_or-set_self s.grid i id (pos 0) (rw ok.size below) in
                  cc (marked_now j q' now)
              | inr q ↦
                  let before = get_or-set_ne s.grid i j id (pos 0) (λ e. absurd (ground arith)) in
                  rw before (ok.legal j p (rw (← before) f))
            ];
          });
    fewer =
        rw (check_game_state-grid id (mark h id i t), same)
          (unmarked-set h h.grid_size 0 i id s.grid (omega arith) (omega arith) (rw ok.size below) m
            free);
    settled = over_after id (mark h id i t) going_on;
  }
    where
      marked_now :
          (j : ℕ)
          → j ≡ i
          → cell (set s.grid i id) i ≡ id
          → is_marked h (cell (set s.grid i id) j) ≡ true
      marked_now j q now = rw (q, now) m

  module _ (blank : h.empty_id ≡ pos 0) (zero_is_free : is_marked h (pos 0) ≡ false)
      (room : 0 < h.grid_size) where
    free_cell :
        (g : Grid) (v : State)
        → Judged h g v
        → v ≡ progress
        → (j : ℕ) × (j < h.grid_size) × (is_marked h (cell g j) ≡ false)
    free_cell g win_state (won e) q = cc
    free_cell g draw (filled e all) q = cc
    free_cell g progress (going e free) q = free

    player_is_marked : is_marked h h.player_id ≡ true
    player_is_marked = let e = ==ℤ-refl h.player_id in ground arith

    ai_is_marked : is_marked h h.ai_id ≡ true
    ai_is_marked = let e = ==ℤ-refl h.ai_id in ground arith

    player_turn-Played :
        (s : Game)
        → IsGrid s.grid
        → s.over ≡ false
        → (player_turn h s ≡ none) ⊎ ((s' : Game) × (player_turn h s ≡ some s') × Played s s')
    unfolding player_turn get_player_move send
    player_turn-Played s ok e =
        by_reply (receive h (send you_can_play s) s.moves) refl
          (receive-Reply room s.moves (send you_can_play s))
      where
        by_reply :
            (o : Option (ℕ × Game))
            → receive h (send you_can_play s) s.moves ≡ o
            → Reply (send you_can_play s) s.moves o
            → (player_turn h s ≡ none) ⊎ ((s' : Game) × (player_turn h s ≡ some s') × Played s s')
        by_reply none q (no_reply all) = inl (rw (q, player_turn) refl)
        by_reply (some (_, _)) q (reply refused rest i t split all below empty same) = inr (
          check_game_state h h.player_id (mark h h.player_id i t),
          rw (q, player_turn) refl,
          mark-Played h.player_id i s t player_is_marked ok below (rw empty zero_is_free)
              (rw same refl) (rw same e),
        )

    computer_turn-Played :
        (s : Game)
        → IsGrid s.grid
        → s.over ≡ false
        → win h s.grid ≡ progress
        → (s' : Game) × (computer_turn h s ≡ some s') × Played s s'
    unfolding computer_turn
    computer_turn-Played s ok e w =
        by_turn (computers_turn h s.grid) refl (computers_turn-Turn h blank s.grid)
      where
        by_turn :
            (r : ℕ × Grid)
            → computers_turn h s.grid ≡ r
            → Turn h blank s.grid r.0 × (r.1 ≡ s.grid)
            → (s' : Game) × (computer_turn h s ≡ some s') × Played s s'
        by_turn (n, g) q (full z none_left, same) =
            let (j, below, free) = free_cell s.grid (win h s.grid) (win-Judged h s.grid) w in
            let empty = ok.legal j below free in
            let e : (cell s.grid j ==ℤ h.empty_id) ≡ true = rw empty (==ℤ-refl h.empty_id) in
            let e' = none_left j below in cc
        by_turn (n, g) q (first m z below empty before, same) =
            let counted : (suc m == 0) ≡ false = ground arith in
            let back : suc m - 1 ≡ m = omega arith in
            (
              check_game_state h h.ai_id (mark h h.ai_id m (record s { grid = g })),
              rw (q, z, counted, back, computer_turn) refl,
              mark-Played h.ai_id m s (record s { grid = g }) ai_is_marked ok below
                  (rw (empty, blank) zero_is_free) same e,
            )

    manager_loop-Ended :
        (fuel : ℕ) (player : ℤ) (s : Game)
        → IsGrid s.grid
        → Settled s
        → unmarked h h.grid_size 0 s.grid < fuel
        → Ended (manager_loop h fuel player s)
    unfolding manager_loop send
    manager_loop-Ended zero player s ok st below = absurd (omega arith)
    manager_loop-Ended (suc fuel) player s ok (ended e (c, before, q, a)) below =
        rw (e, manager_loop) (ends (send game_end s) c before (rw q refl) a)
    manager_loop-Ended (suc fuel) player s ok (playing e w) below =
        elim (Bool-cases (player ==ℤ h.player_id)) [
          | inl t ↦ elim (player_turn-Played s ok e) [
            | inl n ↦ rw (e, t, n, manager_loop) waits
            | inr (s', n, p) ↦
                rw (e, t, n, manager_loop)
                  (manager_loop-Ended fuel h.ai_id s' p.legal_grid p.settled
                    (omega (arith, p.fewer)))
          ]
          | inr t ↦
              let (s', n, p) = computer_turn-Played s ok e w in
              rw (e, t, n, manager_loop)
                (manager_loop-Ended fuel h.player_id s' p.legal_grid p.settled
                  (omega (arith, p.fewer)))
        ]

    blank_not_won : (g : Grid) → ((j : ℕ) → cell g j ≡ pos 0) → is_won h g ≡ false
    unfolding is_won
    blank_not_won g all =
        let p : (pos 0 ==ℤ h.player_id) ≡ false = ground arith in
        let a : (pos 0 ==ℤ h.ai_id) ≡ false = ground arith in
        rw (all 0, all 1, all 2, all 3, all 4, all 5, all 6, all 7, all 8, p, a) refl

    blank_progress :
        (g : Grid) (v : State) → ((j : ℕ) → cell g j ≡ pos 0) → Judged h g v → v ≡ progress
    blank_progress g win_state all (won e) =
        let e' = blank_not_won g all in let e0 = IsWon-is_won h g e in cc
    blank_progress g draw all (filled e marked) =
        let m = marked 0 room in
        let m' : is_marked h (cell g 0) ≡ false = rw (all 0) zero_is_free in cc
    blank_progress g progress all (going e free) = refl

    -- If an empty cell holds 0, which marks no player, and the grid has a cell, the game manager on
    -- a fresh grid needs at most one round per cell and one more, whatever moves it receives: it
    -- waits for a move, or it ends and the commands sent last are the verdict of `win` and the end
    -- of the game. It never runs out of moves of the computer, so it never writes out of the grid.
    pub game_manager-Ended : (s : Game) → Ended (game_manager h (h.grid_size + 1) (init_game h s))
    unfolding game_manager init_game send
    game_manager-Ended s =
        let g = replicate h.grid_size h.empty_id in
        let all : (j : ℕ) → cell g j ≡ pos 0 =
          λ j. rw blank (get_or-replicate h.grid_size j (pos 0)) in
        manager_loop-Ended (h.grid_size + 1) h.player_id (send game_start (init_game h s))
          (record {
            size = length-replicate h.grid_size h.empty_id;
            legal = λ j p f. all j ∙ sym blank;
          })
          (playing refl (blank_progress g (win h g) all (win-Judged h g)))
          (omega (arith, unmarked-bound h h.grid_size 0 g))
