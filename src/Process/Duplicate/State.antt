-- ===== src/Process/Duplicate/State.antt =====
-- The spaces while duplicate_user_space runs, and what a part of the run changes.
use sye.Base.{
  ℕ, zero, suc, ◌+◌, ◌%◌, ◌^◌, ◌/◌, ◌<◌, ◌≤◌, ◌≡◌, refl, sym, ap, ◌∙◌, ◌≢◌, ◌⊎◌, inl, inr, false,
  List, [], ◌∷◌, length, get_or, drop, arith, dec_lt, ◌==◌,
}
use sye.Mmu.{Macros, page_size, sect_size}
use sye.Mmu.Walk.{IsMmu, IsTable}
use sye.Process.Duplicate.{Spaces, Fixmap}
use sye.Process.Duplicate.Apart.{Apart}

pub drop-get : (n : ℕ) (l : List ℕ) → n < length l → drop n l ≡ get_or l n 0 ∷ drop (suc n) l
drop-get n [] p = absurd (omega arith)
drop-get zero (x ∷ l) p = refl
drop-get (suc n) (x ∷ l) p = drop-get n l (omega arith)

-- The pages that get_free_page will return are whole and distinct.
pub record IsFree (pages : List ℕ) : Type 0 where
  pub even : (k : ℕ) → k < length pages → get_or pages k 0 % page_size ≡ 0
  pub below : (k : ℕ) → k < length pages → get_or pages k 0 + page_size ≤ 2 ^ 32
  pub distinct : (k l : ℕ) → k < l → l < length pages → get_or pages k 0 ≢ get_or pages l 0

-- The fixmap is a whole page below 2^32.
abbrev pub IsWhole : Fixmap → Type 0
IsWhole c = (c.fixmap % page_size ≡ 0) × (c.fixmap + page_size < 2 ^ 32)

-- The address `q` is in none of the free pages from `n` to `n'`.
abbrev pub Outside : (pages : List ℕ) (n n' q : ℕ) → Type 0
Outside pages n n' q = (k : ℕ) → n ≤ k → k < n' → q / page_size ≢ get_or pages k 0 / page_size

module _ (h : Macros) (laws : IsMmu h) (c : Fixmap) where
  abbrev pub fix : ℕ
  fix = c.fixmap / sect_size

  abbrev pub users : ℕ
  users = c.kernel_vaddr / sect_size

  -- Entry `e'` of the child is for a copy of the page of entry `e` of the parent, in one of the first
  -- `n` free pages.
  pub data CopyOf (pages : List ℕ) (n : ℕ) (m0 m : ℕ → ℕ) (e e' : ℕ) : Type 0 where
    no_page : e ≡ 0 → e' ≡ 0 → CopyOf pages n m0 m e e'
    copied :
        (k : ℕ)
        → e ≢ 0
        → k < n
        → e' ≡ h.small_entry (get_or pages k 0) false
        → ((o : ℕ) → o < page_size → m (get_or pages k 0 + o) ≡ m0 (h.small_addr e + o))
        → CopyOf pages n m0 m e e'

  -- The spaces on the way, with the first `n` free pages taken.
  pub record Going (s0 s : Spaces) (n : ℕ) : Type 0 where
    pub apart : Apart h laws users s.tables s.dst
    pub entries : (j : ℕ) → fix ≢ j → s.tables.l1 j ≡ s0.tables.l1 j
    pub small : h.l1pte_is_sect (s.tables.l1 fix) ≡ false
    pub used : 0 < n → IsTable h (s.tables.l1 fix)
    pub parents :
        (j : ℕ)
        → fix ≢ j
        → IsTable h (s0.tables.l1 j)
        → s.tables.l2 (h.table_of (s0.tables.l1 j)) ≡ s0.tables.l2 (h.table_of (s0.tables.l1 j))
    pub free : s.free_pages ≡ drop n s0.free_pages
    pub memory : (q : ℕ) → Outside s0.free_pages 0 n q → s.memory q ≡ s0.memory q

  -- From `s` to `s'`, free pages from `n` to `n'` were taken, and only the entries from `j` to `j'` in
  -- the table `b` of the child changed.
  pub record Step (s0 s s' : Spaces) (n n' b j j' : ℕ) : Type 0 where
    pub later : n ≤ n'
    pub dst : s'.dst ≡ s.dst
    pub same_table : (x : ℕ) → (x < j) ⊎ (j' ≤ x) → s'.tables.l2 b x ≡ s.tables.l2 b x
    pub other_tables :
        (x : ℕ)
        → x < users
        → IsTable h (s.dst x)
        → h.table_of (s.dst x) ≢ b
        → s'.tables.l2 (h.table_of (s.dst x)) ≡ s.tables.l2 (h.table_of (s.dst x))
    pub memory : (q : ℕ) → Outside s0.free_pages n n' q → s'.memory q ≡ s.memory q
    pub room : length s.tables.pool + n ≤ length s'.tables.pool + n'

  pub Step-refl : (s0 s : Spaces) (n b j j' : ℕ) → Step s0 s s n n b j j'
  Step-refl s0 s n b j j' = record {
    later = omega arith;
    dst = refl;
    same_table = λ x away. refl;
    other_tables = λ x low is ne. refl;
    memory = λ q out. refl;
    room = omega arith;
  }

  pub Step-trans :
      (s0 s s1 s2 : Spaces) (n n1 n2 b j j1 j2 : ℕ)
      → j ≤ j1
      → j1 ≤ j2
      → Step s0 s s1 n n1 b j j1
      → Step s0 s1 s2 n1 n2 b j1 j2
      → Step s0 s s2 n n2 b j j2
  Step-trans s0 s s1 s2 n n1 n2 b j j1 j2 up up' r r' = record {
    later = omega (arith, r.later, r'.later);
    dst = r'.dst ∙ r.dst;
    same_table = λ x away. elim away [
      | inl p ↦ r'.same_table x (inl (omega arith)) ∙ r.same_table x (inl p)
      | inr p ↦ r'.same_table x (inr p) ∙ r.same_table x (inr (omega arith))
    ];
    other_tables = λ x low is ne.
        let d : s.dst x ≡ s1.dst x = ap (λ f. f x) (sym r.dst) in
        let is' : IsTable h (s1.dst x) =
          (ap (λ w. w == 0) (sym d) ∙ is.0, ap h.l1pte_is_sect (sym d) ∙ is.1) in
        ap (λ w. s2.tables.l2 (h.table_of w)) d
        ∙ r'.other_tables x low is' (λ same. ne (ap h.table_of d ∙ same))
        ∙ ap (λ w. s1.tables.l2 (h.table_of w)) (sym d)
        ∙ r.other_tables x low is ne;
    memory = λ q out.
        r'.memory q (λ k a z. out k (omega (arith, r.later)) z)
        ∙ r.memory q (λ k a z. out k a (omega (arith, r'.later)));
    room = omega (arith, r.room, r'.room);
  }

  module _ (s0 : Spaces) (whole : IsWhole c) (pages : IsFree s0.free_pages) where
    pub page_of :
        (k o : ℕ)
        → k < length s0.free_pages
        → o < page_size
        → (get_or s0.free_pages k 0 + o) / page_size ≡ get_or s0.free_pages k 0 / page_size
    page_of k o p q = omega (arith, pages.even k p)

    pub other_page :
        (k l : ℕ)
        → k < length s0.free_pages
        → l < length s0.free_pages
        → k ≢ l
        → get_or s0.free_pages k 0 / page_size ≢ get_or s0.free_pages l 0 / page_size
    other_page k l p q ne same =
        let both : get_or s0.free_pages k 0 ≡ get_or s0.free_pages l 0 =
          omega (arith, pages.even k p, pages.even l q, same) in
        elim (dec_lt k l) [
          | yes lt ↦ pages.distinct k l lt q both
          | no ge ↦ pages.distinct l k (omega arith) p (sym both)
        ]

    -- What was copied stays copied.
    pub CopyOf-Step :
        (s s' : Spaces) (n n' b j j' e e' : ℕ)
        → n' ≤ length s0.free_pages
        → Step s0 s s' n n' b j j'
        → CopyOf s0.free_pages n s0.memory s.memory e e'
        → CopyOf s0.free_pages n' s0.memory s'.memory e e'
    CopyOf-Step s s' n n' b j j' e e' fits step (no_page x y) = no_page x y
    CopyOf-Step s s' n n' b j j' e e' fits step (copied k x lt y bytes) =
        copied k x (omega (arith, step.later)) y λ o p.
          step.memory (get_or s0.free_pages k 0 + o) (λ l a z same.
            other_page k l (omega (arith, step.later)) (omega arith) (omega arith)
              (sym (page_of k o (omega (arith, step.later)) p) ∙ same))
          ∙ bytes o p
