-- ===== src/Process/Duplicate/Child.antt =====
-- The user space of the child after duplicate_user_space, as the MMU sees it.
use sye.Base.{
  ℕ, ◌+◌, ◌%◌, ◌/◌, ◌<◌, ◌≤◌, ◌≡◌, refl, sym, ap, ◌∙◌, ◌≢◌, false, some, none, length, get_or, drop,
  arith, ◌==◌,
}
use mathlib.Core.Path.{subst}
use sye.Mmu.{Macros, Tables, page_size, sect_size}
use sye.Mmu.Walk.{IsMmu, IsTable, walk, walk_entry, walk_entry-agree}
use sye.Mmu.Release.Page.{PageReleased, release_mapping-page}
use sye.Process.Duplicate.{Spaces, Fixmap, copy_tables, duplicate_user_space}
use sye.Process.Duplicate.Apart.{seen}
use sye.Process.Duplicate.State.{Outside, fix, users, no_page, copied}
use sye.Process.Duplicate.Copied.{
  CanCopy, all_pages, TableCopied, no_table, table_copied, Copied, copy_tables-Copied,
}

module _ (h : Macros) (laws : IsMmu h) (c : Fixmap) (s0 : Spaces) (can : CanCopy h laws c s0) where
  -- The address `v` of the user space is a fault for the child if it is one for the parent, or else
  -- stands for the same byte, in one of the first `n` free pages.
  pub data SameByte (n : ℕ) (s : Spaces) (v : ℕ) : Type 0 where
    fault :
        walk h s0.tables v ≡ none
        → walk h (seen h laws (users h laws c) s.tables s.dst) v ≡ none
        → SameByte n s v
    same :
        (p k : ℕ)
        → k < n
        → walk h s0.tables v ≡ some p
        → walk h (seen h laws (users h laws c) s.tables s.dst) v
          ≡ some (get_or s0.free_pages k 0 + v % page_size)
        → s.memory (get_or s0.free_pages k 0 + v % page_size) ≡ s0.memory p
        → SameByte n s v

  -- The parent goes on as before, and the child has copies.
  pub record Duplicated (n : ℕ) (s : Spaces) : Type 0 where
    pub parent : (v : ℕ) → v / sect_size < users h laws c → walk h s.tables v ≡ walk h s0.tables v
    pub child : (v : ℕ) → v / sect_size < users h laws c → SameByte n s v
    pub memory : (q : ℕ) → Outside s0.free_pages 0 n q → s.memory q ≡ s0.memory q
    pub free : s.free_pages ≡ drop n s0.free_pages

  walk-agree :
      (t t' : Tables) (v : ℕ)
      → t'.l1 (h.l1pte_index v) ≡ t.l1 (h.l1pte_index v)
      → (IsTable h (t.l1 (h.l1pte_index v))
          → t'.l2 (h.table_of (t.l1 (h.l1pte_index v)))
            ≡ t.l2 (h.table_of (t.l1 (h.l1pte_index v))))
      → walk h t' v ≡ walk h t v
  unfolding walk
  walk-agree t t' v e agree =
      ap (λ w. walk_entry h t'.l2 w v) e
      ∙ walk_entry-agree h t.l2 t'.l2 (t.l1 (h.l1pte_index v)) v
          (λ was. ap (λ f. f (h.l2pte_index v)) (agree was))

  not_fix : (v : ℕ) → v / sect_size < users h laws c → fix h laws c ≢ h.l1pte_index v
  not_fix v user = omega (arith, can.above, laws.l1_index v)

  module _ (s : Spaces) (n v i : ℕ) (index : v / sect_size ≡ i)
      (fits : n ≤ length s0.free_pages) where
    SameByte-table : TableCopied h laws c s0 can n s i → SameByte n s v
    unfolding walk
    SameByte-table (no_table p q) =
        let at = laws.l1_index v ∙ index in fault (rw (at, p) refl) (rw (at, q) refl)
    SameByte-table (table_copied (p0, p1) (q0, q1) r) =
        let at = laws.l1_index v ∙ index in
        let at' = laws.l2_index v in
        elim (r (v / page_size % 256) (omega arith)) [
          | no_page x y ↦ fault (rw (at, p0, p1, at', x) refl) (rw (at, q0, q1, at', y) refl)
          | copied k x lt y bytes ↦
              let used : (s0.tables.l2 (h.table_of (s0.tables.l1 i)) (v / page_size % 256) == 0)
                  ≡ false =
                ground arith in
              let even : get_or s0.free_pages k 0 % page_size ≡ 0 =
                can.pages.even k (omega arith) in
              same
                (h.small_addr (s0.tables.l2 (h.table_of (s0.tables.l1 i)) (v / page_size % 256))
                  + v % page_size)
                k lt (rw (at, p0, p1, at', used) refl)
                (rw
                  (
                    at,
                    q0,
                    q1,
                    at',
                    y,
                    laws.small_used (get_or s0.free_pages k 0) false even,
                    laws.small_addr (get_or s0.free_pages k 0) false even,
                  )
                  refl)
                (bytes (v % page_size) (omega arith))
        ]

  module _ (s : Spaces) (n : ℕ) (t : Tables) (r : Copied h laws c s0 can s n (users h laws c))
      (some_page : 0 < n) (fits : n ≤ length s0.free_pages)
      (rel : PageReleased h laws (fix h laws c) s.tables t) (v : ℕ)
      (user : v / sect_size < users h laws c) where
    parent-released : walk h t v ≡ walk h s0.tables v
    parent-released =
        let ne = not_fix v user in
        walk-agree s.tables t v (rel.entries (h.l1pte_index v) ne) (λ is.
          rel.others (h.table_of (s.tables.l1 (h.l1pte_index v))) (λ z. ne (
            sym (
              r.going.apart.mine.apart (h.l1pte_index v) (fix h laws c) is (r.going.used some_page)
                z))))
        ∙ walk-agree s0.tables s.tables v (r.going.entries (h.l1pte_index v) ne)
            (r.going.parents (h.l1pte_index v) ne)

    child-released :
        walk h (seen h laws (users h laws c) t s.dst) v
        ≡ walk h (seen h laws (users h laws c) s.tables s.dst) v
    child-released =
        walk-agree (seen h laws (users h laws c) s.tables s.dst)
          (seen h laws (users h laws c) t s.dst) v refl
          (λ is. rel.others (h.table_of (s.dst (h.l1pte_index v))) (λ z.
            r.going.apart.both (fix h laws c) (h.l1pte_index v) (omega (arith, laws.l1_index v))
              (r.going.used some_page) is (sym z)))

    SameByte-released : SameByte n (record s { tables = t }) v
    SameByte-released =
        elim (SameByte-table s n v (v / sect_size) refl fits (r.copies (v / sect_size) user)) [
          | fault a b ↦ fault a (child-released ∙ b)
          | same p k lt a b m ↦ same p k lt a (child-released ∙ b) m
        ]

  start-Copied : Copied h laws c s0 can s0 0 0
  start-Copied = record {
    going = record {
      apart = can.apart;
      entries = λ j ne. refl;
      small = can.small_fixmap;
      used = λ p. absurd (omega arith);
      parents = λ j ne is. refl;
      free = refl;
      memory = λ q out. refl;
    };
    copies = λ x p. absurd (omega arith);
    others = λ x p. refl;
  }

  all-Copied :
      (fuel : ℕ)
      → 256 ≤ fuel
      → all_pages h laws c (users h laws c) 0 s0.tables ≤ length s0.free_pages
      → users h laws c + all_pages h laws c (users h laws c) 0 s0.tables ≤ length s0.tables.pool
      → (s : Spaces) × (copy_tables h c fuel (users h laws c) 0 s0 ≡ some s)
        × Copied h laws c s0 can s
            (all_pages h laws c (users h laws c) 0 s0.tables)
            (users h laws c)
  all-Copied fuel enough fits room =
      let none_yet : 0 + all_pages h laws c (users h laws c) 0 s0.tables
          ≡ all_pages h laws c (users h laws c) 0 s0.tables =
        omega arith in
      let (s, run, r) =
        copy_tables-Copied h laws c s0 can fuel (users h laws c) 0 0 s0 enough (omega arith)
          start-Copied (omega arith) room in
      (s, run, subst (λ n. Copied h laws c s0 can s n (users h laws c)) none_yet r)

  -- The child has no user page, no section is among the entries of the user space and of the
  -- fixmap, which is above them, the second level tables and the blocks for new ones are apart,
  -- and the free pages are whole, distinct and none of the parent's. If the parent has a page,
  -- there are as many free pages as it has, and a block for each of these and for each user entry,
  -- duplicate_user_space succeeds. For every user address the parent sees what it saw. The child
  -- has a fault where the parent has one, and elsewhere the same byte in one of the free pages. No
  -- other page of the memory changes.
  pub duplicate_user_space-Duplicated :
      (fuel : ℕ)
      → 256 ≤ fuel
      → 0 < all_pages h laws c (users h laws c) 0 s0.tables
      → all_pages h laws c (users h laws c) 0 s0.tables ≤ length s0.free_pages
      → users h laws c + all_pages h laws c (users h laws c) 0 s0.tables ≤ length s0.tables.pool
      → (s : Spaces) × (duplicate_user_space h c fuel s0 ≡ some s)
        × Duplicated (all_pages h laws c (users h laws c) 0 s0.tables) s
  unfolding duplicate_user_space
  duplicate_user_space-Duplicated fuel enough some_page fits room =
      let (s, run, r') = all-Copied fuel enough fits room in
      let (t, gone, rel) =
        release_mapping-page h laws fuel c.fixmap s.tables (omega arith) can.whole.0 can.whole.1 in
      (
        record s { tables = t },
        rw (laws.l1_index c.kernel_vaddr, run, gone) refl,
        record {
          parent = parent-released s _ t r' some_page fits rel;
          child = SameByte-released s _ t r' some_page fits rel;
          memory = r'.going.memory;
          free = r'.going.free;
        },
      )
