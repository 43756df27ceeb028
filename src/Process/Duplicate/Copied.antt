-- ===== src/Process/Duplicate/Copied.antt =====
-- duplicate_user_space table by table, up to the release of the fixmap.
use sye.Base.{
  ℕ, zero, suc, ◌+◌, ◌*◌, ◌%◌, ◌/◌, ◌<◌, ◌≤◌, ◌≡◌, refl, sym, ap, ◌∙◌, ◌≢◌, inl, inr, true, false,
  some, List, ◌∷◌, length, get_or, arith, ℕ_discrete, Bool-cases, ◌==◌, if◌then◌else◌,
  first_element,
}
use sye.Mmu.{Macros, Tables, page_size, sect_size}
use sye.Mmu.Small.{write-here, write-other}
use sye.Mmu.Walk.{IsMmu, IsTable}
use sye.Process.Duplicate.{Spaces, Fixmap, copy_entries, with_table, copy_table, copy_tables}
use sye.Process.Duplicate.Apart.{Apart, Apart-new}
use sye.Process.Duplicate.State.{IsWhole, IsFree, fix, users, CopyOf, Going, Step, CopyOf-Step}
use sye.Process.Duplicate.Table.{held, copy_entries-CopyOf}

module _ (h : Macros) (laws : IsMmu h) (c : Fixmap) where
  -- What the function needs of the spaces: a child without user pages, no section among the entries
  -- of the user space and of the fixmap, and free pages that are not those of the parent.
  pub record CanCopy (s0 : Spaces) : Type 0 where
    pub whole : IsWhole c
    pub above : c.kernel_vaddr ≤ c.fixmap
    pub pages : IsFree s0.free_pages
    pub apart : Apart h laws (users h laws c) s0.tables s0.dst
    pub no_pages : (i : ℕ) → i < users h laws c → s0.dst i ≡ 0
    pub small : (i : ℕ) → i < users h laws c → h.l1pte_is_sect (s0.tables.l1 i) ≡ false
    pub small_fixmap : h.l1pte_is_sect (s0.tables.l1 (fix h laws c)) ≡ false
    pub addr :
        (i j : ℕ)
        → i < users h laws c
        → j < 256
        → c.pte_index_to_vaddr i j ≡ i * sect_size + j * page_size
    pub in_use :
        (i j k o : ℕ)
        → i < users h laws c
        → IsTable h (s0.tables.l1 i)
        → j < 256
        → k < length s0.free_pages
        → o < page_size
        → (s0.tables.l2 (h.table_of (s0.tables.l1 i)) j == 0) ≡ false
        → (h.small_addr (s0.tables.l2 (h.table_of (s0.tables.l1 i)) j) + o) / page_size
          ≢ get_or s0.free_pages k 0 / page_size

  -- The pages of entry `i`.
  abbrev pub pages_at : Tables → ℕ → ℕ
  pages_at t i = if t.l1 i == 0 then 0 else held 256 0 (t.l2 (h.table_of (t.l1 i)))

  -- The pages, and the tables, of `left` entries from entry `i` on.
  unfoldable pub all_pages : (left i : ℕ) → Tables → ℕ
  all_pages zero i t = 0
  all_pages (suc left) i t = pages_at t i + all_pages left (i + 1) t

  module _ (s0 : Spaces) (can : CanCopy s0) where
    -- Entry `i` of the child is for a table of copies if that of the parent is for a table.
    pub data TableCopied (n : ℕ) (s : Spaces) (i : ℕ) : Type 0 where
      no_table : s0.tables.l1 i ≡ 0 → s.dst i ≡ 0 → TableCopied n s i
      table_copied :
          IsTable h (s0.tables.l1 i)
          → IsTable h (s.dst i)
          → ((j : ℕ)
              → j < 256
              → CopyOf h laws c s0.free_pages n s0.memory s.memory
                  (s0.tables.l2 (h.table_of (s0.tables.l1 i)) j)
                  (s.tables.l2 (h.table_of (s.dst i)) j))
          → TableCopied n s i

    -- From `s` to `s'`, entry `i` was handled.
    pub record Handled (s s' : Spaces) (n n' i : ℕ) : Type 0 where
      pub going : Going h laws c s0 s' n'
      pub other : (x : ℕ) → i ≢ x → s'.dst x ≡ s.dst x
      pub here : TableCopied n' s' i
      pub before : (x : ℕ) → x < users h laws c → i ≢ x → TableCopied n s x → TableCopied n' s' x
      pub room : length s.tables.pool + n ≤ suc (length s'.tables.pool + n')

    copy_table-empty :
        (fuel i n : ℕ) (s : Spaces)
        → i < users h laws c
        → Going h laws c s0 s n
        → s.dst i ≡ 0
        → (s0.tables.l1 i == 0) ≡ true
        → (copy_table h c fuel i s ≡ some s) × Handled s s n n i
    unfolding copy_table
    copy_table-empty fuel i n s user going blank empty =
        let not_fix : c.fixmap / sect_size ≢ i = omega (arith, can.above) in
        (
          rw (going.entries i not_fix, empty) refl,
          record {
            going = going;
            other = λ x ne. refl;
            here = no_table (ground arith) blank;
            before = λ x low ne r. r;
            room = omega arith;
          },
        )

    module _ (fuel i n b : ℕ) (pool : List ℕ) (s : Spaces) (user : i < users h laws c)
        (going : Going h laws c s0 s n) (blank : s.dst i ≡ 0) (e : s.tables.pool ≡ b ∷ pool)
        (used : (s0.tables.l1 i == 0) ≡ false) where
      not_fix : c.fixmap / sect_size ≢ i
      not_fix = omega (arith, can.above)

      abbrev start : Spaces
      start = with_table h c fuel i b pool s

      first : get_or s.tables.pool 0 0 ≡ b
      first = ap (λ l. get_or l 0 0) e

      count : length s.tables.pool ≡ suc (length pool)
      count = ap length e

      apart' : Apart h laws (users h laws c) start.tables start.dst
      apart' = Apart-new h laws (users h laws c) i b pool s.tables s.dst e going.apart

      entry' : start.dst i ≡ h.table_entry b false
      entry' = write-here s.dst i (h.table_entry b false)

      even : b % 1024 ≡ 0
      even = ap (λ x. x % 1024) (sym first) ∙ going.apart.mine.aligned 0 (omega (arith, count))

      mine : IsTable h (start.dst i)
      mine = (
        ap (λ w. w == 0) entry' ∙ laws.table_used b false even,
        ap h.l1pte_is_sect entry' ∙ laws.table_kind b false even,
      )

      table' : b ≡ h.table_of (start.dst i)
      table' = sym (ap h.table_of entry' ∙ laws.table_addr b false even)

      parent : IsTable h (s0.tables.l1 i)
      parent = (used, can.small i user)

      start-Going : Going h laws c s0 start n
      start-Going = record {
        apart = apart';
        entries = going.entries;
        small = going.small;
        used = going.used;
        parents = λ x ne is.
            let l1 = going.entries x ne in
            write-other s.tables.l2 b (h.table_of (s0.tables.l1 x)) (λ k. 0)
              (λ same.
                going.apart.mine.fresh x 0
                  (ap (λ w. w == 0) l1 ∙ is.0, ap h.l1pte_is_sect l1 ∙ is.1) (omega (arith, count))
                  (first ∙ same ∙ ap h.table_of (sym l1)))
            ∙ going.parents x ne is;
        free = going.free;
        memory = going.memory;
      }

      before' :
          (s' : Spaces) (n' : ℕ)
          → n' ≤ length s0.free_pages
          → Step h laws c s0 start s' n n' b 0 256
          → (x : ℕ) → x < users h laws c
          → i ≢ x
          → TableCopied n s x
          → TableCopied n' s' x
      before' s' n' fits step x low ne (no_table p q) =
          no_table p (ap (λ f. f x) step.dst ∙ write-other s.dst i x _ ne ∙ q)
      before' s' n' fits step x low ne (table_copied p q r) =
          let old : start.dst x ≡ s.dst x = write-other s.dst i x _ ne in
          let d : s'.dst x ≡ s.dst x = ap (λ f. f x) step.dst ∙ old in
          let is' : IsTable h (start.dst x) =
            (ap (λ w. w == 0) old ∙ q.0, ap h.l1pte_is_sect old ∙ q.1) in
          let other : h.table_of (start.dst x) ≢ b =
            λ same. ne (apart'.child.apart i x mine is' (sym table' ∙ sym same)) in
          let same : s'.tables.l2 (h.table_of (s.dst x)) ≡ s.tables.l2 (h.table_of (s.dst x)) =
            ap (λ w. s'.tables.l2 (h.table_of w)) (sym old)
            ∙ step.other_tables x low is' other
            ∙ ap (λ w. start.tables.l2 (h.table_of w)) old
            ∙ write-other s.tables.l2 b (h.table_of (s.dst x)) (λ k. 0)
                (λ z. going.apart.child.fresh x 0 q (omega (arith, count)) (first ∙ z)) in
          table_copied p (ap (λ w. w == 0) d ∙ q.0, ap h.l1pte_is_sect d ∙ q.1)
            λ j short.
              let copy =
                CopyOf-Step h laws c s0 can.whole can.pages start s' n n' b 0 256
                  (s0.tables.l2 (h.table_of (s0.tables.l1 x)) j)
                  (s.tables.l2 (h.table_of (s.dst x)) j) fits step (r j short) in
              rw (d, same) copy

      copy_table-run :
          copy_table h c fuel i s
          ≡ copy_entries h c fuel 256 (h.table_of (s0.tables.l1 i)) b i 0 start
      unfolding copy_table
      copy_table-run =
          let l1 = going.entries i not_fix in
          let w : (s.tables.l1 i == 0) ≡ false = ap (λ w. w == 0) l1 ∙ used in
          let sect = ap h.l1pte_is_sect l1 ∙ can.small i user in
          rw (w, sect, e) (ap (λ w. copy_entries h c fuel 256 (h.table_of w) b i 0 start) l1)

      copy_table-used :
          256 ≤ fuel
          → n + held 256 0 (s0.tables.l2 (h.table_of (s0.tables.l1 i))) ≤ length s0.free_pages
          → held 256 0 (s0.tables.l2 (h.table_of (s0.tables.l1 i))) < length s.tables.pool
          → (s' : Spaces) × (copy_table h c fuel i s ≡ some s')
            × Handled s s' n (n + held 256 0 (s0.tables.l2 (h.table_of (s0.tables.l1 i)))) i
      copy_table-used enough fits room =
          let (s', run, going', step, copies) =
            copy_entries-CopyOf h laws c s0 can.whole can.pages fuel enough can.above i user
              (λ j. can.addr i j user) parent (λ j k o. can.in_use i j k o user parent) 256 b 0 n
              start refl start-Going mine table'
              (λ x p q. ap (λ f. f x) (write-here s.tables.l2 b (λ k. 0))) fits
              (omega (arith, count)) in
          let d : s'.dst i ≡ start.dst i = ap (λ f. f i) step.dst in
          let own : h.table_of (s'.dst i) ≡ b = ap h.table_of d ∙ sym table' in
          (
            s',
            copy_table-run ∙ run,
            record {
              going = going';
              other = λ x ne. ap (λ f. f x) step.dst ∙ write-other s.dst i x _ ne;
              here =
                  table_copied parent (ap (λ w. w == 0) d ∙ mine.0, ap h.l1pte_is_sect d ∙ mine.1)
                    λ j short. rw own (copies j (omega arith) short);
              before = before' s' _ fits step;
              room = omega (arith, step.room, count);
            },
          )

    copy_table-Handled :
        (fuel i n : ℕ) (s : Spaces)
        → 256 ≤ fuel
        → i < users h laws c
        → Going h laws c s0 s n
        → s.dst i ≡ 0
        → n + pages_at s0.tables i ≤ length s0.free_pages
        → pages_at s0.tables i < length s.tables.pool
        → (s' : Spaces) × (copy_table h c fuel i s ≡ some s')
          × Handled s s' n (n + pages_at s0.tables i) i
    copy_table-Handled fuel i n s enough user going blank fits room =
        elim (Bool-cases (s0.tables.l1 i == 0)) [
          | inl empty ↦
              let same : n + 0 ≡ n = omega arith in
              let (run, r) = copy_table-empty fuel i n s user going blank empty in
              (s, run, rw (empty, same) r)
          | inr used ↦
              let (b, pool, e) = first_element s.tables.pool (omega arith) in
              let all : pages_at s0.tables i
                  ≡ held 256 0 (s0.tables.l2 (h.table_of (s0.tables.l1 i))) =
                rw used refl in
              rw used (
                copy_table-used fuel i n b pool s user going blank e used enough (rw (← all) fits)
                  (rw (← all) room))
        ]

    -- The first `i` entries were handled.
    pub record Copied (s : Spaces) (n i : ℕ) : Type 0 where
      pub going : Going h laws c s0 s n
      pub copies : (x : ℕ) → x < i → TableCopied n s x
      pub others : (x : ℕ) → i ≤ x → s.dst x ≡ s0.dst x

    pub copy_tables-Copied :
        (fuel left i n : ℕ) (s : Spaces)
        → 256 ≤ fuel
        → i + left ≡ users h laws c
        → Copied s n i
        → n + all_pages left i s0.tables ≤ length s0.free_pages
        → left + all_pages left i s0.tables ≤ length s.tables.pool
        → (s' : Spaces) × (copy_tables h c fuel left i s ≡ some s')
          × Copied s' (n + all_pages left i s0.tables) (users h laws c)
    unfolding copy_tables all_pages
    copy_tables-Copied fuel zero i n s enough e r fits room =
        let same : n + 0 ≡ n = omega arith in
        let last : i ≡ users h laws c = omega arith in (s, refl, rw (same, ← last) r)
    copy_tables-Copied fuel (suc left) i n s enough e r fits room =
        let user : i < users h laws c = omega arith in
        let (s1, run, q) =
          copy_table-Handled fuel i n s enough user r.going
            (r.others i (omega arith) ∙ can.no_pages i user) (omega arith) (omega arith) in
        let r1 : Copied s1 (n + pages_at s0.tables i) (i + 1) = record {
          going = q.going;
          copies = λ x p. elim (ℕ_discrete i x) [
            | yes here ↦ rw (← here) q.here
            | no ne ↦ q.before x (omega arith) ne (r.copies x (ground arith))
          ];
          others = λ x p. q.other x (omega arith) ∙ r.others x (omega arith);
        } in
        let (s', run', r') =
          copy_tables-Copied fuel left (i + 1) (n + pages_at s0.tables i) s1 enough (omega arith) r1
            (omega arith) (omega (arith, q.room)) in
        let sum : n + pages_at s0.tables i + all_pages left (i + 1) s0.tables
            ≡ n + (pages_at s0.tables i + all_pages left (i + 1) s0.tables) =
          omega arith in
        (s', rw run run', rw (← sum) r')
