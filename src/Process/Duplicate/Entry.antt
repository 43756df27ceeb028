-- ===== src/Process/Duplicate/Entry.antt =====
-- One page of the parent in duplicate_user_space: copied to the next free page.
use sye.Base.{
  ℕ, suc, ◌+◌, ◌*◌, ◌%◌, ◌/◌, ◌<◌, ◌≤◌, ◌≡◌, refl, sym, ap, ◌∙◌, ◌≢◌, inl, inr, false, some, length,
  get_or, drop, arith, ◌==◌,
}
use sye.Mmu.{Macros, Tables, page_size, sect_size, write, create_mapping}
use sye.Mmu.Small.{write-here, write-other}
use sye.Mmu.Walk.{IsMmu, IsTable, walk}
use sye.Mmu.Page.{PageMapped, create_mapping-page}
use sye.Process.{add_page_to_proc}
use sye.Process.Duplicate.{Spaces, Fixmap, copy_bytes, copy_entry}
use sye.Process.Duplicate.Apart.{Apart, Apart-l2, Apart-kept, child-kept, child-walk}
use sye.Process.Duplicate.Bytes.{BytesCopied, copy_bytes-BytesCopied}
use sye.Process.Duplicate.State.{
  IsWhole, drop-get, IsFree, Outside, fix, users, CopyOf, copied, Going, Step, page_of,
}

module _ (h : Macros) (laws : IsMmu h) (c : Fixmap) where
  module _ (s0 : Spaces) (whole : IsWhole c) (pages : IsFree s0.free_pages) where
    -- An entry of the parent, at `j` in the table of entry `i`, which is below the fixmap.
    module _ (fuel : ℕ) (enough : 256 ≤ fuel) (i j : ℕ) (user : i < users h laws c)
        (above : c.kernel_vaddr ≤ c.fixmap) (short : j < 256)
        (addr : c.pte_index_to_vaddr i j ≡ i * sect_size + j * page_size)
        (parent : IsTable h (s0.tables.l1 i)) where
      abbrev entry : ℕ
      entry = s0.tables.l2 (h.table_of (s0.tables.l1 i)) j

      not_fix : fix h laws c ≢ i
      not_fix = omega arith

      src_walk :
          (s : Spaces) (n o : ℕ)
          → Going h laws c s0 s n
          → (entry == 0) ≡ false
          → o < page_size
          → walk h s.tables (c.pte_index_to_vaddr i j + o) ≡ some (h.small_addr entry + o)
      unfolding walk
      src_walk s n o going used lt =
          let (w, small) = parent in
          let l1 : h.l1pte_index (c.pte_index_to_vaddr i j + o) ≡ i =
            laws.l1_index (c.pte_index_to_vaddr i j + o) ∙ omega arith in
          let l2 : h.l2pte_index (c.pte_index_to_vaddr i j + o) ≡ j =
            laws.l2_index (c.pte_index_to_vaddr i j + o) ∙ omega arith in
          let offset : (c.pte_index_to_vaddr i j + o) % page_size ≡ o = omega arith in
          rw
            (
              l1,
              going.entries i not_fix,
              w,
              small,
              l2,
              going.parents i not_fix parent,
              used,
              offset,
            )
            refl

      module _ (s : Spaces) (n : ℕ) (going : Going h laws c s0 s n) (mine : IsTable h (s.dst i))
          (used : (entry == 0) ≡ false) (one_more : n < length s0.free_pages)
          (apart_from : (k o : ℕ)
            → k < length s0.free_pages
            → o < page_size
            → (h.small_addr entry + o) / page_size ≢ get_or s0.free_pages k 0 / page_size) where
        abbrev paddr : ℕ
        paddr = get_or s0.free_pages n 0

        abbrev b : ℕ
        b = h.table_of (s.dst i)

        -- The spaces after the page, with the tables `t` of `create_mapping` and the memory `m`.
        abbrev after : Tables → (ℕ → ℕ) → Spaces
        after t m = record s {
          tables = record t { l2 = write t.l2 b (write (t.l2 b) j (h.small_entry paddr false)) };
          child = (add_page_to_proc (c.phys_to_page paddr) (s.child, s.frames)).0;
          frames = (add_page_to_proc (c.phys_to_page paddr) (s.child, s.frames)).1;
          free_pages = drop (suc n) s0.free_pages;
          memory = m;
        }

        run_entry :
            (t : Tables) (m : ℕ → ℕ)
            → create_mapping h fuel c.fixmap paddr page_size false s.tables ≡ some t
            → copy_bytes h page_size 0 c.fixmap
                (c.pte_index_to_vaddr i j)
                (after t m).tables
                s.memory
              ≡ some m
            → copy_entry h c fuel (h.table_of (s0.tables.l1 i)) b i j s ≡ some (after t m)
        unfolding copy_entry
        run_entry t m mapped bytes =
            let next = going.free ∙ drop-get n s0.free_pages one_more in
            rw (going.parents i not_fix parent, used, next, mapped, bytes) refl

        module _ (t : Tables) (m : ℕ → ℕ) (r : PageMapped h laws s.tables t c.fixmap paddr)
            (bytes : BytesCopied (h.small_addr entry) paddr 0 page_size s.memory m) where
          apart' : Apart h laws (users h laws c) t s.dst
          apart' =
              Apart-kept h laws (users h laws c) (fix h laws c) s.tables t s.dst r.kept r.shared
                going.apart

          memory' : (q : ℕ) → Outside s0.free_pages n (suc n) q → m q ≡ s.memory q
          memory' q out = bytes.outside q λ o x y same.
              out n (omega arith) (omega arith)
                (ap (λ z. z / page_size) same ∙ page_of h laws c s0 whole pages n o one_more y)

          Going-after : Going h laws c s0 (after t m) (suc n)
          Going-after = record {
            apart = Apart-l2 h laws (users h laws c) t s.dst _ apart';
            entries = λ x other. r.kept.entries x other ∙ going.entries x other;
            small = r.small;
            used = λ p. r.shared.is_table;
            parents = λ x other was.
                let l1 : t.l1 x ≡ s0.tables.l1 x = r.kept.entries x other ∙ going.entries x other in
                let is : IsTable h (t.l1 x) =
                  (ap (λ w. w == 0) l1 ∙ was.0, ap h.l1pte_is_sect l1 ∙ was.1) in
                write-other t.l2 b (h.table_of (s0.tables.l1 x)) _
                  (λ same. apart'.both x i user is mine (ap h.table_of l1 ∙ sym same))
                ∙ r.shared.others (h.table_of (s0.tables.l1 x)) (λ same. other (
                    sym (
                      apart'.mine.apart x (fix h laws c) is r.shared.is_table
                        (ap h.table_of l1 ∙ same))))
                ∙ going.parents x other was;
            free = refl;
            memory = λ q out.
                memory' q (λ k x y. out k (omega arith) y)
                ∙ going.memory q (λ k x y. out k x (omega arith));
          }

          Step-after : Step h laws c s0 s (after t m) n (suc n) b j (suc j)
          Step-after = record {
            later = omega arith;
            dst = refl;
            same_table = λ x away.
                ap (λ f. f x) (write-here t.l2 b (write (t.l2 b) j (h.small_entry paddr false)))
                ∙ write-other (t.l2 b) j x (h.small_entry paddr false)
                    (λ same. elim away [ inl p ↦ omega arith | inr p ↦ omega arith ])
                ∙ ap (λ f. f x)
                    (child-kept h laws (users h laws c) (fix h laws c) s.tables t s.dst r.kept
                      r.shared going.apart i user r.shared.is_table mine);
            other_tables = λ x low is ne.
                write-other t.l2 b (h.table_of (s.dst x)) _ (λ same. ne (sym same))
                ∙ child-kept h laws (users h laws c) (fix h laws c) s.tables t s.dst r.kept r.shared
                    going.apart x low r.shared.is_table is;
            memory = memory';
            room = omega (arith, r.kept.room);
          }

          CopyOf-after :
              CopyOf h laws c s0.free_pages (suc n) s0.memory m entry ((after t m).tables.l2 b j)
          CopyOf-after =
              copied n (λ z. ground arith) (omega arith)
                (ap (λ f. f j) (write-here t.l2 b _) ∙ write-here (t.l2 b) j _)
                λ o lt.
                  bytes.inside o (omega arith) lt
                  ∙ going.memory (h.small_addr entry + o) (λ k x y. apart_from k o (omega arith) lt)

        pub copy_entry-page :
            0 < length s.tables.pool
            → (s' : Spaces) × (copy_entry h c fuel (h.table_of (s0.tables.l1 i)) b i j s ≡ some s')
              × Going h laws c s0 s' (suc n)
              × Step h laws c s0 s s' n (suc n) b j (suc j)
              × CopyOf h laws c s0.free_pages (suc n) s0.memory s'.memory entry (s'.tables.l2 b j)
        copy_entry-page room =
            let (t, mapped, r) =
              create_mapping-page h laws fuel c.fixmap paddr false s.tables enough going.apart.mine
                room whole.0 (pages.even n one_more) whole.1 (pages.below n one_more) going.small in
            let table = write (t.l2 b) j (h.small_entry paddr false) in
            let there : (v : ℕ) → walk h (after t s.memory).tables v ≡ walk h t v = λ v.
              child-walk h laws (users h laws c) t s.dst i v table
                (Apart-kept h laws (users h laws c) (fix h laws c) s.tables t s.dst r.kept r.shared
                  going.apart)
                user mine in
            let (m, ran, bytes) =
              copy_bytes-BytesCopied h page_size c.fixmap (c.pte_index_to_vaddr i j) paddr
                (h.small_addr entry) (after t s.memory).tables
                (λ o lt.
                  there (c.pte_index_to_vaddr i j + o)
                  ∙ r.maps.outside (c.pte_index_to_vaddr i j + o) (inl (omega arith))
                  ∙ src_walk s n o going used lt)
                (λ o lt.
                  there (c.fixmap + o)
                  ∙ r.maps.inside (c.fixmap + o) (omega arith) (omega arith)
                  ∙ ap some (omega arith))
                (λ o o' p q same.
                  apart_from n o one_more p (
                    ap (λ z. z / page_size) same ∙ page_of h laws c s0 whole pages n o' one_more q))
                page_size 0 s.memory (omega arith) in
            (
              after t m,
              run_entry t m mapped ran,
              Going-after t m r bytes,
              Step-after t m r bytes,
              CopyOf-after t m r bytes,
            )
