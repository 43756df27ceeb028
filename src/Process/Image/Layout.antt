-- ===== src/Process/Image/Layout.antt =====
-- The pages of the image that `map_image` of Process/Image.antt maps.
use sye.Base.{
  ℕ, ◌+◌, ◌-◌, ◌*◌, ◌%◌, ◌≤◌, ◌<◌, ◌≡◌, refl, sym, ap, ap₂, ◌∙◌, ◌⊎◌, inl, inr, some, ◌++◌, map,
  arith, get_or, take, drop, take-add, drop-add, get_or-drop,
}
use mathlib.Core.List.{append_assoc, map-append}
use sye.Mmu.{Macros, page_size, sect_size}
use sye.Mmu.Walk.{IsMmu, walk}
use sye.Process.{Pcb}
use sye.Process.Pages.{uses, uses-append}
use sye.Process.Image.{
  Space, Arch, pages_of, allocate_page, with_segments, with_heap, with_args, map_image,
}
use sye.Process.Image.Allocate.{Ready, Allocated, Allocated-at, allocate_page-Allocated}

module _ (h : Macros) (laws : IsMmu h) (c : Arch) where
  -- `s'` has the next `n` free pages more than `s`.
  pub record Grown (n : ℕ) (s s' : Space) : Type 0 where
    pub rest : s'.free_pages ≡ drop n s.free_pages
    pub pages : s'.pcb.page_list ≡ s.pcb.page_list ++ map c.phys_to_page (take n s.free_pages)
    pub counts :
        (q : ℕ)
        → s'.frames.refcount q
          ≡ s.frames.refcount q + uses q (map c.phys_to_page (take n s.free_pages))
    pub freed : s'.frames.freed ≡ s.frames.freed

  Grown-append : (a b : ℕ) (s s1 s2 : Space) → Grown a s s1 → Grown b s1 s2 → Grown (a + b) s s2
  Grown-append a b s s1 s2 r r' =
      let f = c.phys_to_page in
      let first = map f (take a s.free_pages) in
      let both : map f (take (a + b) s.free_pages) ≡ first ++ map f (take b s1.free_pages) =
        ap (map f) (take-add a b s.free_pages)
        ∙ map-append f (take a s.free_pages) (take b (drop a s.free_pages))
        ∙ ap (λ l. first ++ map f (take b l)) (sym r.rest) in
      record {
        rest = r'.rest ∙ ap (drop b) r.rest ∙ sym (drop-add a b s.free_pages);
        pages =
            r'.pages
            ∙ ap (λ l. l ++ map f (take b s1.free_pages)) r.pages
            ∙ append_assoc s.pcb.page_list first (map f (take b s1.free_pages))
            ∙ ap (λ l. s.pcb.page_list ++ l) (sym both);
        counts = λ q. omega (
          arith,
          r.counts q,
          r'.counts q,
          uses-append q first (map f (take b s1.free_pages)),
          ap (uses q) both,
        );
        freed = r'.freed ∙ r.freed;
      }

  -- The process may have changed before, but not its pages.
  Allocated-Grown :
      (n virt : ℕ) (s s' : Space) (pcb : Pcb) (entry : ℕ)
      → pcb.page_list ≡ s.pcb.page_list
      → Allocated h laws c n virt (record s { pcb = pcb; entry = entry }) s'
      → Grown n s s'
  Allocated-Grown n virt s s' pcb entry same r = record {
    rest = r.rest;
    pages = r.pages ∙ ap (λ l. l ++ map c.phys_to_page (take n s.free_pages)) same;
    counts = r.counts;
    freed = r.freed;
  }

  -- A free page of a later space.
  page_at :
      (n k off : ℕ) (s s' : Space)
      → Grown n s s'
      → some (get_or s'.free_pages k 0 + off) ≡ some (get_or s.free_pages (n + k) 0 + off)
  page_at n k off s s' r =
      ap (λ l. some (get_or l k 0 + off)) r.rest
      ∙ ap (λ x. some (x + off)) (get_or-drop n k s.free_pages 0)

  -- The page that holds address `v` of a range of `n` pages from `virt` on, at free page `k0`.
  abbrev pub InRange : (k0 n virt : ℕ) → Space → Space → Type 0
  InRange k0 n virt s s' =
      (k v : ℕ)
      → k < n
      → virt + k * page_size ≤ v
      → v < virt + k * page_size + page_size
      → walk h s'.tables v ≡ some (get_or s.free_pages (k0 + k) 0 + (v - (virt + k * page_size)))

  abbrev pub heap_at : (stack_pages segment_pages : ℕ) → ℕ
  heap_at stack_pages segment_pages = (stack_pages + segment_pages + 1) * page_size

  -- The segments end below the heap, the heap below the stack, and the page of the arguments is in
  -- the user space.
  pub record Fits (users n1 n2 n3 e_entry : ℕ) : Type 0 where
    pub args_even : c.args_base % page_size ≡ 0
    pub entry_even : e_entry % page_size ≡ 0
    pub segments : e_entry + n2 * page_size ≤ heap_at n1 n2
    pub heap : heap_at n1 n2 + n3 * page_size + n1 * page_size ≤ c.args_base
    pub args : c.args_base + page_size ≤ users * sect_size

  -- The stack, the segments, the heap and the page of the arguments have the next free pages, in
  -- this order; every other address is as before.
  pub record Layout (n1 n2 n3 e_entry : ℕ) (s s' : Space) : Type 0 where
    pub stack : InRange 0 n1 (c.args_base - n1 * page_size) s s'
    pub segments : InRange n1 n2 e_entry s s'
    pub heap : InRange (n1 + n2) n3 (heap_at n1 n2) s s'
    pub args : InRange (n1 + n2 + n3) 1 c.args_base s s'
    pub others :
        (v : ℕ)
        → (v < e_entry) ⊎ (e_entry + n2 * page_size ≤ v)
        → (v < heap_at n1 n2) ⊎ (heap_at n1 n2 + n3 * page_size ≤ v)
        → (v < c.args_base - n1 * page_size) ⊎ (c.args_base + page_size ≤ v)
        → walk h s'.tables v ≡ walk h s.tables v
    pub grown : Grown (n1 + n2 + n3 + 1) s s'
    pub page_count : s'.pcb.page_count ≡ n1 + n2 + n3 + 1
    pub heap_base : s'.pcb.heap_base ≡ heap_at n1 n2
    pub heap_pointer : s'.pcb.heap_pointer ≡ heap_at n1 n2
    pub entry : s'.entry ≡ e_entry
    pub parent : s'.pcb.parent ≡ s.pcb.parent
    pub name : s'.pcb.name ≡ s.pcb.name

  -- The four steps of `map_image`, with the spaces after them.
  pub record Steps (n1 n2 n3 e_entry : ℕ) (s s1 s2 s3 s4 : Space) : Type 0 where
    pub stack : Allocated h laws c n1 (c.args_base - n1 * page_size) s s1
    pub segments : Allocated h laws c n2 e_entry (with_segments h c e_entry n2 s1) s2
    pub heap : Allocated h laws c n3 (heap_at n1 n2) (with_heap h c s2) s3
    pub args : Allocated h laws c 1 c.args_base (with_args h c s3) s4
    pub stack_pages : s.pcb.page_count ≡ n1
    pub heap_pages : pages_of c.heap_size ≡ n3

  Allocated-page_count :
      (n virt : ℕ) (s s' : Space)
      → Allocated h laws c n virt s s'
      → s'.pcb.page_count ≡ s.pcb.page_count
  Allocated-page_count n virt s s' r = ap (λ p. p.page_count) r.pcb

  Ready-with :
      (users n : ℕ) (s : Space) (pcb : Pcb) (entry : ℕ)
      → Ready h laws c users n s
      → Ready h laws c users n (record s { pcb = pcb; entry = entry })
  Ready-with users n s pcb entry r = record {
    tables = r.tables;
    room = r.room;
    enough = r.enough;
    even = r.even;
    phys = r.phys;
    low = r.low;
    small = r.small;
  }

  map_image-run :
      (fuel n1 n2 n3 e_entry : ℕ) (s s1 s2 s3 s4 : Space)
      → s.pcb.stack_top ≡ c.args_base
      → s.pcb.page_count ≡ n1
      → pages_of c.heap_size ≡ n3
      → allocate_page h c fuel (c.args_base - n1 * page_size) n1 s ≡ some s1
      → allocate_page h c fuel e_entry n2 (with_segments h c e_entry n2 s1) ≡ some s2
      → allocate_page h c fuel ((s2.pcb.page_count + 1) * page_size) n3 (with_heap h c s2) ≡ some s3
      → allocate_page h c fuel c.args_base 1 (with_args h c s3) ≡ some s4
      → map_image h c fuel e_entry n2 s ≡ some s4
  unfolding map_image
  map_image-run fuel n1 n2 n3 e_entry s s1 s2 s3 s4 top stack heap a b d e =
      let a' = ap₂ (λ x y. allocate_page h c fuel (x - y * page_size) y s) top stack ∙ a in
      let d' =
        ap (λ x. allocate_page h c fuel ((s2.pcb.page_count + 1) * page_size) x (with_heap h c s2))
          heap
        ∙ d in
      rw (map_image, a', b, d', e) refl

  pub map_image-Steps :
      (users fuel n1 n2 n3 e_entry : ℕ) (s : Space)
      → 256 ≤ fuel
      → s.pcb.stack_top ≡ c.args_base
      → s.pcb.page_count ≡ n1
      → pages_of c.heap_size ≡ n3
      → Fits users n1 n2 n3 e_entry
      → Ready h laws c users (n1 + (n2 + (n3 + 1))) s
      → (s1 : Space) × (s2 : Space) × (s3 : Space) × (s4 : Space) × (map_image h c fuel e_entry n2 s
          ≡ some s4)
        × Steps n1 n2 n3 e_entry s s1 s2 s3 s4
  map_image-Steps users fuel n1 n2 n3 e_entry s many top stack heap fits r =
      let (s1, run1, a1, r1) =
        allocate_page-Allocated h laws c users fuel n1 (n2 + (n3 + 1))
          (c.args_base - n1 * page_size) s many (omega (arith, fits.args_even, fits.heap))
          (omega (arith, fits.args, fits.heap)) r in
      let count1 = Allocated-page_count n1 (c.args_base - n1 * page_size) s s1 a1 in
      let (s2, run2, a2, r2) =
        allocate_page-Allocated h laws c users fuel n2 (n3 + 1) e_entry
          (with_segments h c e_entry n2 s1) many fits.entry_even
          (omega (arith, fits.args, fits.heap, fits.segments))
          (Ready-with users (n2 + (n3 + 1)) s1 (with_segments h c e_entry n2 s1).pcb e_entry r1) in
      let count2 = Allocated-page_count n2 e_entry (with_segments h c e_entry n2 s1) s2 a2 in
      let at_heap : (s2.pcb.page_count + 1) * page_size ≡ heap_at n1 n2 = omega arith in
      let (s3, run3, a3, r3) =
        allocate_page-Allocated h laws c users fuel n3 1 ((s2.pcb.page_count + 1) * page_size)
          (with_heap h c s2) many (omega arith) (omega (arith, fits.args, fits.heap))
          (Ready-with users (n3 + 1) s2 (with_heap h c s2).pcb s2.entry r2) in
      let (s4, run4, a4, _) =
        allocate_page-Allocated h laws c users fuel 1 0 c.args_base (with_args h c s3) many
          fits.args_even (omega (arith, fits.args))
          (Ready-with users (1 + 0) s3 (with_args h c s3).pcb s3.entry r3) in
      (
        s1,
        s2,
        s3,
        s4,
        map_image-run fuel n1 n2 n3 e_entry s s1 s2 s3 s4 top stack heap run1 run2 run3 run4,
        record {
          stack = a1;
          segments = a2;
          heap =
              Allocated-at h laws c n3 ((s2.pcb.page_count + 1) * page_size) (heap_at n1 n2)
                (with_heap h c s2) s3 at_heap a3;
          args = a4;
          stack_pages = stack;
          heap_pages = heap;
        },
      )

  -- What a later step leaves at the end.
  pub Steps-Layout :
      (users n1 n2 n3 e_entry : ℕ) (s s1 s2 s3 s4 : Space)
      → Fits users n1 n2 n3 e_entry
      → Steps n1 n2 n3 e_entry s s1 s2 s3 s4
      → Layout n1 n2 n3 e_entry s s4
  Steps-Layout users n1 n2 n3 e_entry s s1 s2 s3 s4 fits r =
      let g1 = Allocated-Grown n1 (c.args_base - n1 * page_size) s s1 s.pcb s.entry refl r.stack in
      let g2 =
        Allocated-Grown n2 e_entry s1 s2 (with_segments h c e_entry n2 s1).pcb e_entry refl
          r.segments in
      let g3 =
        Allocated-Grown n3 (heap_at n1 n2) s2 s3 (with_heap h c s2).pcb s2.entry refl r.heap in
      let g4 = Allocated-Grown 1 c.args_base s3 s4 (with_args h c s3).pcb s3.entry refl r.args in
      let g12 = Grown-append n1 n2 s s1 s2 g1 g2 in
      let g123 = Grown-append (n1 + n2) n3 s s2 s3 g12 g3 in
      let count1 = Allocated-page_count n1 (c.args_base - n1 * page_size) s s1 r.stack in
      let count2 =
        Allocated-page_count n2 e_entry (with_segments h c e_entry n2 s1) s2 r.segments in
      let count3 = Allocated-page_count n3 (heap_at n1 n2) (with_heap h c s2) s3 r.heap in
      let count4 = Allocated-page_count 1 c.args_base (with_args h c s3) s4 r.args in
      let at_heap : (s2.pcb.page_count + 1) * page_size ≡ heap_at n1 n2 =
        omega (arith, r.stack_pages) in
      record {
        stack = λ k v p a b.
            r.args.outside v (inl (omega (arith, fits.heap)))
            ∙ r.heap.outside v (inr (omega (arith, fits.heap)))
            ∙ r.segments.outside v (inr (omega (arith, fits.heap, fits.segments)))
            ∙ r.stack.inside k v p a b
            ∙ ap
                (λ i.
                  some (
                    get_or s.free_pages i 0 + (v - (c.args_base - n1 * page_size + k * page_size))))
                (zero_plus k);
        segments = λ k v p a b.
            r.args.outside v (inl (omega (arith, fits.heap, fits.segments)))
            ∙ r.heap.outside v (inl (omega (arith, fits.segments)))
            ∙ r.segments.inside k v p a b
            ∙ page_at n1 k (v - (e_entry + k * page_size)) s s1 g1;
        heap = λ k v p a b.
            r.args.outside v (inl (omega (arith, fits.heap)))
            ∙ r.heap.inside k v p a b
            ∙ page_at (n1 + n2) k (v - (heap_at n1 n2 + k * page_size)) s s2 g12;
        args = λ k v p a b.
            r.args.inside k v p a b
            ∙ page_at (n1 + n2 + n3) k (v - (c.args_base + k * page_size)) s s3 g123;
        others = λ v a b d.
            r.args.outside v (past_args v d)
            ∙ r.heap.outside v b
            ∙ r.segments.outside v a
            ∙ r.stack.outside v (past_stack v d);
        grown = Grown-append (n1 + n2 + n3) 1 s s3 s4 g123 g4;
        page_count = omega (arith, r.stack_pages, r.heap_pages);
        heap_base = ap (λ p. p.heap_base) r.args.pcb ∙ ap (λ p. p.heap_base) r.heap.pcb ∙ at_heap;
        heap_pointer =
            ap (λ p. p.heap_pointer) r.args.pcb ∙ ap (λ p. p.heap_pointer) r.heap.pcb ∙ at_heap;
        entry = r.args.entry ∙ r.heap.entry ∙ r.segments.entry;
        parent =
            ap (λ p. p.parent) r.args.pcb
            ∙ ap (λ p. p.parent) r.heap.pcb
            ∙ ap (λ p. p.parent) r.segments.pcb
            ∙ ap (λ p. p.parent) r.stack.pcb;
        name =
            ap (λ p. p.name) r.args.pcb
            ∙ ap (λ p. p.name) r.heap.pcb
            ∙ ap (λ p. p.name) r.segments.pcb
            ∙ ap (λ p. p.name) r.stack.pcb;
      }
    where
      zero_plus : (k : ℕ) → k ≡ 0 + k
      zero_plus k = omega arith

      past_args :
          (v : ℕ)
          → (v < c.args_base - n1 * page_size) ⊎ (c.args_base + page_size ≤ v)
          → (v < c.args_base) ⊎ (c.args_base + 1 * page_size ≤ v)
      past_args v (inl p) = inl (omega arith)
      past_args v (inr p) = inr (omega arith)

      past_stack :
          (v : ℕ)
          → (v < c.args_base - n1 * page_size) ⊎ (c.args_base + page_size ≤ v)
          → (v < c.args_base - n1 * page_size) ⊎ (c.args_base - n1 * page_size + n1 * page_size ≤ v)
      past_stack v (inl p) = inl p
      past_stack v (inr p) = inr (omega (arith, fits.heap))
