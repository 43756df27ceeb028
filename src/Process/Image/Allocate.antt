-- ===== src/Process/Image/Allocate.antt =====
-- The pages that `allocate_page` of Process/Image.antt maps.
use sye.Base.{
  ℕ, zero, suc, ◌+◌, ◌-◌, ◌*◌, ◌/◌, ◌%◌, ◌^◌, ◌≤◌, ◌<◌, ◌≡◌, refl, sym, ap, ap₂, ◌∙◌, ◌⊎◌, inl, inr,
  false, some, List, [], ◌∷◌, ◌++◌, map, arith, length, get_or, take, drop, count_if, ℕ_discrete,
  first_element,
}
use sye.Mmu.{Macros, Tables, page_size, sect_size, create_mapping}
use sye.Mmu.Walk.{IsMmu, walk, IsTables}
use sye.Mmu.Page.{PageMapped, create_mapping-page}
use sye.Process.{add_page_to_proc}
use sye.Process.Pages.{uses, count_more}
use mathlib.Core.List.{append-nil, append_assoc}
use sye.Process.Image.{Space, Arch, allocate_loop, allocate_page}

module _ (h : Macros) (laws : IsMmu h) (c : Arch) where
  -- What `n` pages more need: apart tables, blocks for tables, free pages that are aligned, and no
  -- section below entry `users`, with addresses below 2^32.
  pub record Ready (users n : ℕ) (s : Space) : Type 0 where
    pub tables : IsTables h s.tables
    pub room : n ≤ length s.tables.pool
    pub enough : n ≤ length s.free_pages
    pub even : (k : ℕ) → k < n → get_or s.free_pages k 0 % page_size ≡ 0
    pub phys : (k : ℕ) → k < n → get_or s.free_pages k 0 + page_size ≤ 2 ^ 32
    pub low : users < 4096
    pub small : (j : ℕ) → j < users → h.l1pte_is_sect (s.tables.l1 j) ≡ false

  -- `s'` has `n` pages more than `s`, from `virt` on, in the order of the free pages.
  pub record Allocated (n virt : ℕ) (s s' : Space) : Type 0 where
    pub inside :
        (k v : ℕ)
        → k < n
        → virt + k * page_size ≤ v
        → v < virt + k * page_size + page_size
        → walk h s'.tables v ≡ some (get_or s.free_pages k 0 + (v - (virt + k * page_size)))
    pub outside :
        (v : ℕ) → (v < virt) ⊎ (virt + n * page_size ≤ v) → walk h s'.tables v ≡ walk h s.tables v
    pub rest : s'.free_pages ≡ drop n s.free_pages
    pub pages : s'.pcb.page_list ≡ s.pcb.page_list ++ map c.phys_to_page (take n s.free_pages)
    pub counts :
        (q : ℕ)
        → s'.frames.refcount q
          ≡ s.frames.refcount q + uses q (map c.phys_to_page (take n s.free_pages))
    pub pcb : s'.pcb ≡ record s.pcb { page_list = s'.pcb.page_list }
    pub freed : s'.frames.freed ≡ s.frames.freed
    pub entry : s'.entry ≡ s.entry

  -- The space after the first page.
  abbrev one_page : ℕ → List ℕ → Tables → Space → Space
  one_page page rest t s = record s {
    pcb = (add_page_to_proc (c.phys_to_page page) (s.pcb, s.frames)).0;
    tables = t;
    frames = (add_page_to_proc (c.phys_to_page page) (s.pcb, s.frames)).1;
    free_pages = rest;
  }

  allocate_loop-step :
      (fuel left i virt page : ℕ) (rest : List ℕ) (s : Space) (t : Tables)
      → s.free_pages ≡ page ∷ rest
      → create_mapping h fuel (virt + i * page_size) page page_size false s.tables ≡ some t
      → allocate_loop h c fuel (suc left) i virt s
        ≡ allocate_loop h c fuel left (i + 1) virt (one_page page rest t s)
  unfolding allocate_loop
  allocate_loop-step fuel left i virt page rest s t e run = rw (e, run, allocate_loop) refl

  module _ (page : ℕ) (rest : List ℕ) (s : Space) (t : Tables) (start : ℕ)
      (next : s.free_pages ≡ page ∷ rest) (first : PageMapped h laws s.tables t start page) where
    after : (k : ℕ) → get_or s.free_pages (suc k) 0 ≡ get_or rest k 0
    after k = ap (λ l. get_or l (suc k) 0) next

    count : length s.free_pages ≡ suc (length rest)
    count = ap length next

    Ready-next :
        (users n : ℕ)
        → start / sect_size < users
        → Ready users (suc n) s
        → Ready users n (one_page page rest t s)
    Ready-next users n below r = record {
      tables = first.kept.tables;
      room = omega (arith, r.room, first.kept.room);
      enough = omega (arith, r.enough, count);
      even = λ k p. ap (λ x. x % page_size) (sym (after k)) ∙ r.even (suc k) (omega arith);
      phys = λ k p. rw (← after k) (r.phys (suc k) (omega arith));
      low = r.low;
      small = λ j p. elim (ℕ_discrete (start / sect_size) j) [
        | yes here ↦ ap (λ i. h.l1pte_is_sect (t.l1 i)) (sym here) ∙ first.small
        | no other ↦ ap h.l1pte_is_sect (first.kept.entries j other) ∙ r.small j p
      ];
    }

    counts-cons :
        (q : ℕ) (pages : List ℕ)
        → (one_page page rest t s).frames.refcount q + uses q pages
          ≡ s.frames.refcount q + uses q (c.phys_to_page page ∷ pages)
    unfolding add_page_to_proc
    counts-cons q pages = count_more s.frames (c.phys_to_page page) q pages

    Allocated-cons :
        (n : ℕ) (s' : Space)
        → Allocated n (start + page_size) (one_page page rest t s) s'
        → Allocated (suc n) start s s'
    unfolding add_page_to_proc
    Allocated-cons n s' r = record {
      inside = inside';
      outside = λ v away. r.outside v (beyond v away) ∙ first.maps.outside v (beside v away);
      rest = r.rest ∙ sym (ap (drop (suc n)) next);
      pages =
          r.pages
          ∙ append_assoc s.pcb.page_list (c.phys_to_page page ∷ [])
              (map c.phys_to_page (take n rest))
          ∙ ap (λ l. s.pcb.page_list ++ map c.phys_to_page (take (suc n) l)) (sym next);
      counts = λ q.
          r.counts q
          ∙ counts-cons q (map c.phys_to_page (take n rest))
          ∙ ap (λ l. s.frames.refcount q + uses q (map c.phys_to_page (take (suc n) l))) (sym next);
      pcb = r.pcb;
      freed = r.freed;
      entry = r.entry;
    }
      where
        beyond :
            (v : ℕ)
            → (v < start) ⊎ (start + suc n * page_size ≤ v)
            → (v < start + page_size) ⊎ (start + page_size + n * page_size ≤ v)
        beyond v (inl p) = inl (omega arith)
        beyond v (inr p) = inr (omega arith)

        beside :
            (v : ℕ)
            → (v < start) ⊎ (start + suc n * page_size ≤ v)
            → (v < start) ⊎ (start + page_size ≤ v)
        beside v (inl p) = inl p
        beside v (inr p) = inr (omega arith)

        inside' :
            (k v : ℕ)
            → k < suc n
            → start + k * page_size ≤ v
            → v < start + k * page_size + page_size
            → walk h s'.tables v ≡ some (get_or s.free_pages k 0 + (v - (start + k * page_size)))
        inside' zero v p a b =
            let here : get_or s.free_pages 0 0 ≡ page = ap (λ l. get_or l 0 0) next in
            let e : v - (start + 0 * page_size) ≡ v - start = omega arith in
            r.outside v (inl (omega arith))
            ∙ first.maps.inside v (omega arith) (omega arith)
            ∙ ap₂ (λ x y. some (x + y)) (sym here) (sym e)
        inside' (suc k) v p a b =
            let e : v - (start + suc k * page_size) ≡ v - (start + page_size + k * page_size) =
              omega arith in
            r.inside k v (omega arith) (omega arith) (omega arith)
            ∙ ap₂ (λ x y. some (x + y)) (sym (after k)) (sym e)

  Ready-le : (users m n : ℕ) (s : Space) → m ≤ n → Ready users n s → Ready users m s
  Ready-le users m n s le r = record {
    tables = r.tables;
    room = omega (arith, r.room);
    enough = omega (arith, r.enough);
    even = λ k p. r.even k (omega arith);
    phys = λ k p. r.phys k (omega arith);
    low = r.low;
    small = r.small;
  }

  Allocated-none : (virt : ℕ) (s : Space) → Allocated 0 virt s s
  unfolding count_if
  Allocated-none virt s = record {
    inside = λ k v p a b. absurd (omega arith);
    outside = λ v away. refl;
    rest = refl;
    pages = sym (append-nil s.pcb.page_list);
    counts = λ q. omega arith;
    pcb = refl;
    freed = refl;
    entry = refl;
  }

  pub Allocated-at : (n a b : ℕ) (s s' : Space) → a ≡ b → Allocated n a s s' → Allocated n b s s'
  Allocated-at n a b s s' e r = rw (← e) r

  allocate_loop-Allocated :
      (users fuel n m i virt : ℕ) (s : Space)
      → 256 ≤ fuel
      → virt % page_size ≡ 0
      → virt + i * page_size + n * page_size ≤ users * sect_size
      → Ready users (n + m) s
      → (s' : Space) × (allocate_loop h c fuel n i virt s ≡ some s')
        × Allocated n (virt + i * page_size) s s'
        × Ready users m s'
  unfolding allocate_loop
  allocate_loop-Allocated users fuel zero m i virt s many even below r =
      (s, refl, Allocated-none (virt + i * page_size) s, Ready-le users m (0 + m) s (omega arith) r)
  allocate_loop-Allocated users fuel (suc n) m i virt s many even below r =
      let start = virt + i * page_size in
      let (page, rest, next) = first_element s.free_pages (omega (arith, r.enough)) in
      let here : get_or s.free_pages 0 0 ≡ page = ap (λ l. get_or l 0 0) next in
      let inside : start / sect_size < users = omega arith in
      let (t, run, first) =
        create_mapping-page h laws fuel start page false s.tables many r.tables
          (omega (arith, r.room)) (omega arith)
          (ap (λ x. x % page_size) (sym here) ∙ r.even 0 (omega arith)) (omega (arith, r.low))
          (omega (arith, r.phys 0 (omega arith), here)) (r.small (start / sect_size) inside) in
      let s1 = one_page page rest t s in
      let r1 =
        Ready-next page rest s t start next first users (n + m) inside
          (Ready-le users (suc (n + m)) (suc n + m) s (omega arith) r) in
      let (s', runs, more, r') =
        allocate_loop-Allocated users fuel n m (i + 1) virt s1 many even (omega arith) r1 in
      let later : virt + (i + 1) * page_size ≡ start + page_size = omega arith in
      (
        s',
        allocate_loop-step fuel n i virt page rest s t next run ∙ runs,
        Allocated-cons page rest s t start next first n s' (Allocated-at n _ _ s1 s' later more),
        r',
      )

  -- `Ready` for `n + m` pages, `allocate_page` maps `n` at a multiple of 4096 in the user space,
  -- each to the next free page, and leaves every other address: it adds these pages to the process
  -- and to their counts, changes nothing else, and leaves the space `Ready` for `m`.
  pub allocate_page-Allocated :
      (users fuel n m virt : ℕ) (s : Space)
      → 256 ≤ fuel
      → virt % page_size ≡ 0
      → virt + n * page_size ≤ users * sect_size
      → Ready users (n + m) s
      → (s' : Space) × (allocate_page h c fuel virt n s ≡ some s')
        × Allocated n virt s s'
        × Ready users m s'
  unfolding allocate_page
  allocate_page-Allocated users fuel n m virt s many even below r =
      let start : virt + 0 * page_size ≡ virt = omega arith in
      let (s', run, all, r') =
        allocate_loop-Allocated users fuel n m 0 virt s many even (omega arith) r in
      (s', run, Allocated-at n (virt + 0 * page_size) virt s s' start all, r')
