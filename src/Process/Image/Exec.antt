-- ===== src/Process/Image/Exec.antt =====
-- `setup_proc_image_replace` of Process/Image.antt.
use sye.Base.{
  ℕ, ◌+◌, ◌-◌, ◌*◌, ◌%◌, ◌^◌, ◌≤◌, ◌<◌, ◌≡◌, refl, ap, ap₂, ◌∙◌, ◌⊎◌, inr, false, Option, none,
  some, List, [], ◌++◌, map, arith, length, get_or, take,
}
use sye.Mmu.{Macros, page_size, sect_size, reset_root_pgtable}
use sye.Mmu.Walk.{IsMmu, walk, walk_entry, IsTables}
use sye.Mmu.Reset.{reset_root_pgtable-Emptied, reset_root_pgtable-Reset}
use sye.Process.{release_proc_pages}
use sye.Process.Pages.{uses, Released, release_proc_pages-Released}
use sye.Process.Args.{Memory, preserve_args_and_env, preserved, post_setup_image}
use sye.Process.Args.Page.{env_of}
use sye.Process.Args.Place.{bytes_of}
use sye.Process.Args.RoundTrip.{Image, post_setup-remapped}
use sye.Process.Image.{
  Space, Arch, pages_of, reset_process_stack, drop_image, map_image, setup_proc_image_replace,
}
use sye.Process.Image.Allocate.{Ready}
use sye.Process.Image.Layout.{InRange, heap_at, Fits, Layout, map_image-Steps, Steps-Layout}

module _ (h : Macros) (laws : IsMmu h) (c : Arch) where
  -- The first level entries of the user space.
  abbrev pub users : ℕ
  users = h.l1pte_index c.kernel_vaddr

  -- How many pages the image takes.
  abbrev pub image_pages : (segment_pages : ℕ) → ℕ
  image_pages n2 = pages_of c.stack_size + (n2 + (pages_of c.heap_size + 1))

  -- What the exec of an image with `n` pages needs.
  pub record CanLoad (n : ℕ) (s : Space) : Type 0 where
    pub tables : IsTables h s.tables
    pub room : n ≤ length s.tables.pool
    pub enough : n ≤ length s.free_pages
    pub even : (k : ℕ) → k < n → get_or s.free_pages k 0 % page_size ≡ 0
    pub phys : (k : ℕ) → k < n → get_or s.free_pages k 0 + page_size ≤ 2 ^ 32
    pub low : c.kernel_vaddr < 2 ^ 32
    pub held : (q : ℕ) → uses q s.pcb.page_list ≤ s.frames.refcount q

  -- The space without its image: no address of the user space is mapped, those of the kernel are as
  -- before, and the process holds no page.
  pub record Dropped (s s' : Space) : Type 0 where
    pub user : (v : ℕ) → h.l1pte_index v < users → walk h s'.tables v ≡ none
    pub kernel : (v : ℕ) → users ≤ h.l1pte_index v → walk h s'.tables v ≡ walk h s.tables v
    pub released : Released s.pcb.page_list s.frames s'.frames
    pub no_pages : s'.pcb.page_list ≡ []
    pub page_count : s'.pcb.page_count ≡ pages_of c.stack_size
    pub stack_top : s'.pcb.stack_top ≡ c.args_base
    pub name : s'.pcb.name ≡ s.pcb.name
    pub parent : s'.pcb.parent ≡ s.pcb.parent
    pub free_pages : s'.free_pages ≡ s.free_pages

  drop_image-Dropped :
      (pgtable : ℕ) (s : Space)
      → IsTables h s.tables
      → ((q : ℕ) → uses q s.pcb.page_list ≤ s.frames.refcount q)
      → Dropped s (drop_image h c pgtable s)
  unfolding drop_image reset_process_stack release_proc_pages walk
  drop_image-Dropped pgtable s ok held =
      let t = reset_root_pgtable h c.kernel_vaddr pgtable false s.tables in
      let r = reset_root_pgtable-Reset h c.kernel_vaddr pgtable false s.tables ok in
      let e = reset_root_pgtable-Emptied h laws c.kernel_vaddr pgtable false s.tables ok in
      record {
        user = λ v p. ap (λ w. walk_entry h t.l2 w v) (r.cleared (h.l1pte_index v) p);
        kernel = λ v p.
            ap (λ w. walk_entry h t.l2 w v) (r.kept (h.l1pte_index v) p)
            ∙ ap (λ l2. walk_entry h l2 (s.tables.l1 (h.l1pte_index v)) v) e.l2;
        released = (release_proc_pages-Released s.pcb s.frames held).0;
        no_pages = refl;
        page_count = refl;
        stack_top = refl;
        name = refl;
        parent = refl;
        free_pages = refl;
      }

  drop_image-Ready :
      (pgtable n : ℕ) (s : Space) → CanLoad n s → Ready h laws c users n (drop_image h c pgtable s)
  unfolding drop_image reset_process_stack release_proc_pages
  drop_image-Ready pgtable n s can =
      let r = reset_root_pgtable-Reset h c.kernel_vaddr pgtable false s.tables can.tables in
      let e = reset_root_pgtable-Emptied h laws c.kernel_vaddr pgtable false s.tables can.tables in
      record {
        tables = e.tables;
        room = omega (arith, can.room, ap length e.pool);
        enough = can.enough;
        even = can.even;
        phys = can.phys;
        low = omega (arith, can.low);
        small = λ j p. ap h.l1pte_is_sect (r.cleared j p) ∙ laws.empty_kind;
      }

  -- The space and the memory after exec, for `n1` pages of stack, `n2` of segments and `n3` of heap.
  -- Each range has the next free pages; the rest of the user space is not mapped.
  pub record Loaded (n1 n2 n3 e_entry : ℕ) (argv env : List (List ℕ)) (s s' : Space) (m' : Memory)
      : Type 0 where
    pub stack : InRange h laws c 0 n1 (c.args_base - n1 * page_size) s s'
    pub segments : InRange h laws c n1 n2 e_entry s s'
    pub heap : InRange h laws c (n1 + n2) n3 (heap_at h laws c n1 n2) s s'
    pub args : InRange h laws c (n1 + n2 + n3) 1 c.args_base s s'
    pub unmapped :
        (v : ℕ)
        → h.l1pte_index v < users
        → (v < e_entry) ⊎ (e_entry + n2 * page_size ≤ v)
        → (v < heap_at h laws c n1 n2) ⊎ (heap_at h laws c n1 n2 + n3 * page_size ≤ v)
        → (v < c.args_base - n1 * page_size) ⊎ (c.args_base + page_size ≤ v)
        → walk h s'.tables v ≡ none
    pub kernel : (v : ℕ) → users ≤ h.l1pte_index v → walk h s'.tables v ≡ walk h s.tables v
    pub pages : s'.pcb.page_list ≡ map c.phys_to_page (take (n1 + n2 + n3 + 1) s.free_pages)
    pub counts :
        (q : ℕ)
        → s'.frames.refcount q + uses q s.pcb.page_list
          ≡ s.frames.refcount q + uses q (map c.phys_to_page (take (n1 + n2 + n3 + 1) s.free_pages))
    pub page_count : s'.pcb.page_count ≡ n1 + n2 + n3 + 1
    pub heap_base : s'.pcb.heap_base ≡ heap_at h laws c n1 n2
    pub heap_pointer : s'.pcb.heap_pointer ≡ heap_at h laws c n1 n2
    pub entry : s'.entry ≡ e_entry
    pub parent : s'.pcb.parent ≡ s.pcb.parent
    pub name : s'.pcb.name ≡ s.pcb.name
    pub arguments : Image c.args_base m' argv env

  Layout-Loaded :
      (n1 n2 n3 e_entry : ℕ) (argv env : List (List ℕ)) (s d s' : Space) (m' : Memory)
      → Fits h laws c users n1 n2 n3 e_entry
      → Dropped s d
      → Layout h laws c n1 n2 n3 e_entry d s'
      → Image c.args_base m' argv env
      → Loaded n1 n2 n3 e_entry argv env s s' m'
  Layout-Loaded n1 n2 n3 e_entry argv env s d s' m' fits r l image =
      let total = n1 + n2 + n3 + 1 in
      let f = c.phys_to_page in
      record {
        stack = rw (← r.free_pages) l.stack;
        segments = rw (← r.free_pages) l.segments;
        heap = rw (← r.free_pages) l.heap;
        args = rw (← r.free_pages) l.args;
        unmapped = λ v p a b e. l.others v a b e ∙ r.user v p;
        kernel = λ v p.
            let above : users * sect_size ≤ v = omega (arith, laws.l1_index v) in
            l.others v (inr (omega (arith, fits.segments, fits.heap, fits.args)))
              (inr (omega (arith, fits.heap, fits.args))) (inr (omega (arith, fits.args)))
            ∙ r.kernel v p;
        pages = l.grown.pages ∙ ap₂ (λ xs ys. xs ++ map f (take total ys)) r.no_pages r.free_pages;
        counts = λ q. omega (
          arith,
          l.grown.counts q,
          r.released.counts q,
          ap (λ ys. uses q (map f (take total ys))) r.free_pages,
        );
        page_count = l.page_count;
        heap_base = l.heap_base;
        heap_pointer = l.heap_pointer;
        entry = l.entry;
        parent = l.parent ∙ r.parent;
        name = l.name ∙ r.name;
        arguments = image;
      }

  setup-run :
      (fuel pgtable args e_entry n2 : ℕ) (argv : List (List ℕ)) (envp : Option (List (List ℕ)))
      (remap : Memory → Memory) (m m1 m2 : Memory) (s s' : Space)
      → map_image h c fuel e_entry n2 (drop_image h c pgtable s) ≡ some s'
      → preserve_args_and_env m args s.pcb.name (length argv) (some argv) envp ≡ preserved m1
      → post_setup_image page_size args c.args_base (remap m1) ≡ some m2
      → setup_proc_image_replace h c fuel pgtable args e_entry n2
          (length argv)
          (some argv)
          envp
          remap
          m
          s
        ≡ some (s', m2)
  unfolding setup_proc_image_replace
  setup-run fuel pgtable args e_entry n2 argv envp remap m m1 m2 s s' a b d =
      rw (setup_proc_image_replace, a, b, d) refl

  -- The arguments are at least one and fit with the environment in the temporary page at `args`,
  -- which the new mapping leaves in the kernel's memory; the ranges fit in the user space; there
  -- are blocks and free aligned pages for the image, and each frame count is at least the uses of
  -- the process. Then `setup_proc_image_replace` succeeds. The stack, the segments, the heap and
  -- the page of the arguments are mapped to the next free pages, and no other user address is; the
  -- kernel's addresses are as before. The process holds these pages, which are counted once more,
  -- and no longer those of the old image; its page at the arguments' base holds them, with the
  -- environment, at their final addresses.
  pub setup_proc_image_replace-Loaded :
      (fuel pgtable args e_entry n2 : ℕ) (argv : List (List ℕ)) (envp : Option (List (List ℕ)))
      (remap : Memory → Memory) (m : Memory) (s : Space)
      → 256 ≤ fuel
      → 0 < length argv
      → args
          + 4
          + 4 * length argv
          + 4 * (length (env_of envp) + 1)
          + bytes_of argv
          + bytes_of (env_of envp)
        ≤ args + page_size
      → args + page_size ≤ 2 ^ 32
      → c.args_base + page_size ≤ 2 ^ 32
      → ((m' : Memory) (b : ℕ) → args ≤ b → b < args + page_size → remap m' b ≡ m' b)
      → Fits h laws c users (pages_of c.stack_size) n2 (pages_of c.heap_size) e_entry
      → CanLoad (image_pages n2) s
      → (s' : Space) × (m' : Memory) × (setup_proc_image_replace h c fuel pgtable args e_entry n2
            (length argv)
            (some argv)
            envp
            remap
            m
            s
          ≡ some (s', m'))
        × Loaded
            (pages_of c.stack_size)
            n2
            (pages_of c.heap_size)
            e_entry
            argv
            (env_of envp)
            s
            s'
            m'
  setup_proc_image_replace-Loaded fuel pgtable args e_entry n2 argv envp remap m s many some_arg
        fits_page word word' same fits can =
      let n1 = pages_of c.stack_size in
      let n3 = pages_of c.heap_size in
      let d = drop_image h c pgtable s in
      let r = drop_image-Dropped pgtable s can.tables can.held in
      let (m1, m2, preserves, posts, image) =
        post_setup-remapped args c.args_base argv envp some_arg fits_page word word' remap m
          s.pcb.name same in
      let (s1, s2, s3, s', maps, steps) =
        map_image-Steps h laws c users fuel n1 n2 n3 e_entry d many r.stack_top r.page_count refl
          fits (drop_image-Ready pgtable (image_pages n2) s can) in
      let layout = Steps-Layout h laws c users n1 n2 n3 e_entry d s1 s2 s3 s' fits steps in
      (
        s',
        m2,
        setup-run fuel pgtable args e_entry n2 argv envp remap m m1 m2 s s' maps preserves posts,
        Layout-Loaded n1 n2 n3 e_entry argv (env_of envp) s d s' m2 fits r layout image,
      )
