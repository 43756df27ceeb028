-- ===== src/Process/Pages.antt =====
-- add_page_to_proc and release_proc_pages of process.c: the reference counts of the pages.
use sye.Base.{
  ℕ, ◌+◌, ◌-◌, ◌≤◌, ◌<◌, ◌≡◌, refl, ap, ◌∙◌, inl, inr, Bool, true, false, ◌&&◌, List, [], ◌∷◌, ◌++◌,
  arith, ltb, ◌==◌, Bool-cases, count_if, one_if, ℕ_discrete,
}
use sye.Process.{Pcb, Frames, count_at, add_page_to_proc, release_loop, release_proc_pages}

-- How often the list names the page.
abbrev pub uses : ℕ → List ℕ → ℕ
uses page pages = count_if (λ q. q == page) pages

-- The pages named are given back when their count reaches 0: once if the process held all the
-- references, not at all otherwise.
abbrev pub freed_now : ℕ → List ℕ → Frames → ℕ
freed_now page pages f = one_if (ltb 0 (uses page pages) && f.refcount page == uses page pages)

abbrev lowered : ℕ → Frames → Frames
lowered page f = count_at f page (f.refcount page - 1)

-- The counts and the pages given back after the pages of the list are released.
pub record Released (pages : List ℕ) (f f' : Frames) : Type 0 where
  pub counts : (q : ℕ) → f'.refcount q + uses q pages ≡ f.refcount q
  pub given_back : (q : ℕ) → uses q f'.freed ≡ uses q f.freed + freed_now q pages f

lowered-count :
    (page : ℕ) (f : Frames)
    → 0 < f.refcount page
    → (q : ℕ) → (lowered page f).refcount q + one_if (page == q) ≡ f.refcount q
lowered-count page f held q = elim (ℕ_discrete q page) [
  | yes e ↦ rw e (ground arith)
  | no e ↦ ground arith
]

-- One round of the loop for a page whose uses `u` and count `n` after the round are known.
freed_step :
    (same : Bool) (u n : ℕ)
    → u ≤ n
    → one_if (same && n == 0) + one_if (ltb 0 u && n == u)
      ≡ one_if (ltb 0 (one_if same + u) && n + one_if same == one_if same + u)
freed_step true u n l = elim (ℕ_discrete n 0) [ yes e ↦ ground arith | no e ↦ ground arith ]
freed_step false u n l = ground arith

-- The page that the round gives back, if its count `b` says so.
round_gives :
    (page q : ℕ) (f : Frames) (b : Bool)
    → ((lowered page f).refcount page == 0) ≡ b
    → one_if (page == q && (lowered page f).refcount q == 0) ≡ one_if (page == q && b)
round_gives page q f b e = elim (ℕ_discrete q page) [
  | yes same ↦ rw (same, e) refl
  | no other ↦ let apart : (page == q) ≡ false = ground arith in rw apart refl
]

freed_now-cons :
    (page q : ℕ) (pages : List ℕ) (f : Frames)
    → 0 < f.refcount page
    → uses q pages ≤ (lowered page f).refcount q
    → one_if (page == q && (lowered page f).refcount q == 0) + freed_now q pages (lowered page f)
      ≡ freed_now q (page ∷ pages) f
unfolding count_if
freed_now-cons page q pages f held left =
    let u = uses q (page ∷ pages) in
    freed_step (page == q) (uses q pages) ((lowered page f).refcount q) left
    ∙ ap (λ n. one_if (ltb 0 u && n == u)) (lowered-count page f held q)

release_loop-Released :
    (pages : List ℕ) (f : Frames)
    → ((q : ℕ) → uses q pages ≤ f.refcount q)
    → Released pages f (release_loop pages f)
unfolding release_loop count_if
release_loop-Released [] f enough = record {
  counts = λ q. omega arith;
  given_back = λ q. omega arith;
}
release_loop-Released (page ∷ pages) f enough =
    let self : (page == page) ≡ true = ground arith in
    let held : 0 < f.refcount page = ground (arith, enough page) in
    let step = lowered-count page f held in
    let left : (q : ℕ) → uses q pages ≤ (lowered page f).refcount q =
      λ q. omega (arith, step q, enough q) in
    elim (Bool-cases ((lowered page f).refcount page == 0)) [
      | inl z ↦
          let f' : Frames = record (lowered page f) { freed = page ∷ f.freed } in
          let r = release_loop-Released pages f' left in
          rw (z, release_loop)
            (record {
              counts = λ q. omega (arith, step q, r.counts q);
              given_back = λ q. ground (
                arith,
                r.given_back q,
                freed_now-cons page q pages f held (left q),
                round_gives page q f true z,
              );
            })
      | inr z ↦
          let r = release_loop-Released pages (lowered page f) left in
          rw (z, release_loop)
            (record {
              counts = λ q. omega (arith, step q, r.counts q);
              given_back = λ q. ground (
                arith,
                r.given_back q,
                freed_now-cons page q pages f held (left q),
                round_gives page q f false z,
              );
            })
    ]

-- If the count of every page is at least the number of times the process holds it,
-- `release_proc_pages` lowers it by that number, leaves the process without pages, and gives back
-- exactly the pages whose count reaches 0, each once.
pub release_proc_pages-Released :
    (pcb : Pcb) (f : Frames)
    → ((q : ℕ) → uses q pcb.page_list ≤ f.refcount q)
    → Released pcb.page_list f (release_proc_pages (pcb, f)).1
      × ((release_proc_pages (pcb, f)).0.page_list ≡ [])
unfolding release_proc_pages
release_proc_pages-Released pcb f enough = (release_loop-Released pcb.page_list f enough, refl)

pub uses-append : (q : ℕ) (xs ys : List ℕ) → uses q (xs ++ ys) ≡ uses q xs + uses q ys
unfolding count_if
uses-append q [] ys = omega arith
uses-append q (x ∷ xs) ys = omega (arith, uses-append q xs ys)

-- `add_page_to_proc` raises the count of every page by as much as the number of times that the
-- process holds it.
add_page_counted :
    (page : ℕ) (pcb : Pcb) (f : Frames) (q : ℕ)
    → uses q (add_page_to_proc page (pcb, f)).0.page_list + f.refcount q
      ≡ uses q pcb.page_list + (add_page_to_proc page (pcb, f)).1.refcount q
unfolding add_page_to_proc count_if
add_page_counted page pcb f q = elim (ℕ_discrete q page) [
  | yes e ↦ rw e (ground (arith, uses-append page pcb.page_list (page ∷ [])))
  | no e ↦ ground (arith, uses-append q pcb.page_list (page ∷ []))
]

-- One page more, counted before or after the others.
pub count_more :
    (f : Frames) (page q : ℕ) (pages : List ℕ)
    → (count_at f page (f.refcount page + 1)).refcount q + uses q pages
      ≡ f.refcount q + uses q (page ∷ pages)
unfolding count_if
count_more f page q pages = elim (ℕ_discrete page q) [
  | yes e ↦ rw e (ground arith)
  | no e ↦ ground arith
]
