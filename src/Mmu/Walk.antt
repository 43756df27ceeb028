-- ===== src/Mmu/Walk.antt =====
-- What the page tables of Mmu.antt mean: the walk of the MMU, the documented behaviour of the macros
-- of asm/mmu.h, and when the second level tables are apart.
use sye.Base.{
  ℕ, ◌+◌, ◌-◌, ◌*◌, ◌/◌, ◌%◌, ◌≤◌, ◌<◌, ◌≡◌, refl, sym, ap, ◌∙◌, ◌≢◌, ◌⊎◌, inl, inr, Bool, true,
  false, Option, none, some, arith, ◌==◌, if◌then◌else◌, Bool-cases, length, get_or, dec_lt,
}
use sye.Mmu.{Macros, Tables, page_size, sect_size, virt_to_phys_pt}

-- The laws are on natural numbers; the code applies the macros to addresses below 2^32, and where a
-- sum of addresses wraps it is the sum in Mmu.antt that says so.
pub record IsMmu (h : Macros) : Type 0 where
  pub l1_index : (a : ℕ) → h.l1pte_index a ≡ a / sect_size
  pub l2_index : (a : ℕ) → h.l2pte_index a ≡ a / page_size % 256
  pub next_section :
      (a e : ℕ)
      → a / sect_size * sect_size + sect_size < e
      → h.l1sect_addr_end a e ≡ a / sect_size * sect_size + sect_size
  pub next_end : (a e : ℕ) → e ≤ a / sect_size * sect_size + sect_size → h.l1sect_addr_end a e ≡ e
  pub table_addr : (a : ℕ) (n : Bool) → a % 1024 ≡ 0 → h.table_of (h.table_entry a n) ≡ a
  pub table_used : (a : ℕ) (n : Bool) → a % 1024 ≡ 0 → (h.table_entry a n == 0) ≡ false
  pub table_kind : (a : ℕ) (n : Bool) → a % 1024 ≡ 0 → h.l1pte_is_sect (h.table_entry a n) ≡ false
  pub empty_kind : h.l1pte_is_sect 0 ≡ false
  pub sect_addr : (p : ℕ) (n : Bool) → p % sect_size ≡ 0 → h.sect_addr (h.sect_entry p n) ≡ p
  pub sect_used : (p : ℕ) (n : Bool) → p % sect_size ≡ 0 → (h.sect_entry p n == 0) ≡ false
  pub sect_kind : (p : ℕ) (n : Bool) → p % sect_size ≡ 0 → h.l1pte_is_sect (h.sect_entry p n) ≡ true
  pub small_addr : (p : ℕ) (n : Bool) → p % page_size ≡ 0 → h.small_addr (h.small_entry p n) ≡ p
  pub small_used : (p : ℕ) (n : Bool) → p % page_size ≡ 0 → (h.small_entry p n == 0) ≡ false

module _ (h : Macros) where
  -- The address for `v` under the first level entry `w`; `none` is a fault.
  abbrev pub walk_entry : (ℕ → ℕ → ℕ) → (w v : ℕ) → Option ℕ
  walk_entry l2 w v =
      let e = l2 (h.table_of w) (h.l2pte_index v) in
      if w == 0
      then none
      else if h.l1pte_is_sect w
      then some (h.sect_addr w + v % sect_size)
      else if e == 0
      then none
      else some (h.small_addr e + v % page_size)

  unfoldable pub walk : Tables → ℕ → Option ℕ
  walk t v = walk_entry t.l2 (t.l1 (h.l1pte_index v)) v

  -- First level entry `w` points to a table.
  abbrev pub IsTable : ℕ → Type 0
  IsTable w = ((w == 0) ≡ false) × (h.l1pte_is_sect w ≡ false)

  -- No two entries share a table, and the blocks that memalign will return are aligned, distinct
  -- and not in use.
  pub record IsTables (t : Tables) : Type 0 where
    pub apart :
        (i j : ℕ)
        → IsTable (t.l1 i)
        → IsTable (t.l1 j)
        → h.table_of (t.l1 i) ≡ h.table_of (t.l1 j)
        → i ≡ j
    pub fresh :
        (i k : ℕ) → IsTable (t.l1 i) → k < length t.pool → get_or t.pool k 0 ≢ h.table_of (t.l1 i)
    pub distinct : (k l : ℕ) → k < l → l < length t.pool → get_or t.pool k 0 ≢ get_or t.pool l 0
    pub aligned : (k : ℕ) → k < length t.pool → get_or t.pool k 0 % 1024 ≡ 0

  -- `t'` maps the addresses from `lo` to `hi` to those from `phys` on, and the others as `t` does.
  pub record Maps (t t' : Tables) (lo hi phys : ℕ) : Type 0 where
    pub inside : (v : ℕ) → lo ≤ v → v < hi → walk t' v ≡ some (phys + (v - lo))
    pub outside : (v : ℕ) → (v < lo) ⊎ (hi ≤ v) → walk t' v ≡ walk t v

  -- The walk reads one entry, and if that is for a table one entry there.
  pub walk_entry-agree :
      (l2 l2' : ℕ → ℕ → ℕ) (w v : ℕ)
      → (IsTable w → l2' (h.table_of w) (h.l2pte_index v) ≡ l2 (h.table_of w) (h.l2pte_index v))
      → walk_entry l2' w v ≡ walk_entry l2 w v
  walk_entry-agree l2 l2' w v same = elim (Bool-cases (w == 0)) [
    | inl t ↦ rw t refl
    | inr t ↦ elim (Bool-cases (h.l1pte_is_sect w)) [
      | inl s ↦ rw (t, s) refl
      | inr s ↦ rw (same (t, s)) refl
    ]
  ]

  -- Two ranges mapped one after the other.
  pub Maps-append :
      (t t1 t2 : Tables) (lo mid hi phys : ℕ)
      → lo ≤ mid
      → mid ≤ hi
      → Maps t t1 lo mid phys
      → Maps t1 t2 mid hi (phys + (mid - lo))
      → Maps t t2 lo hi phys
  Maps-append t t1 t2 lo mid hi phys a b r s = record {
    inside = λ v p q. elim (dec_lt v mid) [
      | yes early ↦ s.outside v (inl early) ∙ r.inside v p early
      | no late ↦
          let sum : phys + (mid - lo) + (v - mid) ≡ phys + (v - lo) = omega arith in
          s.inside v (omega arith) q ∙ ap some sum
    ];
    outside = λ v away. elim away [
      | inl p ↦ s.outside v (inl (omega arith)) ∙ r.outside v (inl p)
      | inr p ↦ s.outside v (inr p) ∙ r.outside v (inr (omega arith))
    ];
  }

  -- In no section, `virt_to_phys_pt` gives the address that the walk of the MMU gives, where that
  -- is no fault.
  pub virt_to_phys_pt-walk :
      (t : Tables) (v p : ℕ)
      → h.l1pte_is_sect (t.l1 (h.l1pte_index v)) ≡ false
      → walk t v ≡ some p
      → virt_to_phys_pt h v t ≡ some p
  unfolding walk virt_to_phys_pt
  virt_to_phys_pt-walk t v p small found = elim (Bool-cases (t.l1 (h.l1pte_index v) == 0)) [
    | inl empty ↦ let fault : walk t v ≡ none = rw empty refl in cc
    | inr used ↦
        elim (Bool-cases (t.l2 (h.table_of (t.l1 (h.l1pte_index v))) (h.l2pte_index v) == 0)) [
          | inl empty ↦ let fault : walk t v ≡ none = rw (used, small, empty) refl in cc
          | inr page ↦
              let here : walk t v
                  ≡ some (
                      h.small_addr (t.l2 (h.table_of (t.l1 (h.l1pte_index v))) (h.l2pte_index v))
                      + v % page_size) =
                rw (used, small, page) refl in
              rw (used, small) (sym here ∙ found)
        ]
  ]
