-- ===== src/Process/Duplicate/Bytes.antt =====
-- The memcpy of a page in duplicate_user_space.
use sye.Base.{ℕ, zero, suc, ◌+◌, ◌<◌, ◌≤◌, ◌≡◌, refl, sym, ◌∙◌, ◌≢◌, some, arith, ℕ_discrete}
use sye.Mmu.{Macros, Tables, write}
use sye.Mmu.Small.{write-here, write-other}
use sye.Mmu.Walk.{walk}
use sye.Process.Duplicate.{copy_bytes}

-- The memory after the bytes from `lo` to `hi` of the page at `sp` were copied to that at `dp`.
pub record BytesCopied (sp dp lo hi : ℕ) (m m' : ℕ → ℕ) : Type 0 where
  pub inside : (o : ℕ) → lo ≤ o → o < hi → m' (dp + o) ≡ m (sp + o)
  pub outside : (q : ℕ) → ((o : ℕ) → lo ≤ o → o < hi → q ≢ dp + o) → m' q ≡ m q

module _ (h : Macros) (size dst src dp sp : ℕ) (t : Tables)
    (from : (o : ℕ) → o < size → walk h t (src + o) ≡ some (sp + o))
    (to : (o : ℕ) → o < size → walk h t (dst + o) ≡ some (dp + o))
    (apart : (o o' : ℕ) → o < size → o' < size → sp + o ≢ dp + o') where
  pub copy_bytes-BytesCopied :
      (left k : ℕ) (m : ℕ → ℕ)
      → k + left ≤ size
      → (m' : ℕ → ℕ) × (copy_bytes h left k dst src t m ≡ some m')
        × BytesCopied sp dp k (k + left) m m'
  unfolding copy_bytes
  copy_bytes-BytesCopied zero k m fits =
      (m, refl, record { inside = λ o a b. absurd (omega arith); outside = λ q away. refl })
  copy_bytes-BytesCopied (suc left) k m fits =
      let p = from k (omega arith) in
      let q = to k (omega arith) in
      let (m', run, r) =
        copy_bytes-BytesCopied left (k + 1) (write m (dp + k) (m (sp + k))) (omega arith) in
      (
        m',
        rw (p, q) run,
        record {
          inside = λ o a b. elim (ℕ_discrete k o) [
            | yes here ↦ rw (← here) (
                r.outside (dp + k) (λ o' a' b' same. omega arith)
                ∙ write-here m (dp + k) (m (sp + k)))
            | no other ↦
                r.inside o (omega arith) (omega arith)
                ∙ write-other m (dp + k) (sp + o) (m (sp + k))
                    (λ same. apart o k (omega arith) (omega arith) (sym same))
          ];
          outside = λ x away.
              r.outside x (λ o a b. away o (omega arith) (omega arith))
              ∙ write-other m (dp + k) x (m (sp + k))
                  (λ same. away k (omega arith) (omega arith) (sym same));
        },
      )
