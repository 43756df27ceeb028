-- ===== src/Process/Heap.antt =====
-- do_sbrk of process.c: the break stays in the heap.
use sye.Base.{
  ℕ, ◌+◌, ◌-◌, ◌^◌, ◌≤◌, ◌<◌, ◌≡◌, Bool, true, false, ◌||◌, Option, none, some, arith, leb, u32,
  dec_lt,
}
use sye.Process.{Pcb, Errno, enomem, do_sbrk}

-- A break within a heap of `heap_size` bytes.
pub record InHeap (heap_size : ℕ) (p : Pcb) : Type 0 where
  pub above : p.heap_base ≤ p.heap_pointer
  pub inside : p.heap_pointer < p.heap_base + heap_size

-- What an increment does: it is refused, moves the break up, or moves it down by the number whose
-- negative it is.
pub data Moved (heap_size increment : ℕ) (p : Pcb) : ℕ × Option Errno × Option Pcb → Type 0 where
  too_high :
      increment < 2 ^ 31
      → p.heap_base + heap_size ≤ p.heap_pointer + increment
      → Moved heap_size increment p (2 ^ 32 - 1, some enomem, some p)
  too_low :
      2 ^ 31 ≤ increment
      → p.heap_pointer < p.heap_base + (2 ^ 32 - increment)
      → Moved heap_size increment p (2 ^ 32 - 1, some enomem, some p)
  up :
      increment < 2 ^ 31
      → InHeap heap_size (record p { heap_pointer = p.heap_pointer + increment })
      → Moved heap_size increment p
          (p.heap_pointer, none, some (record p { heap_pointer = p.heap_pointer + increment }))
  down :
      (back : ℕ)
      → 2 ^ 31 ≤ increment
      → back + (2 ^ 32 - increment) ≡ p.heap_pointer
      → InHeap heap_size (record p { heap_pointer = back })
      → Moved heap_size increment p (p.heap_pointer, none, some (record p { heap_pointer = back }))

-- The test of `do_sbrk` on the size that is asked for.
abbrev is_out : ℕ → ℕ → Bool
is_out heap_size req_sz = leb heap_size req_sz || leb (2 ^ 31) req_sz

-- The size in use, and the words after an increment.
size_word :
    (base pointer : ℕ)
    → base ≤ pointer
    → pointer < 2 ^ 32
    → u32 (pointer + 2 ^ 32 - base) ≡ pointer - base
size_word base pointer p q = omega arith

small_word : (n : ℕ) → n < 2 ^ 32 → u32 n ≡ n
small_word n p = omega arith

past_word : (n : ℕ) → 2 ^ 32 ≤ n → n < 2 ^ 32 + 2 ^ 32 → u32 n ≡ n - 2 ^ 32
past_word n p q = omega arith

-- With a break in a heap of at most 2^31 bytes below 2^32, `do_sbrk` moves it by any 32-bit
-- increment, read as signed, that keeps it in the heap, and returns the break before; any other
-- increment changes nothing, sets ENOMEM and returns -1.
pub do_sbrk-Moved :
    (heap_size increment : ℕ) (p : Pcb)
    → heap_size ≤ 2 ^ 31
    → p.heap_base + heap_size ≤ 2 ^ 32
    → increment < 2 ^ 32
    → InHeap heap_size p
    → Moved heap_size increment p (do_sbrk heap_size increment (some p))
unfolding do_sbrk
do_sbrk-Moved heap_size increment p small fits word ok =
    let used = size_word p.heap_base p.heap_pointer ok.above (omega (arith, ok.inside)) in
    elim (dec_lt increment (2 ^ 31)) [
      | yes grows ↦
          let asked =
            small_word (p.heap_pointer - p.heap_base + increment)
              (omega (arith, ok.inside, ok.above)) in
          elim (dec_lt (p.heap_pointer + increment) (p.heap_base + heap_size)) [
            | yes room ↦
                let test : is_out heap_size (p.heap_pointer - p.heap_base + increment) ≡ false =
                  ground (arith, ok.above) in
                rw (used, asked, test, small_word (p.heap_pointer + increment) (omega arith))
                  (up grows (record { above = omega (arith, ok.above); inside = room }))
            | no full ↦
                let test : is_out heap_size (p.heap_pointer - p.heap_base + increment) ≡ true =
                  ground (arith, ok.above) in
                rw (used, asked, test) (too_high grows (omega arith))
          ]
      | no shrinks ↦ elim (dec_lt p.heap_pointer (p.heap_base + (2 ^ 32 - increment))) [
        | yes low ↦
            let asked =
              small_word (p.heap_pointer - p.heap_base + increment) (omega (arith, ok.above)) in
            let test : is_out heap_size (p.heap_pointer - p.heap_base + increment) ≡ true =
              ground (arith, ok.above) in
            rw (used, asked, test) (too_low (omega arith) low)
        | no room ↦
            let asked =
              past_word (p.heap_pointer - p.heap_base + increment) (omega (arith, ok.above))
                (omega (arith, ok.inside)) in
            let test : is_out heap_size (p.heap_pointer - p.heap_base + increment - 2 ^ 32)
                ≡ false =
              ground (arith, ok.above, ok.inside) in
            rw
              (
                used,
                asked,
                test,
                past_word (p.heap_pointer + increment) (omega arith) (omega (arith, ok.inside)),
              )
              (down (p.heap_pointer + increment - 2 ^ 32) (omega arith) (omega arith)
                (record { above = omega (arith, ok.above); inside = omega (arith, ok.inside) }))
      ]
    ]
