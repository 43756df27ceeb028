-- ===== src/Base/Strings.antt =====
-- Texts as lists of bytes: string literals, strcmp, and atoi of the C library.
use Prim.Native.Nat.{ℕ, ◌+◌, ◌-◌, ◌*◌}
use Prim.Native.Char.{code}
use Prim.Native.String.{String}
use mathlib.Core.Path.{◌≡◌, refl, ap₂}
use mathlib.Core.Bool.{Bool, true, false, ◌&&◌}
use mathlib.Core.List.{List, [], ◌∷◌}
use native.Mathlib.Omega.{arith}
use sye.Base.Tests.{leb, ◌==◌, if◌then◌else◌}
use sye.Base.Int.{ℤ, pos, neg}

abbrev pub Text : Type 0
Text = List ℕ

abbrev pub codes : String → Text
codes String.[] = []
codes (String.◌∷◌ c s) = code c ∷ codes s

-- `strcmp` gives 0.
unfoldable pub same_text : Text → Text → Bool
same_text [] [] = true
same_text [] (d ∷ t) = false
same_text (c ∷ s) [] = false
same_text (c ∷ s) (d ∷ t) = c == d && same_text s t

pub same_text_refl : (s : Text) → same_text s s ≡ true
unfolding same_text
same_text_refl [] = refl
same_text_refl (c ∷ s) = let rest = same_text_refl s in ground arith

pub same_text-eq : (s t : Text) → same_text s t ≡ true → s ≡ t
unfolding same_text
same_text-eq [] [] e = refl
same_text-eq [] (d ∷ t) e = cc
same_text-eq (c ∷ s) [] e = cc
same_text-eq (c ∷ s) (d ∷ t) e = ap₂ ◌∷◌ (ground arith) (same_text-eq s t (ground arith))

abbrev pub is_digit : ℕ → Bool
is_digit c = leb 48 c && leb c 57

-- atoi on what follows the sign: it stops at the first byte that is no digit.
unfoldable pub digits_value : (acc : ℕ) → Text → ℕ
digits_value acc [] = acc
digits_value acc (c ∷ s) =
    let rest = digits_value (acc * 10 + (c - 48)) s in if is_digit c then rest else acc

-- The bytes that isspace accepts: the space and those from tab to carriage return.
abbrev pub is_space : ℕ → Bool
is_space c = if c == 32 then true else leb 9 c && leb c 13

unfoldable pub atoi : Text → ℤ
atoi [] = pos 0
atoi (c ∷ s) =
    let skipped = atoi s in
    if is_space c
    then skipped
    else if c == 45
    then neg (pos (digits_value 0 s))
    else if c == 43
    then pos (digits_value 0 s)
    else pos (digits_value 0 (c ∷ s))
