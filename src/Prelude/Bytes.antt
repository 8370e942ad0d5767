-- ===== src/Prelude/Bytes.antt =====
-- Go's `string` and `[]byte`: sequences of byte values, with what the program uses of the
-- packages `strings` and `bytes`.
use Prim.Native.Nat.{ℕ}
use Prim.Native.Char.{code}
use Prim.Native.String.{String}
use mathlib.Core.Path.{◌≡◌, refl}
use mathlib.Core.Logic.{◌↔◌, ◌⊎◌}
use mathlib.Core.Bool.{Bool, true, false, ◌&&◌, ◌||◌}
use mathlib.Core.List.{List, [], ◌∷◌, reverse}
use native.Mathlib.Omega.{arith}
use mcpurl.Prelude.Tests.{◌==◌, if◌then◌else◌}

abbrev pub Bytes : Type 0
Bytes = List ℕ

-- The bytes of an ASCII literal.
abbrev pub codes : String → Bytes
codes String.[] = []
codes (String.◌∷◌ c s) = code c ∷ codes s

-- `==` on strings, `bytes.Equal`.
unfoldable pub equal : Bytes → Bytes → Bool
equal [] [] = true
equal (x ∷ xs) (y ∷ ys) = x == y && equal xs ys
equal _ _ = false

pub equal_iff : (s t : Bytes) → (equal s t ≡ true) ↔ (s ≡ t)
unfolding equal
equal_iff [] [] = ground arith
equal_iff [] (d ∷ t) = ground arith
equal_iff (c ∷ s) [] = ground arith
equal_iff (c ∷ s) (d ∷ t) = ground (arith, equal_iff s t)

pub equal_self : (a : Bytes) → equal a a ≡ true
equal_self a = (equal_iff a a).1 refl

-- A split on a comparison of strings.
pub equal-cases :
    (a b : Bytes) → ((equal a b ≡ true) × (a ≡ b)) ⊎ ((equal a b ≡ false) × (¬ (a ≡ b)))
equal-cases a b = ground (arith, equal_iff a b)

-- `s == ""`, and `len(s) == 0` for a slice.
abbrev pub is_empty {ℓ} : {A : Type ℓ} → List A → Bool
is_empty [] = true
is_empty (_ ∷ _) = false

-- `slices.Contains`
unfoldable pub contains : List Bytes → Bytes → Bool
unfolding equal
contains [] s = false
contains (x ∷ xs) s = equal x s || contains xs s

-- `bytes.IndexByte(s, c) >= 0`
unfoldable pub has_byte : ℕ → Bytes → Bool
has_byte c [] = false
has_byte c (x ∷ s) = x == c || has_byte c s

-- A text without a newline.
abbrev pub OneLine : Bytes → Type 0
OneLine s = has_byte b'\n' s ≡ false

unfoldable pub has_prefix : Bytes → Bytes → Bool
has_prefix _ [] = true
has_prefix [] (_ ∷ _) = false
has_prefix (c ∷ cs) (p ∷ ps) = c == p && has_prefix cs ps

abbrev pub has_suffix : Bytes → Bytes → Bool
has_suffix s p = has_prefix (reverse s) (reverse p)

-- `bytes.TrimSuffix` by one byte.
unfoldable pub trim_last : ℕ → Bytes → Bytes
trim_last c [] = []
trim_last c (x ∷ []) = if x == c then [] else x ∷ []
trim_last c (x ∷ y ∷ s) = x ∷ trim_last c (y ∷ s)

-- `strings.TrimPrefix` by one byte.
unfoldable pub trim_first : ℕ → Bytes → Bytes
trim_first c [] = []
trim_first c (x ∷ s) = if x == c then s else x ∷ s

-- `strings.Contains`
unfoldable pub has_infix : Bytes → Bytes → Bool
unfolding has_prefix
has_infix s [] = true
has_infix [] (_ ∷ _) = false
has_infix (c ∷ s) (p ∷ ps) = has_prefix (c ∷ s) (p ∷ ps) || has_infix s (p ∷ ps)
