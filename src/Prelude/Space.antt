-- ===== src/Prelude/Space.antt =====
-- `unicode.IsSpace` over UTF-8, with `strings.TrimSpace` and `strings.Fields`.
use Prim.Native.Nat.{ℕ, zero, suc}
use mathlib.Core.Bool.{Bool, ◌&&◌, ◌||◌}
use mathlib.Core.List.{List, [], ◌∷◌, ◌++◌, reverse}
use mcpurl.Prelude.Tests.{leb, ◌==◌, if◌then◌else◌}
use mcpurl.Prelude.Bytes.{Bytes}

-- Tab, newline, vertical tab, form feed, carriage return, blank.
unfoldable pub is_space : ℕ → Bool
is_space c = leb 9 c && leb c 13 || c == b' '

-- U+0085 and U+00A0.
is_space_pair : ℕ → ℕ → Bool
is_space_pair a b = a == 0xc2 && (b == 0x85 || b == 0xa0)

-- U+1680, U+2000 to U+200A, U+2028, U+2029, U+202F, U+205F, U+3000.
is_space_triple : ℕ → ℕ → ℕ → Bool
is_space_triple a b c =
    a == 0xe1 && b == 0x9a && c == 0x80
    || a == 0xe2 && b == 0x80 && (leb 0x80 c && leb c 0x8a || c == 0xa8 || c == 0xa9 || c == 0xaf)
    || a == 0xe2 && b == 0x81 && c == 0x9f
    || a == 0xe3 && b == 0x80 && c == 0x80

-- How many bytes the space at the front takes, 0 where there is none.
unfoldable pub space_width : Bytes → ℕ
unfolding is_space is_space_pair is_space_triple
space_width [] = 0
space_width (a ∷ []) = if is_space a then 1 else 0
space_width (a ∷ b ∷ []) = if is_space a then 1 else if is_space_pair a b then 2 else 0
space_width (a ∷ b ∷ c ∷ _) =
    if is_space a
    then 1
    else if is_space_pair a b
    then 2
    else if is_space_triple a b c
    then 3
    else 0

-- The same for a space at the end of a text that is given backwards.
unfoldable pub space_width_back : Bytes → ℕ
unfolding is_space is_space_pair is_space_triple
space_width_back [] = 0
space_width_back (a ∷ []) = if is_space a then 1 else 0
space_width_back (a ∷ b ∷ []) = if is_space a then 1 else if is_space_pair b a then 2 else 0
space_width_back (a ∷ b ∷ c ∷ _) =
    if is_space a
    then 1
    else if is_space_pair b a
    then 2
    else if is_space_triple c b a
    then 3
    else 0

-- The first number counts the bytes of a space that are still to be dropped.
drop_spaces : (Bytes → ℕ) → ℕ → Bytes → Bytes
drop_spaces width k [] = []
drop_spaces width (suc k) (c ∷ s) = drop_spaces width k s
drop_spaces width zero (c ∷ s) = elim (width (c ∷ s)) [
  | zero ↦ c ∷ s
  | suc k ↦ drop_spaces width k s
]

unfoldable pub trim_space : Bytes → Bytes
unfolding drop_spaces space_width space_width_back
trim_space s = reverse (drop_spaces space_width_back 0 (reverse (drop_spaces space_width 0 s)))

abbrev pub field_of : Bytes → List Bytes
field_of [] = []
field_of (c ∷ s) = (c ∷ s) ∷ []

unfoldable pub fields_from : ℕ → Bytes → Bytes → List Bytes
unfolding space_width
fields_from k word [] = field_of word
fields_from (suc k) word (c ∷ s) = fields_from k word s
fields_from zero word (c ∷ s) = elim (space_width (c ∷ s)) [
  | zero ↦ fields_from zero (word ++ (c ∷ [])) s
  | suc k ↦ field_of word ++ fields_from k [] s
]

unfoldable pub fields : Bytes → List Bytes
unfolding fields_from
fields = fields_from 0 []

-- `strings.Join`
unfoldable pub join : Bytes → List Bytes → Bytes
join sep [] = []
join sep (s ∷ []) = s
join sep (s ∷ t ∷ l) = s ++ (sep ++ join sep (t ∷ l))
