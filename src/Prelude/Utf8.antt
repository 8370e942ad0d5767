-- ===== src/Prelude/Utf8.antt =====
-- unicode/utf8: the runes of a text, and `strings.ToValidUTF8` with an empty replacement.
pub mod Cut
use Prim.Native.Nat.{ℕ, zero, suc, ◌+◌, ◌≤◌, ◌<◌}
use mathlib.Core.Path.{◌≡◌, refl, sym, ap, ◌∙◌}
use mathlib.Core.Logic.{inl, inr}
use mathlib.Core.Bool.{Bool, true, false, not, ◌&&◌, ◌||◌}
use mathlib.Core.List.{List, [], ◌∷◌, ◌++◌}
use native.Mathlib.Omega.{arith}
use mcpurl.Prelude.Tests.{leb, ltb, ◌==◌, if◌then◌else◌, Bool-cases}
use mcpurl.Prelude.Bytes.{Bytes, has_byte}
use mcpurl.Prelude.Lists.{take}

-- A byte that continues a rune.
is_continuation : ℕ → Bool
is_continuation c = leb 0x80 c && leb c 0xbf

-- The first two bytes of a rune that takes more than one; shortened forms, surrogates and numbers
-- above U+10FFFF are out.
starts_two : ℕ → ℕ → Bool
unfolding is_continuation
starts_two a b = leb 0xc2 a && leb a 0xdf && is_continuation b

starts_three : ℕ → ℕ → Bool
unfolding is_continuation
starts_three a b =
    leb 0xe0 a
    && leb a 0xef
    && is_continuation b
    && not (a == 0xe0 && ltb b 0xa0)
    && not (a == 0xed && ltb 0x9f b)

starts_four : ℕ → ℕ → Bool
unfolding is_continuation
starts_four a b =
    leb 0xf0 a
    && leb a 0xf4
    && is_continuation b
    && not (a == 0xf0 && ltb b 0x90)
    && not (a == 0xf4 && ltb 0x8f b)

-- The first of four tests that holds, 0 where none does.
first_of : Bool → Bool → Bool → Bool → ℕ
first_of p q r t = if p then 1 else if q then 2 else if r then 3 else if t then 4 else 0

-- How many bytes the rune with these first bytes takes, 0 where there is none.
width : ℕ → ℕ → ℕ → ℕ → ℕ
unfolding first_of starts_two starts_three starts_four is_continuation
width a b c d =
    first_of (leb a 0x7f) (starts_two a b) (starts_three a b && is_continuation c)
      (starts_four a b && is_continuation c && is_continuation d)

-- The byte at a place, 0 behind the end.
byte_at : ℕ → Bytes → ℕ
byte_at n [] = 0
byte_at zero (c ∷ s) = c
byte_at (suc n) (c ∷ s) = byte_at n s

unfoldable pub rune_width : Bytes → ℕ
unfolding width byte_at
rune_width [] = 0
rune_width (a ∷ s) = width a (byte_at 0 s) (byte_at 1 s) (byte_at 2 s)

-- A byte that starts no rune goes; `rest` goes on after so many bytes of a rune.
abbrev pub keep_rune : (ℕ → Bytes) → ℕ → ℕ → Bytes
keep_rune rest c zero = rest zero
keep_rune rest c (suc k) = c ∷ rest k

-- The first number counts the bytes of a rune that are still to come.
unfoldable pub to_valid_from : ℕ → Bytes → Bytes
to_valid_from k [] = []
to_valid_from (suc k) (c ∷ s) = c ∷ to_valid_from k s
to_valid_from zero (c ∷ s) = keep_rune (λ k. to_valid_from k s) c (rune_width (c ∷ s))

-- `strings.ToValidUTF8(s, "")`
unfoldable pub to_valid_utf8 : Bytes → Bytes
unfolding to_valid_from
to_valid_utf8 s = to_valid_from 0 s

go_on : (ℕ → Bool) → ℕ → Bool
go_on rest zero = false
go_on rest (suc k) = rest k

unfoldable pub is_utf8_from : ℕ → Bytes → Bool
unfolding go_on
is_utf8_from zero [] = true
is_utf8_from (suc k) [] = false
is_utf8_from (suc k) (c ∷ s) = is_utf8_from k s
is_utf8_from zero (c ∷ s) = go_on (λ k. is_utf8_from k s) (rune_width (c ∷ s))

-- `utf8.ValidString`
unfoldable pub is_utf8 : Bytes → Bool
unfolding is_utf8_from
is_utf8 s = is_utf8_from 0 s

-- A text in UTF-8 stays as it is.
kept-rune :
    (n c : ℕ) (s : Bytes)
    → ((k : ℕ) → is_utf8_from k s ≡ true → to_valid_from k s ≡ s)
    → go_on (λ k. is_utf8_from k s) n ≡ true
    → keep_rune (λ k. to_valid_from k s) c n ≡ c ∷ s
unfolding go_on
kept-rune zero c s f h = absurd (ground (arith, h))
kept-rune (suc k) c s f h = ap (◌∷◌ c) (f k h)

to_valid_from-same : (k : ℕ) (s : Bytes) → is_utf8_from k s ≡ true → to_valid_from k s ≡ s
unfolding to_valid_from is_utf8_from
to_valid_from-same zero [] h = refl
to_valid_from-same (suc k) [] h = refl
to_valid_from-same (suc k) (c ∷ s) h = ap (◌∷◌ c) (to_valid_from-same k s h)
to_valid_from-same zero (c ∷ s) h =
    kept-rune (rune_width (c ∷ s)) c s (λ k. to_valid_from-same k s) h

pub to_valid_utf8-same : (s : Bytes) → is_utf8 s ≡ true → to_valid_utf8 s ≡ s
unfolding to_valid_utf8 is_utf8
to_valid_utf8-same s h = to_valid_from-same 0 s h
