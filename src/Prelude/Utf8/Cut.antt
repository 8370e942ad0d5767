-- ===== src/Prelude/Utf8/Cut.antt =====
-- A text in UTF-8 that is cut at some byte: what is left of the last rune goes.
use Prim.Native.Nat.{ℕ, zero, suc, ◌≤◌, ◌<◌}
use mathlib.Core.Path.{◌≡◌, refl, ap, ◌∙◌}
use mathlib.Core.Bool.{Bool, true, false, ◌&&◌}
use mathlib.Core.List.{[], ◌∷◌, ◌++◌}
use native.Mathlib.Omega.{arith}
use mcpurl.Prelude.Tests.{leb}
use mcpurl.Prelude.Bytes.{Bytes}
use mcpurl.Prelude.Lists.{take}
use mcpurl.Prelude.Utf8.{
  is_continuation, starts_two, starts_three, starts_four, first_of, width, byte_at, rune_width,
  to_valid_from, to_valid_utf8, go_on, is_utf8_from, is_utf8,
}

-- U+2026
abbrev pub ellipsis : Bytes
ellipsis = 0xe2 ∷ 0x80 ∷ 0xa6 ∷ []

one_is : (p q r t : Bool) → first_of p q r t ≡ 1 → p ≡ true
unfolding first_of
one_is p q r t h = ground arith

two_is : (p q r t : Bool) → first_of p q r t ≡ 2 → (p ≡ false) × (q ≡ true)
unfolding first_of
two_is p q r t h = ground arith

three_is : (p q r t : Bool) → first_of p q r t ≡ 3 → (p ≡ false) × (q ≡ false) × (r ≡ true)
unfolding first_of
three_is p q r t h = ground arith

above_one : (p q r t : Bool) → 1 < first_of p q r t → p ≡ false
unfolding first_of
above_one p q r t h = ground arith

above_two : (p q r t : Bool) → 2 < first_of p q r t → (p ≡ false) × (q ≡ false)
unfolding first_of
above_two p q r t h = ground arith

above_three :
    (p q r t : Bool) → 3 < first_of p q r t → (p ≡ false) × (q ≡ false) × (r ≡ false) × (t ≡ true)
unfolding first_of
above_three p q r t h = ground arith

first_of_le : (p q r t : Bool) → first_of p q r t ≤ 4
unfolding first_of
first_of_le p q r t = ground arith

-- A rune's width does not depend on what follows it.
width_one : (a b c d x y z : ℕ) → width a b c d ≡ 1 → width a x y z ≡ 1
unfolding width first_of
width_one a b c d x y z h = rw (one_is (leb a 0x7f) _ _ _ h) refl

width_two : (a b c d y z : ℕ) → width a b c d ≡ 2 → width a b y z ≡ 2
unfolding width first_of
width_two a b c d y z h = let e = two_is (leb a 0x7f) (starts_two a b) _ _ h in rw (e.0, e.1) refl

width_three : (a b c d z : ℕ) → width a b c d ≡ 3 → width a b c z ≡ 3
unfolding width first_of
width_three a b c d z h =
    let e = three_is (leb a 0x7f) (starts_two a b) (starts_three a b && is_continuation c) _ h in
    rw (e.0, e.1, e.2) refl

width_le : (a b c d : ℕ) → width a b c d ≤ 4
unfolding width
width_le a b c d = first_of_le (leb a 0x7f) _ _ _

-- The beginning of a longer rune before the ellipsis is none.
cut_after_one : (a b c d : ℕ) → 1 < width a b c d → width a 0xe2 0x80 0xa6 ≡ 0
unfolding width starts_two starts_three starts_four is_continuation
cut_after_one a b c d h = ground arith

cut_after_two :
    (a b c d : ℕ) → 2 < width a b c d → (width a b 0xe2 0x80 ≡ 0) × (width b 0xe2 0x80 0xa6 ≡ 0)
unfolding width starts_two starts_three starts_four is_continuation
cut_after_two a b c d h = (ground arith, ground arith)

continued_four :
    (a b : ℕ) (x y : Bool)
    → (starts_four a b && x && y) ≡ true
    → (is_continuation b ≡ true) × (x ≡ true)
unfolding starts_four
continued_four a b x y h = (ground arith, ground arith)

continuation_none : (b x y z : ℕ) → is_continuation b ≡ true → width b x y z ≡ 0
unfolding width first_of starts_two starts_three starts_four is_continuation
continuation_none b x y z h = ground arith

four_cut : (a b : ℕ) (x : Bool) → (starts_four a b && x && is_continuation 0xe2) ≡ false
unfolding is_continuation
four_cut a b x = ground arith

cut_after_three :
    (a b c d : ℕ)
    → 3 < width a b c d
    → (width a b c 0xe2 ≡ 0) × (width b c 0xe2 0x80 ≡ 0) × (width c 0xe2 0x80 0xa6 ≡ 0)
unfolding width first_of
cut_after_three a b c d h =
    let e =
      above_three (leb a 0x7f) (starts_two a b) (starts_three a b && is_continuation c)
        (starts_four a b && is_continuation c && is_continuation d) h in
    let k = continued_four a b (is_continuation c) (is_continuation d) (e.3) in
    (
      rw (e.0, e.1, e.2, four_cut a b (is_continuation c)) refl,
      continuation_none b c 0xe2 0x80 (k.0),
      continuation_none c 0xe2 0x80 0xa6 (k.1),
    )

ellipsis-kept : to_valid_from 0 ellipsis ≡ ellipsis
unfolding to_valid_from rune_width width starts_two starts_three is_continuation byte_at
ellipsis-kept = refl

-- A byte that starts no rune goes.
skipped : (a : ℕ) (s : Bytes) → rune_width (a ∷ s) ≡ 0 → to_valid_from 0 (a ∷ s) ≡ to_valid_from 0 s
unfolding to_valid_from
skipped a s h = rw h refl

taken :
    (a k : ℕ) (s : Bytes)
    → rune_width (a ∷ s) ≡ suc k
    → to_valid_from 0 (a ∷ s) ≡ a ∷ to_valid_from k s
unfolding to_valid_from
taken a k s h = rw h refl

-- What is left of a text that is cut, before an ellipsis.
abbrev pub Prefixed : Bytes → Bytes → Type 0
Prefixed s t = (m : ℕ) × (t ≡ take m s ++ ellipsis)

further : (c : ℕ) (s t : Bytes) → Prefixed s t → Prefixed (c ∷ s) (c ∷ t)
further c s t (m, e) = (suc m, ap (◌∷◌ c) e)

moved : (s t u : Bytes) → u ≡ t → Prefixed s t → Prefixed s u
moved s t u e (m, f) = (m, e ∙ f)

dropped_one :
    (a : ℕ) (s : Bytes) → 1 < rune_width (a ∷ s) → to_valid_from 0 (a ∷ ellipsis) ≡ ellipsis
unfolding rune_width byte_at
dropped_one a s h =
    skipped a ellipsis (cut_after_one a (byte_at 0 s) (byte_at 1 s) (byte_at 2 s) h) ∙ ellipsis-kept

dropped_two :
    (a b : ℕ) (s : Bytes)
    → 2 < rune_width (a ∷ b ∷ s)
    → to_valid_from 0 (a ∷ b ∷ ellipsis) ≡ ellipsis
unfolding rune_width byte_at
dropped_two a b s h =
    let e = cut_after_two a b (byte_at 0 s) (byte_at 1 s) h in
    skipped a (b ∷ ellipsis) (e.0) ∙ skipped b ellipsis (e.1) ∙ ellipsis-kept

dropped_three :
    (a b c : ℕ) (s : Bytes)
    → 3 < rune_width (a ∷ b ∷ c ∷ s)
    → to_valid_from 0 (a ∷ b ∷ c ∷ ellipsis) ≡ ellipsis
unfolding rune_width byte_at
dropped_three a b c s h =
    let e = cut_after_three a b c (byte_at 0 s) h in
    skipped a (b ∷ c ∷ ellipsis) (e.0)
    ∙ skipped b (c ∷ ellipsis) (e.1)
    ∙ skipped c ellipsis (e.2)
    ∙ ellipsis-kept

abbrev Cuts : Bytes → Type 0
Cuts s =
    (k n : ℕ)
    → is_utf8_from k s ≡ true
    → k ≤ n
    → Prefixed s (to_valid_from k (take n s ++ ellipsis))

whole_rune :
    (k n c : ℕ) (s : Bytes)
    → Cuts s
    → k ≤ n
    → is_utf8_from k s ≡ true
    → rune_width (c ∷ (take n s ++ ellipsis)) ≡ suc k
    → Prefixed (c ∷ s) (to_valid_from 0 (c ∷ (take n s ++ ellipsis)))
whole_rune k n c s ih le h e =
    let u = take n s ++ ellipsis in
    moved (c ∷ s) (c ∷ to_valid_from k u) (to_valid_from 0 (c ∷ u)) (taken c k u e)
      (further c s (to_valid_from k u) (ih k n h le))

-- The rune at the front of a text in UTF-8 that is cut behind `suc n` bytes.
rune_cut :
    (w n c : ℕ) (s : Bytes)
    → rune_width (c ∷ s) ≡ w
    → go_on (λ k. is_utf8_from k s) w ≡ true
    → Cuts s
    → Prefixed (c ∷ s) (to_valid_from 0 (c ∷ (take n s ++ ellipsis)))
unfolding go_on is_utf8_from rune_width byte_at
rune_cut zero n c s e h ih = absurd (ground (arith, h))
rune_cut (suc zero) n c s e h ih = whole_rune 0 n c s ih (omega arith) h (
    let t = take n s ++ ellipsis in
    width_one c (byte_at 0 s) (byte_at 1 s) (byte_at 2 s) (byte_at 0 t) (byte_at 1 t) (byte_at 2 t)
      e)
rune_cut (suc (suc zero)) n c [] e h ih = absurd (ground (arith, h))
rune_cut (suc (suc zero)) zero c (b ∷ s) e h ih = (0, dropped_one c (b ∷ s) (omega (arith, e)))
rune_cut (suc (suc zero)) (suc n) c (b ∷ s) e h ih =
    whole_rune 1 (suc n) c (b ∷ s) ih (omega arith) h (
      let t = take n s ++ ellipsis in
      width_two c b (byte_at 0 s) (byte_at 1 s) (byte_at 0 t) (byte_at 1 t) e)
rune_cut (suc (suc (suc zero))) n c [] e h ih = absurd (ground (arith, h))
rune_cut (suc (suc (suc zero))) n c (b ∷ []) e h ih = absurd (ground (arith, h))
rune_cut (suc (suc (suc zero))) zero c (b ∷ d ∷ s) e h ih =
    (0, dropped_one c (b ∷ d ∷ s) (omega (arith, e)))
rune_cut (suc (suc (suc zero))) (suc zero) c (b ∷ d ∷ s) e h ih =
    (0, dropped_two c b (d ∷ s) (omega (arith, e)))
rune_cut (suc (suc (suc zero))) (suc (suc n)) c (b ∷ d ∷ s) e h ih =
    whole_rune 2 (suc (suc n)) c (b ∷ d ∷ s) ih (omega arith) h
      (width_three c b d (byte_at 0 s) (byte_at 0 (take n s ++ ellipsis)) e)
rune_cut (suc (suc (suc (suc zero)))) n c [] e h ih = absurd (ground (arith, h))
rune_cut (suc (suc (suc (suc zero)))) n c (b ∷ []) e h ih = absurd (ground (arith, h))
rune_cut (suc (suc (suc (suc zero)))) n c (b ∷ d ∷ []) e h ih = absurd (ground (arith, h))
rune_cut (suc (suc (suc (suc zero)))) zero c (b ∷ d ∷ f ∷ s) e h ih =
    (0, dropped_one c (b ∷ d ∷ f ∷ s) (omega (arith, e)))
rune_cut (suc (suc (suc (suc zero)))) (suc zero) c (b ∷ d ∷ f ∷ s) e h ih =
    (0, dropped_two c b (d ∷ f ∷ s) (omega (arith, e)))
rune_cut (suc (suc (suc (suc zero)))) (suc (suc zero)) c (b ∷ d ∷ f ∷ s) e h ih =
    (0, dropped_three c b d (f ∷ s) (omega (arith, e)))
rune_cut (suc (suc (suc (suc zero)))) (suc (suc (suc n))) c (b ∷ d ∷ f ∷ s) e h ih =
    whole_rune 3 (suc (suc (suc n))) c (b ∷ d ∷ f ∷ s) ih (omega arith) h e
rune_cut (suc (suc (suc (suc (suc w))))) n c s e h ih =
    absurd (omega (arith, e, width_le c (byte_at 0 s) (byte_at 1 s) (byte_at 2 s)))

cuts : (s : Bytes) → Cuts s
unfolding to_valid_from is_utf8_from
cuts [] zero zero h le = (0, ellipsis-kept)
cuts [] zero (suc n) h le = (0, ellipsis-kept)
cuts [] (suc k) n h le = absurd (ground (arith, h))
cuts (c ∷ s) (suc k) zero h le = absurd (omega arith)
cuts (c ∷ s) (suc k) (suc n) h le =
    further c s (to_valid_from k (take n s ++ ellipsis)) (cuts s k n h (omega arith))
cuts (c ∷ s) zero zero h le = (0, ellipsis-kept)
cuts (c ∷ s) zero (suc n) h le = rune_cut (rune_width (c ∷ s)) n c s refl h (cuts s)

-- A text in UTF-8 of which only so many bytes are kept, with an ellipsis: `strings.ToValidUTF8` drops
-- what is left of a rune at the cut, and nothing else.
pub to_valid_utf8-cut :
    (n : ℕ) (s : Bytes) → is_utf8 s ≡ true → Prefixed s (to_valid_utf8 (take n s ++ ellipsis))
unfolding to_valid_utf8 is_utf8
to_valid_utf8-cut n s h = cuts s 0 n h (omega arith)
