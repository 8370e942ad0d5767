-- ===== src/Redact/Clean.antt =====
-- No JWT-shaped run is left in what `Tokens` returns.
use mcpurl.Prelude.{
  ℕ, zero, suc, ◌≤◌, ◌≡◌, refl, Bool, true, false, not, ◌&&◌, ◌||◌, [], ◌∷◌, ◌++◌, ◌==◌, arith, inl,
  inr, Bool-cases, ◌⊎◌,
}
use mcpurl.Prelude.Bytes.{Bytes}
use mcpurl.Prelude.Lists.{take}
use mcpurl.Prelude.Utf8.Cut.{ellipsis}
use mcpurl.Redact.{
  is_word, word_at, run_length, run_dotted, is_tail, match_length, marker, replace_at, replace_from,
  has_mark, tokens,
}

-- At no place does the expression match.
unfoldable pub is_clean : Bytes → Bool
is_clean [] = true
is_clean (c ∷ s) = match_length (c ∷ s) == 0 && is_clean s

-- A byte that is in no match.
stops : ℕ → Bool
unfolding is_word
stops c = not (is_word c || c == b'.')

-- Byte by byte `t` is `s`, or it has a byte that is in no match in place of whatever `s` goes on with.
data Redacts : Bytes → Bytes → Type 0 where
  same : {c : ℕ} {s t : Bytes} → Redacts s t → Redacts (c ∷ s) (c ∷ t)
  cut : {c : ℕ} {s t : Bytes} → stops c ≡ true → Redacts s (c ∷ t)
  end : {s : Bytes} → Redacts s []

word_at-Redacts : {s t : Bytes} → Redacts s t → word_at t ≡ true → word_at s ≡ true
unfolding stops
word_at-Redacts (same r) h = h
word_at-Redacts (cut p) h = absurd (ground (arith, p))
word_at-Redacts end h = cc

run_length-Redacts : {s t : Bytes} → Redacts s t → run_length t ≤ run_length s
unfolding run_length stops
run_length-Redacts (same {c} {s} {t} r) = ground (arith, run_length-Redacts r)
run_length-Redacts (cut p) = ground (arith, p)
run_length-Redacts end = omega arith

run_dotted-Redacts : {s t : Bytes} → Redacts s t → run_dotted t ≡ true → run_dotted s ≡ true
unfolding run_dotted stops
run_dotted-Redacts (same {c} {s} {t} r) h = ground (arith, run_dotted-Redacts r, word_at-Redacts r)
run_dotted-Redacts (cut p) h = absurd (ground (arith, p))
run_dotted-Redacts end h = cc

is_tail-Redacts : {s t : Bytes} → Redacts s t → is_tail t ≡ true → is_tail s ≡ true
unfolding is_tail
is_tail-Redacts {s} {t} r h = ground (arith, run_length-Redacts r, run_dotted-Redacts r)

match_length-ne :
    (a b : ℕ) (s : Bytes)
    → ((a == b'e') ≡ false) ⊎ ((b == b'y') ≡ false)
    → match_length (a ∷ b ∷ s) ≡ 0
unfolding match_length
match_length-ne a b [] h = refl
match_length-ne a b (c ∷ s) h = ground arith

stops-e : (c : ℕ) → stops c ≡ true → (c == b'e') ≡ false
unfolding stops is_word
stops-e c p = ground arith

stops-y : (c : ℕ) → stops c ≡ true → (c == b'y') ≡ false
unfolding stops is_word
stops-y c p = ground arith

stops-J : (c : ℕ) → stops c ≡ true → (c == b'J') ≡ false
unfolding stops is_word
stops-J c p = ground arith

match_length-stop : (c : ℕ) (t : Bytes) → stops c ≡ true → match_length (c ∷ t) ≡ 0
unfolding match_length
match_length-stop c [] p = refl
match_length-stop c (b ∷ t) p = match_length-ne c b t (inl (stops-e c p))

match_length-Redacts : {s t : Bytes} → Redacts s t → match_length s ≡ 0 → match_length t ≡ 0
unfolding match_length
match_length-Redacts (same (same (same {c = c} {s = s} {t = t} r))) h =
    ground (arith, is_tail-Redacts r)
match_length-Redacts (same {c = a} (same {c = b} (cut {c = c} p))) h = ground (arith, stops-J c p)
match_length-Redacts (same (same end)) h = refl
match_length-Redacts (same {c = a} (cut {c = c} {t = t} p)) h =
    match_length-ne a c t (inr (stops-y c p))
match_length-Redacts (same end) h = refl
match_length-Redacts (cut {c = c} {t = t} p) h = match_length-stop c t p
match_length-Redacts end h = refl

replace_from-Redacts : (s : Bytes) → Redacts s (replace_from 0 s)
unfolding replace_from stops is_word
replace_from-Redacts [] = end
replace_from-Redacts (c ∷ s) =
    elim (match_length (c ∷ s)) as (λ n. Redacts (c ∷ s) (replace_at (λ k. replace_from k s) c n)) [
      | zero ↦ same (replace_from-Redacts s)
      | suc k ↦ cut refl
    ]

is_clean-next :
    (a b : ℕ) (s : Bytes)
    → ((a == b'e') ≡ false) ⊎ ((b == b'y') ≡ false)
    → is_clean (b ∷ s) ≡ true
    → is_clean (a ∷ b ∷ s) ≡ true
unfolding is_clean
is_clean-next a b s h k = rw (match_length-ne a b s h) k

is_clean-last : (s : Bytes) → is_clean s ≡ true → is_clean (b']' ∷ s) ≡ true
unfolding is_clean match_length
is_clean-last [] h = refl
is_clean-last (b ∷ s) h = is_clean-next b']' b s (inl refl) h

is_clean-marker : (s : Bytes) → is_clean s ≡ true → is_clean (marker ++ s) ≡ true
unfolding is_clean match_length
is_clean-marker s h = is_clean-next b'T' b']' s (inl refl) (is_clean-last s h)

is_clean-replace_at :
    (n c : ℕ) (s : Bytes)
    → match_length (c ∷ s) ≡ n
    → ((k : ℕ) → is_clean (replace_from k s) ≡ true)
    → is_clean (replace_at (λ k. replace_from k s) c n) ≡ true
unfolding is_clean
is_clean-replace_at zero c s e ih =
    rw (match_length-Redacts (same (replace_from-Redacts s)) e) (ih 0)
is_clean-replace_at (suc k) c s e ih = is_clean-marker (replace_from k s) (ih k)

is_clean-replace_from : (s : Bytes) (k : ℕ) → is_clean (replace_from k s) ≡ true
unfolding replace_from
is_clean-replace_from [] k = unfold is_clean in refl
is_clean-replace_from (c ∷ s) (suc k) = is_clean-replace_from s k
is_clean-replace_from (c ∷ s) zero =
    is_clean-replace_at (match_length (c ∷ s)) c s refl (is_clean-replace_from s)

is_clean-no_mark : (s : Bytes) → has_mark s ≡ false → is_clean s ≡ true
unfolding is_clean has_mark match_length
is_clean-no_mark [] h = refl
is_clean-no_mark (a ∷ []) h = refl
is_clean-no_mark (a ∷ b ∷ []) h = refl
is_clean-no_mark (a ∷ b ∷ c ∷ s) h = ground (arith, is_clean-no_mark (b ∷ c ∷ s))

-- In the text that comes back no run has the shape of a JWT, whatever the text was.
pub is_clean-tokens : (s : Bytes) → is_clean (tokens s) ≡ true
unfolding tokens
is_clean-tokens s = elim (Bool-cases (has_mark s)) [
  | inl mark ↦ rw mark (is_clean-replace_from s 0)
  | inr none ↦ rw none (is_clean-no_mark s none)
]

replace_from-is_clean : (s : Bytes) → is_clean s ≡ true → replace_from 0 s ≡ s
unfolding replace_from is_clean
replace_from-is_clean [] h = refl
replace_from-is_clean (c ∷ s) h = ground (arith, replace_from-is_clean s)

-- A text with no such run comes back as it is, with the search for "eyJ" and without it; so a
-- second pass changes nothing.
pub tokens-is_clean : (s : Bytes) → is_clean s ≡ true → tokens s ≡ s
unfolding tokens
tokens-is_clean s h = elim (Bool-cases (has_mark s)) [
  | inl mark ↦ rw mark (replace_from-is_clean s h)
  | inr none ↦ rw none
]

-- A clean text that is cut stays clean before bytes that are in no match.
cut-Redacts : (m : ℕ) (s : Bytes) → Redacts s (take m s ++ ellipsis)
unfolding stops is_word
cut-Redacts zero s = cut refl
cut-Redacts (suc m) [] = cut refl
cut-Redacts (suc m) (c ∷ s) = same (cut-Redacts m s)

clean_ellipsis : is_clean ellipsis ≡ true
unfolding is_clean match_length
clean_ellipsis = refl

pub is_clean-take : (m : ℕ) (s : Bytes) → is_clean s ≡ true → is_clean (take m s ++ ellipsis) ≡ true
unfolding is_clean
is_clean-take zero s h = clean_ellipsis
is_clean-take (suc m) [] h = clean_ellipsis
is_clean-take (suc m) (c ∷ s) h =
    rw (match_length-Redacts (same {c = c} (cut-Redacts m s)) (ground arith))
      (is_clean-take m s (ground arith))
