-- ===== src/Json/Compact.antt =====
-- What `Compact` writes holds no newline, and is left alone by a second pass.
use mcpurl.Prelude.{
  ℕ, suc, zero, ◌≡◌, refl, ◌∙◌, Bool, true, false, ◌||◌, List, [], ◌∷◌, Option, none, some, ◌==◌,
  if◌then◌else◌, arith, inl, inr, ◌⊎◌, Bool-cases, ==_iff,
}
use mcpurl.Prelude.Bytes.{Bytes, has_byte}
use mcpurl.Json.{
  Open, object_key, object_value, array_value, Mode, Scanner, Step, refuse, keep, skip, is_blank,
  start_value, close_empty, after_value, step_in, step, at_end, begin, compact_step, compact_from,
  compact, onto,
}

module _ (st : List Open) (q : Scanner) where
  after_value-newline : (s : List Open) → ¬ (after_value b'\n' s ≡ keep q)
  unfolding after_value is_blank
  after_value-newline [] e = cc
  after_value-newline (object_key ∷ s) e = cc
  after_value-newline (object_value ∷ s) e = cc
  after_value-newline (array_value ∷ s) e = cc

  -- A newline is skipped between the tokens and refused inside them.
  step_in-newline : (m : Mode) → ¬ (step_in m b'\n' st ≡ keep q)
  unfolding step_in is_blank
  step_in-newline Mode.end_value e = after_value-newline st e
  step_in-newline Mode.digits e = after_value-newline st e
  step_in-newline Mode.nought e = after_value-newline st e
  step_in-newline Mode.fraction e = after_value-newline st e
  step_in-newline Mode.exponent_digits e = after_value-newline st e
  step_in-newline (Mode.in_unicode zero) e = cc
  step_in-newline (Mode.in_unicode (suc zero)) e = cc
  step_in-newline (Mode.in_unicode (suc (suc n))) e = cc
  step_in-newline _ e = cc

kept_byte : (c : ℕ) (p q : Scanner) → step p c ≡ keep q → (c == b'\n' || false) ≡ false
unfolding step
kept_byte c p q e = elim (Bool-cases (c == b'\n')) [
  | inl nl ↦ absurd (step_in-newline p.open_values q p.mode (rw ((==_iff c b'\n').0 nl) at e))
  | inr other ↦ rw other
]

-- Whatever may follow a scanner's text may follow the other's.
record Covers (p q : Scanner) : Type 0 where
  steps : (c : ℕ) (r : Scanner) → step q c ≡ keep r → step p c ≡ keep r
  ends : at_end q ≡ true → at_end p ≡ true

Covers-refl : (p : Scanner) → Covers p p
Covers-refl p = record { steps = λ c r h. h; ends = λ h. h }

Covers-trans : {p q r : Scanner} → Covers p q → Covers q r → Covers p r
Covers-trans f g = record {
  steps = λ c s h. f.steps c s (g.steps c s h);
  ends = λ h. f.ends (g.ends h);
}

at : Mode → List Open → Scanner
at m st = record { mode = m; open_values = st }

-- The state behind a complete value and a blank.
abbrev resting : List Open → Scanner
resting [] = at Mode.end_top []
resting (o ∷ st) = at Mode.end_value (o ∷ st)

resting-skip : (b : ℕ) (st : List Open) (q : Scanner) → after_value b st ≡ skip q → q ≡ resting st
unfolding after_value at
resting-skip b [] q h = ground arith
resting-skip b (object_key ∷ st) q h = ground arith
resting-skip b (object_value ∷ st) q h = ground arith
resting-skip b (array_value ∷ st) q h = ground arith

Covers-resting : (st : List Open) → Covers (at Mode.end_value st) (resting st)
unfolding step step_in after_value at at_end
Covers-resting [] = record { steps = λ c r h. h; ends = λ h. h }
Covers-resting (o ∷ st) = record { steps = λ c r h. h; ends = λ h. h }

is_mark : ℕ → Bool
is_mark c = c == b':' || c == b',' || c == b'}' || c == b']'

after_value-keep :
    (c : ℕ) (st : List Open) (r : Scanner) → after_value c st ≡ keep r → is_mark c ≡ true
unfolding after_value is_mark
after_value-keep c [] r h = ground arith
after_value-keep c (object_key ∷ st) r h = ground arith
after_value-keep c (object_value ∷ st) r h = ground arith
after_value-keep c (array_value ∷ st) r h = ground arith

-- Behind a number nothing is taken that would have gone on with it.
Covers-number :
    (m : Mode) (st : List Open)
    → ((c : ℕ) → is_mark c ≡ true → step_in m c st ≡ after_value c st)
    → step_in m b' ' st ≡ after_value b' ' st
    → Covers (at m st) (at Mode.end_value st)
unfolding step step_in at at_end
Covers-number m st same blank = record {
  steps = λ c r h. same c (after_value-keep c st r h) ∙ h;
  ends = λ h. rw blank h;
}

Covers-number_resting :
    (m : Mode) (st : List Open) (b : ℕ) (q : Scanner)
    → Covers (at m st) (at Mode.end_value st)
    → after_value b st ≡ skip q
    → Covers (at m st) q
Covers-number_resting m st b q f h = rw (resting-skip b st q h) (Covers-trans f (Covers-resting st))

Covers-same : (p q : Scanner) → q ≡ p → Covers p q
Covers-same p q e = rw e (Covers-refl p)

Covers-digits : (st : List Open) → Covers (at Mode.digits st) (at Mode.end_value st)
unfolding step_in
Covers-digits st = Covers-number Mode.digits st (λ c h. unfold is_mark in ground arith) refl

Covers-nought : (st : List Open) → Covers (at Mode.nought st) (at Mode.end_value st)
unfolding step_in
Covers-nought st = Covers-number Mode.nought st (λ c h. unfold is_mark in ground arith) refl

Covers-fraction : (st : List Open) → Covers (at Mode.fraction st) (at Mode.end_value st)
unfolding step_in
Covers-fraction st = Covers-number Mode.fraction st (λ c h. unfold is_mark in ground arith) refl

Covers-exponent : (st : List Open) → Covers (at Mode.exponent_digits st) (at Mode.end_value st)
unfolding step_in
Covers-exponent st =
    Covers-number Mode.exponent_digits st (λ c h. unfold is_mark in ground arith) refl

start_value-skip : (c : ℕ) (st : List Open) (q : Scanner) → ¬ (start_value c st ≡ skip q)
unfolding start_value
start_value-skip c st q h = ground arith

close_empty-skip : (st : List Open) (q : Scanner) → ¬ (close_empty st ≡ skip q)
close_empty-skip [] q h = cc
close_empty-skip (o ∷ st) q h = cc

after_value-bracket : (st : List Open) (q : Scanner) → ¬ (after_value b']' st ≡ skip q)
unfolding after_value is_blank
after_value-bracket [] q h = cc
after_value-bracket (object_key ∷ st) q h = cc
after_value-bracket (object_value ∷ st) q h = cc
after_value-bracket (array_value ∷ st) q h = cc

begin_value_or_empty-skip :
    (st : List Open) (b : ℕ) (q : Scanner)
    → step_in Mode.begin_value_or_empty b st ≡ skip q
    → q ≡ at Mode.begin_value_or_empty st
unfolding step_in at is_blank
begin_value_or_empty-skip st b q h = elim (Bool-cases (b == b']')) [
  | inl closes ↦ absurd (after_value-bracket st q (rw ((==_iff b b']').0 closes) at h))
  | inr other ↦ ground (arith, start_value-skip b st q)
]

step_in-skip :
    (m : Mode) (st : List Open) (b : ℕ) (q : Scanner) → step_in m b st ≡ skip q → Covers (at m st) q
unfolding step_in
step_in-skip Mode.end_value st b q h = Covers-number_resting Mode.end_value st b q (Covers-refl _) h
step_in-skip Mode.digits st b q h =
    Covers-number_resting Mode.digits st b q (Covers-digits st) (unfold at in ground arith)
step_in-skip Mode.nought st b q h =
    Covers-number_resting Mode.nought st b q (Covers-nought st) (unfold at in ground arith)
step_in-skip Mode.fraction st b q h =
    Covers-number_resting Mode.fraction st b q (Covers-fraction st) (unfold at in ground arith)
step_in-skip Mode.exponent_digits st b q h =
    Covers-number_resting Mode.exponent_digits st b q (Covers-exponent st)
      (unfold at in ground arith)
step_in-skip (Mode.in_unicode zero) st b q h = cc
step_in-skip (Mode.in_unicode (suc zero)) st b q h = absurd (ground arith)
step_in-skip (Mode.in_unicode (suc (suc n))) st b q h = absurd (ground arith)
step_in-skip Mode.begin_value st b q h =
    Covers-same _ q (unfold at in ground (arith, start_value-skip b st q))
step_in-skip Mode.begin_value_or_empty st b q h =
    Covers-same _ q (begin_value_or_empty-skip st b q h)
step_in-skip Mode.begin_string st b q h = Covers-same _ q (unfold at in ground arith)
step_in-skip Mode.begin_string_or_empty st b q h =
    Covers-same _ q (unfold at in ground (arith, close_empty-skip st q))
step_in-skip Mode.end_top st b q h = Covers-same _ q (unfold at in ground arith)
step_in-skip _ st b q h = absurd (ground arith)

skip_step : (p q : Scanner) (b : ℕ) → step p b ≡ skip q → Covers p q
unfolding step at
skip_step p q b h = step_in-skip p.mode p.open_values b q h

compact_step-some :
    (rest : Scanner → Option Bytes) (c : ℕ) (r : Step) (t : Bytes)
    → compact_step rest c r ≡ some t
    → ((q : Scanner) × (u : Bytes) × (r ≡ keep q) × (t ≡ c ∷ u) × (rest q ≡ some u))
      ⊎ ((q : Scanner) × (r ≡ skip q) × (rest q ≡ some t))
compact_step-some rest c refuse t h = cc
compact_step-some rest c (skip q) t h = inr (q, refl, h)
compact_step-some rest c (keep q) t h = kept (rest q) refl h
  where
    kept :
        (o : Option Bytes)
        → rest q ≡ o
        → onto o c ≡ some t
        → ((q' : Scanner) × (u : Bytes) × (keep q ≡ keep q') × (t ≡ c ∷ u) × (rest q' ≡ some u))
          ⊎ ((q' : Scanner) × (keep q ≡ skip q') × (rest q' ≡ some t))
    kept none k e = cc
    kept (some u) k e = inl (q, u, refl, cc, k)

ended : (b : Bool) (t : Bytes) → (if b then some [] else none) ≡ some t → (b ≡ true) × (t ≡ [])
ended true t h = (refl, cc)
ended false t h = cc

compact_from-compact_from :
    (s : Bytes) (p p' : Scanner) (t : Bytes)
    → Covers p' p
    → compact_from p s ≡ some t
    → compact_from p' t ≡ some t
unfolding compact_from
compact_from-compact_from [] p p' t f h = let (e, g) = ended (at_end p) t h in rw (g, f.ends e)
compact_from-compact_from (c ∷ s) p p' t f h =
    elim (compact_step-some (λ q. compact_from q s) c (step p c) t h) [
      | inl (q, u, e, g, k) ↦
          rw (g, f.steps c q e, compact_from-compact_from s q q u (Covers-refl q) k)
      | inr (q, e, k) ↦ compact_from-compact_from s q p' t (Covers-trans f (skip_step p q c e)) k
    ]

compact_from-newline :
    (s t : Bytes) (p : Scanner) → compact_from p s ≡ some t → has_byte b'\n' t ≡ false
unfolding compact_from has_byte
compact_from-newline [] t p h = rw ((ended (at_end p) t h).1)
compact_from-newline (c ∷ s) t p h =
    elim (compact_step-some (λ q. compact_from q s) c (step p c) t h) [
      | inl (q, u, e, g, k) ↦ rw (g, compact_from-newline s u q k) (kept_byte c p q e)
      | inr (q, e, k) ↦ compact_from-newline s t q k
    ]

-- The text that `Compact` writes is on one line.
pub compact-newline : (s : Bytes) {t : Bytes} → compact s ≡ some t → has_byte b'\n' t ≡ false
unfolding compact
compact-newline s {t} h = compact_from-newline s t begin h

-- `Compact` accepts what it has written, and leaves it as it is.
pub compact-compact : (s : Bytes) {t : Bytes} → compact s ≡ some t → compact t ≡ some t
unfolding compact
compact-compact s {t} h = compact_from-compact_from s begin begin t (Covers-refl begin) h
