-- ===== src/Mcp/Client/Summary/Discreet.antt =====
-- What is shown of a textual body: one short line, and no token.
use mcpurl.Prelude.{
  ℕ, zero, suc, ◌≤◌, ◌≡◌, ◌⊎◌, refl, Bool, true, false, not, List, [], ◌∷◌, ◌++◌, ◌==◌, ltb, inl,
  inr, arith, Bool-cases, if_both,
}
use mcpurl.Prelude.Bytes.{Bytes, codes, has_byte, OneLine}
use mcpurl.Prelude.Lists.{length, take, All, All-append, length-append}
use mcpurl.Prelude.Space.{is_space, space_width, field_of, fields_from, fields, join}
use mcpurl.Prelude.Utf8.{
  rune_width, keep_rune, to_valid_from, to_valid_utf8, is_utf8, to_valid_utf8-same,
}
use mcpurl.Prelude.Utf8.Cut.{ellipsis, to_valid_utf8-cut}
use mcpurl.Redact.{match_length, marker, replace_at, replace_from, has_mark, tokens}
use mcpurl.Redact.Clean.{is_clean, is_clean-tokens, is_clean-take}
use mcpurl.Mcp.Client.Summary.{
  Texts, body_line_limit, textual_type, clipped, redacted, type_or_sniffed, echoed, body_summary,
}

OneLine-append : (s t : Bytes) → OneLine s → OneLine t → OneLine (s ++ t)
unfolding has_byte
OneLine-append [] t h k = k
OneLine-append (c ∷ s) t h k = ground (arith, OneLine-append s t)

OneLine-take : (n : ℕ) (s : Bytes) → OneLine s → OneLine (take n s)
unfolding has_byte
OneLine-take zero s h = refl
OneLine-take (suc n) [] h = refl
OneLine-take (suc n) (c ∷ s) h = ground (arith, OneLine-take n s)

-- What `ToValidUTF8` leaves.
kept-OneLine :
    (n c : ℕ) (s : Bytes)
    → (c == b'\n') ≡ false
    → ((k : ℕ) → OneLine (to_valid_from k s))
    → OneLine (keep_rune (λ k. to_valid_from k s) c n)
unfolding has_byte
kept-OneLine zero c s h f = f 0
kept-OneLine (suc k) c s h f = rw h (f k)

valid-OneLine : (k : ℕ) (s : Bytes) → OneLine s → OneLine (to_valid_from k s)
unfolding to_valid_from has_byte
valid-OneLine k [] h = refl
valid-OneLine (suc k) (c ∷ s) h = ground (arith, valid-OneLine k s)
valid-OneLine zero (c ∷ s) h =
    kept-OneLine (rune_width (c ∷ s)) c s (ground arith) (λ k. valid-OneLine k s (ground arith))

kept_le :
    (n c : ℕ) (s : Bytes)
    → ((k : ℕ) → length (to_valid_from k s) ≤ length s)
    → length (keep_rune (λ k. to_valid_from k s) c n) ≤ suc (length s)
kept_le zero c s f = omega (arith, f 0)
kept_le (suc k) c s f = omega (arith, f k)

valid_le : (k : ℕ) (s : Bytes) → length (to_valid_from k s) ≤ length s
unfolding to_valid_from
valid_le k [] = omega arith
valid_le (suc k) (c ∷ s) = omega (arith, valid_le k s)
valid_le zero (c ∷ s) = kept_le (rune_width (c ∷ s)) c s (λ k. valid_le k s)

-- Fields hold no space.
space-width : (c : ℕ) (s : Bytes) → space_width (c ∷ s) ≡ 0 → (c == b'\n') ≡ false
unfolding space_width is_space
space-width c [] h = ground arith
space-width c (a ∷ []) h = ground arith
space-width c (a ∷ b ∷ s) h = ground arith

field_of-OneLine : (w : Bytes) → OneLine w → All OneLine (field_of w)
field_of-OneLine [] h = tt
field_of-OneLine (c ∷ w) h = (h, tt)

byte-OneLine : (c : ℕ) → (c == b'\n') ≡ false → OneLine (c ∷ [])
unfolding has_byte
byte-OneLine c h = rw h refl

next-OneLine :
    (n c : ℕ) (w s : Bytes)
    → space_width (c ∷ s) ≡ n
    → OneLine w
    → ((k : ℕ) (v : Bytes) → OneLine v → All OneLine (fields_from k v s))
    → All OneLine (elim n [
      | zero ↦ fields_from zero (w ++ (c ∷ [])) s
      | suc k ↦ field_of w ++ fields_from k [] s
    ])
unfolding has_byte
next-OneLine zero c w s e h f =
    f zero (w ++ (c ∷ [])) (OneLine-append w (c ∷ []) h (byte-OneLine c (space-width c s e)))
next-OneLine (suc k) c w s e h f =
    All-append OneLine (field_of w) (fields_from k [] s) (field_of-OneLine w h) (f k [] refl)

fields-OneLine : (k : ℕ) (w s : Bytes) → OneLine w → All OneLine (fields_from k w s)
unfolding fields_from
fields-OneLine k w [] h = field_of-OneLine w h
fields-OneLine (suc k) w (c ∷ s) h = fields-OneLine k w s h
fields-OneLine zero w (c ∷ s) h =
    next-OneLine (space_width (c ∷ s)) c w s refl h (λ k v. fields-OneLine k v s)

join-OneLine : (l : List Bytes) → All OneLine l → OneLine (join (codes " ") l)
unfolding join has_byte
join-OneLine [] h = refl
join-OneLine (s ∷ []) h = h.0
join-OneLine (s ∷ t ∷ l) h =
    OneLine-append s (codes " " ++ join (codes " ") (t ∷ l)) (h.0) (join-OneLine (t ∷ l) (h.1))

replaced-OneLine :
    (n c : ℕ) (s : Bytes)
    → (c == b'\n') ≡ false
    → ((k : ℕ) → OneLine (replace_from k s))
    → OneLine (replace_at (λ k. replace_from k s) c n)
unfolding has_byte
replaced-OneLine zero c s h f = rw h (f 0)
replaced-OneLine (suc k) c s h f = OneLine-append marker (replace_from k s) refl (f k)

replace_from-OneLine : (k : ℕ) (s : Bytes) → OneLine s → OneLine (replace_from k s)
unfolding replace_from has_byte
replace_from-OneLine k [] h = refl
replace_from-OneLine (suc k) (c ∷ s) h = replace_from-OneLine k s (ground arith)
replace_from-OneLine zero (c ∷ s) h =
    replaced-OneLine (match_length (c ∷ s)) c s (ground arith)
      (λ k. replace_from-OneLine k s (ground arith))

tokens-OneLine : (s : Bytes) → OneLine s → OneLine (tokens s)
unfolding tokens
tokens-OneLine s h = if_both OneLine (not (has_mark s)) h (replace_from-OneLine 0 s h)

redacted-OneLine : (x : Texts) (body : Bytes) → OneLine (redacted x body)
unfolding redacted fields has_byte
redacted-OneLine x body =
    tokens-OneLine (join (codes " ") (fields body))
      (join-OneLine (fields body) (fields-OneLine 0 [] body refl))

take_le : (n : ℕ) (s : Bytes) → length (take n s) ≤ n
take_le zero s = omega arith
take_le (suc n) [] = omega arith
take_le (suc n) (c ∷ s) = omega (arith, take_le n s)

module _ (x : Texts) (s : Bytes) where
  abbrev long : Bool
  long = ltb body_line_limit (length s)

  clipped-OneLine : OneLine s → OneLine (clipped x s)
  unfolding clipped has_byte
  clipped-OneLine h =
      if_both OneLine long
        (OneLine-append (take body_line_limit s) ellipsis (OneLine-take body_line_limit s h) refl) h

  clipped_le : length (clipped x s) ≤ 515
  unfolding clipped
  clipped_le = elim (Bool-cases long) [
    | inl more ↦
        rw more (
          omega (arith, length-append (take body_line_limit s) ellipsis, take_le body_line_limit s))
    | inr fits ↦ rw fits (ground (arith, fits))
  ]

  -- In UTF-8 nothing but what is left of a rune at the cut is dropped.
  clipped-is_clean :
      is_utf8 s ≡ true → is_clean s ≡ true → is_clean (to_valid_utf8 (clipped x s)) ≡ true
  unfolding clipped
  clipped-is_clean valid clean = elim (Bool-cases long) [
    | inl more ↦
        let p = to_valid_utf8-cut body_line_limit s valid in
        rw more (rw (p.1) (is_clean-take (p.0) s clean))
    | inr fits ↦ rw fits (rw (to_valid_utf8-same s valid) clean)
  ]

module _ (x : Texts) where
  -- At most 515 bytes on one line, and no token where the redacted text is UTF-8.
  abbrev pub Discreet : Bytes → Bytes → Type 0
  Discreet body text =
      (length text ≤ 515)
      × (has_byte b'\n' text ≡ false)
      × ((is_utf8 (redacted x body) ≡ false) ⊎ (is_clean text ≡ true))

  echoed-Discreet : (body : Bytes) → Discreet body (echoed x body)
  unfolding echoed to_valid_utf8 redacted
  echoed-Discreet body =
      let s = redacted x body in
      (
        omega (arith, valid_le 0 (clipped x s), clipped_le x s),
        valid-OneLine 0 (clipped x s) (clipped-OneLine x s (redacted-OneLine x body)),
        elim (Bool-cases (is_utf8 s)) [
          | inl valid ↦
              inr (clipped-is_clean x s valid (is_clean-tokens (join (codes " ") (fields body))))
          | inr broken ↦ inl broken
        ],
      )

  nothing-Discreet : Discreet [] []
  unfolding has_byte is_clean
  nothing-Discreet = (omega arith, refl, inr refl)

  -- Of a failed response whose type is text, as the server says or as it is sniffed, an error message
  -- shows at most 515 bytes, without a line end; and where the body, on one line and redacted, is
  -- valid UTF-8, the expression for JWT-shaped runs matches nowhere in what is shown.
  pub body_summary-Discreet :
      (content_type body : Bytes)
      → (textual_type x (type_or_sniffed x content_type body) ≡ false)
        ⊎ Discreet body (body_summary x content_type body)
  unfolding body_summary
  body_summary-Discreet content_type [] = inr nothing-Discreet
  body_summary-Discreet content_type (c ∷ s) =
      elim (Bool-cases (textual_type x (type_or_sniffed x content_type (c ∷ s)))) [
        | inl textual ↦ inr (rw textual (echoed-Discreet (c ∷ s)))
        | inr other ↦ inl other
      ]
