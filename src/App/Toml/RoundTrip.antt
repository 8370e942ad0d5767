-- ===== src/App/Toml/RoundTrip.antt =====
-- A block that was appended to a text is dropped without a trace.
use mathlib.Core.List.{append_assoc, append-nil, reverse-append}
use mcpurl.Prelude.{
  ◌≡◌, refl, sym, ap, ◌∙◌, Bool, true, false, not, ◌&&◌, List, [], ◌∷◌, ◌++◌, Option, none, some,
  ◌==◌, if◌then◌else◌, inl, inr, Bool-cases, arith, subst, ==_iff, ◌⊎◌,
}
use mcpurl.Prelude.Bytes.{Bytes, codes, is_empty, has_prefix}
use mcpurl.Prelude.Space.{trim_space}
use mcpurl.Prelude.Lists.{All, All-append}
use mcpurl.App.Toml.{
  onto_first, split_after, glue, blank_line, comment_line, blank_or_comment, table_key, bracketed,
  split_back, put_front, skip_blank, is_own, is_foreign, until_foreign, Cut, cut, below_line, ended,
  spliced, splice_profile_block,
}
use mcpurl.App.Toml.Lines.{glue-append, Passes, Stops}
use mcpurl.App.Toml.Cuts.{NotOwn, NotForeign}

-- A newline at the end and nowhere else.
unfoldable pub is_line : Bytes → Bool
is_line [] = false
is_line (c ∷ []) = c == b'\n'
is_line (c ∷ d ∷ s) = let rest = is_line (d ∷ s) in not (c == b'\n') && rest

abbrev pub IsLine : Bytes → Type 0
IsLine l = is_line l ≡ true

split_after-line : (l t : Bytes) → IsLine l → split_after (l ++ t) ≡ l ∷ split_after t
unfolding split_after onto_first is_line
split_after-line [] t h = absurd (ground (arith, h))
split_after-line (c ∷ []) t h = rw (h) refl
split_after-line (c ∷ d ∷ s) t h = elim (Bool-cases (c == b'\n')) [
  | inl newline ↦ absurd (ground (arith, h, newline))
  | inr plain ↦ rw plain (ap (onto_first c) (split_after-line (d ∷ s) t (ground (arith, h, plain))))
]

split_after-glue :
    (ls : List Bytes) (t : Bytes) → All IsLine ls → split_after (glue ls ++ t) ≡ ls ++ split_after t
split_after-glue [] t h = refl
split_after-glue (l ∷ ls) t (first, h) =
    ap split_after (append_assoc l (glue ls) t)
    ∙ split_after-line l (glue ls ++ t) first
    ∙ ap (◌∷◌ l) (split_after-glue ls t h)

-- A list that stops, with lines behind it that all pass.
module _ (p : Bytes → Bool) where
  split_back-All : (g : List Bytes) → All (Passes p) g → split_back p g ≡ ([], g)
  unfolding split_back put_front
  split_back-All [] h = refl
  split_back-All (l ∷ g) (first, h) = rw (split_back-All g h, first) refl

  put_front-fails :
      (l : Bytes) (g : List Bytes) (b : Bool) → b ≡ false → put_front b l ([], g) ≡ (l ∷ [], g)
  unfolding put_front
  put_front-fails l g true e = absurd (ground (arith, e))
  put_front-fails l g false e = refl

  put_front-kept :
      (l k : Bytes) (ks g : List Bytes) (b : Bool) → put_front b l (k ∷ ks, g) ≡ (l ∷ k ∷ ks, g)
  unfolding put_front
  put_front-kept l k ks g true = refl
  put_front-kept l k ks g false = refl

  split_back-stop :
      (ls g : List Bytes) → Stops p ls → All (Passes p) g → split_back p (ls ++ g) ≡ (ls, g)
  unfolding split_back
  split_back-stop [] g s h = split_back-All g h
  split_back-stop (l ∷ []) g s h =
      ap (put_front (p l) l) (split_back-All g h) ∙ put_front-fails l g (p l) s
  split_back-stop (l ∷ k ∷ ks) g s h =
      ap (put_front (p l) l) (split_back-stop (k ∷ ks) g s h) ∙ put_front-kept l k ks g (p l)

until_foreign-All :
    (name : Bytes) (ls : List Bytes) → All (NotForeign name) ls → until_foreign name ls ≡ (ls, [])
unfolding until_foreign
until_foreign-All name [] h = refl
until_foreign-All name (l ∷ ls) (first, h) = rw (first, until_foreign-All name ls h) refl

-- The first header of the profile is where it is cut.
cut-at :
    (name : Bytes) (a : List Bytes) (h : Bytes) (t : List Bytes)
    → All (NotOwn name) a
    → is_own name h ≡ true
    → All (NotForeign name) t
    → cut name (a ++ (h ∷ t)) ≡ some (record { above = a; header = h; body = t; below = [] })
unfolding cut
cut-at name [] h t n own f = rw (own, until_foreign-All name t f) refl
cut-at name (l ∷ a) h t (first, n) own f = rw first (ap (below_line l) (cut-at name a h t n own f))

line-end : (l : Bytes) → IsLine l → (s : Bytes) × (l ≡ s ++ (b'\n' ∷ []))
unfolding is_line
line-end [] h = absurd (ground (arith, h))
line-end (c ∷ []) h = ([], ap (λ x. x ∷ []) ((==_iff c b'\n').0 h))
line-end (c ∷ d ∷ s) h = let r = line-end (d ∷ s) (ground (arith, h)) in (c ∷ r.0, ap (◌∷◌ c) (r.1))

glue-end :
    (ls : List Bytes)
    → All IsLine ls
    → (glue ls ≡ []) ⊎ ((s : Bytes) × (glue ls ≡ s ++ (b'\n' ∷ [])))
glue-end [] h = inl refl
glue-end (l ∷ ls) (first, h) = elim (glue-end ls h) [
  | inl blank ↦
      let r = line-end l first in inr (r.0, ap (λ (t : Bytes). l ++ t) blank ∙ append-nil l ∙ r.1)
  | inr (s, e) ↦ inr (l ++ s, ap (λ (t : Bytes). l ++ t) e ∙ sym (append_assoc l s (b'\n' ∷ [])))
]

ended-newline : (s : Bytes) → ended (s ++ (b'\n' ∷ [])) ≡ s ++ (b'\n' ∷ [])
unfolding ended has_prefix
ended-newline s =
    let out = s ++ (b'\n' ∷ []) in rw (reverse-append s (b'\n' ∷ [])) (unneeded (is_empty out) out)
  where
    unneeded :
        (b : Bool) (out : Bytes) → (if not b && not true then out ++ codes "\n" else out) ≡ out
    unneeded true out = refl
    unneeded false out = refl

ended-glue : (ls : List Bytes) → All IsLine ls → ended (glue ls) ≡ glue ls
unfolding ended
ended-glue ls h = elim (glue-end ls h) [
  | inl blank ↦ subst (λ (t : Bytes). ended t ≡ t) (sym blank) refl
  | inr (s, e) ↦ subst (λ (t : Bytes). ended t ≡ t) (sym e) (ended-newline s)
]

splice-cut :
    (name block src : Bytes) (c : Cut)
    → cut name (split_after src) ≡ some c
    → splice_profile_block src name block ≡ some (spliced block c)
unfolding splice_profile_block
splice-cut name block src c e =
    ap
      (λ (o : Option Cut). elim o as (λ x. Option Bytes) [
        | none ↦ none
        | some d ↦ some (spliced block d)
      ])
      e

-- The lines of a block: a blank one, the header and the settings.
module _ (name : Bytes) (ls : List Bytes) (header : Bytes) (body : List Bytes)
    (lines : All IsLine ls) (absent : All (NotOwn name) ls) (filled : Stops blank_line ls)
    (header_line : IsLine header) (own : is_own name header ≡ true) (body_lines : All IsLine body)
    (inside : All (NotForeign name) body) (stops : Stops blank_or_comment (header ∷ body)) where
  abbrev gap : Bytes
  gap = b'\n' ∷ []

  abbrev last_line : List Bytes
  last_line = [] ∷ []

  abbrev found : Cut
  found = record { above = ls ++ (gap ∷ []); header = header; body = body ++ last_line; below = [] }

  gap-NotOwn : NotOwn name gap
  unfolding is_own table_key bracketed trim_space
  gap-NotOwn = refl

  last-NotForeign : NotForeign name []
  unfolding is_foreign table_key bracketed trim_space
  last-NotForeign = refl

  lines_of :
      split_after (glue ls ++ glue (gap ∷ header ∷ body))
      ≡ (ls ++ (gap ∷ [])) ++ (header ∷ (body ++ last_line))
  unfolding split_after is_line
  lines_of =
      let block = gap ∷ header ∷ body in
      let all : All IsLine (ls ++ block) =
        All-append IsLine ls block lines (refl, (header_line, body_lines)) in
      ap split_after (sym (glue-append ls block) ∙ sym (append-nil (glue (ls ++ block))))
      ∙ split_after-glue (ls ++ block) [] all
      ∙ append_assoc ls block last_line
      ∙ sym (append_assoc ls (gap ∷ []) (header ∷ (body ++ last_line)))

  found_is : cut name ((ls ++ (gap ∷ [])) ++ (header ∷ (body ++ last_line))) ≡ some found
  found_is =
      cut-at name (ls ++ (gap ∷ [])) header (body ++ last_line)
        (All-append (NotOwn name) ls (gap ∷ []) absent (gap-NotOwn, tt)) own
        (All-append (NotForeign name) body last_line inside (last-NotForeign, tt))

  up_is : split_back blank_line (ls ++ (gap ∷ [])) ≡ (ls, gap ∷ [])
  unfolding blank_line trim_space
  up_is = split_back-stop blank_line ls (gap ∷ []) filled (refl, tt)

  down_is :
      split_back blank_or_comment (gap ∷ header ∷ (body ++ last_line))
      ≡ (gap ∷ header ∷ body, last_line)
  unfolding blank_or_comment blank_line comment_line trim_space
  down_is = split_back-stop blank_or_comment (gap ∷ header ∷ body) last_line stops (refl, tt)

  nothing_left : (b : Bool) → glue (if b then skip_blank last_line else last_line) ≡ []
  unfolding skip_blank blank_line trim_space
  nothing_left true = refl
  nothing_left false = refl

  spliced-found : spliced [] found ≡ glue ls
  unfolding spliced
  spliced-found =
      rw (up_is, down_is, nothing_left (is_empty ls && true))
        (ap ended (append-nil (glue ls)) ∙ ended-glue ls lines)

  -- Where the lines of a text end with one that is not blank and none of them is a header of the
  -- profile: a block of a blank line, the profile's header and lines that are no header of another
  -- table, the last one neither blank nor a comment, is dropped from behind the text without a
  -- trace.
  pub splice-appended :
      splice_profile_block (glue ls ++ glue (gap ∷ header ∷ body)) name [] ≡ some (glue ls)
  splice-appended =
      splice-cut name [] (glue ls ++ glue (gap ∷ header ∷ body)) found
        (ap (cut name) lines_of ∙ found_is)
      ∙ ap some spliced-found
