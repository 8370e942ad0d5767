-- ===== src/App/Toml/Lines.antt =====
-- Lines of a text, and lists of lines that are split at their end.
use mcpurl.Prelude.{
  ℕ, ◌≡◌, refl, sym, ap, ◌∙◌, Bool, true, false, List, [], ◌∷◌, ◌++◌, ◌==◌, inl, inr, Bool-cases,
}
use mathlib.Core.List.{append_assoc}
use mcpurl.Prelude.Bytes.{Bytes}
use mcpurl.Prelude.Lists.{All}
use mcpurl.App.Toml.{
  onto_first, split_after, glue, blank_line, put_front, split_back, skip_blank, is_foreign,
  until_foreign,
}

pub glue-append : (ls ms : List Bytes) → glue (ls ++ ms) ≡ glue ls ++ glue ms
glue-append [] ms = refl
glue-append (l ∷ ls) ms =
    ap (λ (t : Bytes). l ++ t) (glue-append ls ms) ∙ sym (append_assoc l (glue ls) (glue ms))

glue-onto_first : (c : ℕ) (ls : List Bytes) → glue (onto_first c ls) ≡ c ∷ glue ls
unfolding onto_first
glue-onto_first c [] = refl
glue-onto_first c (l ∷ ls) = refl

pub glue-split_after : (s : Bytes) → glue (split_after s) ≡ s
unfolding split_after
glue-split_after [] = refl
glue-split_after (c ∷ s) = elim (Bool-cases (c == b'\n')) [
  | inl newline ↦ rw newline (ap (◌∷◌ c) (glue-split_after s))
  | inr other ↦ rw other (glue-onto_first c (split_after s) ∙ ap (◌∷◌ c) (glue-split_after s))
]

module _ (p : Bytes → Bool) where
  abbrev pub Passes : Bytes → Type 0
  Passes l = p l ≡ true

  -- The last line, if there is one, does not pass.
  abbrev pub Stops : List Bytes → Type 0
  Stops [] = Unit {0}
  Stops (l ∷ []) = p l ≡ false
  Stops (l ∷ m ∷ ls) = Stops (m ∷ ls)

  -- A list is what is kept and the lines behind it that pass; what is kept ends with one that does
  -- not.
  pub record IsSplit (ls : List Bytes) (r : List Bytes × List Bytes) : Type 0 where
    pub joined : r.0 ++ r.1 ≡ ls
    pub gone : All Passes (r.1)
    pub stops : Stops (r.0)

  put_front-IsSplit :
      (b : Bool) (l : Bytes) (ls : List Bytes) (r : List Bytes × List Bytes)
      → p l ≡ b
      → IsSplit ls r
      → IsSplit (l ∷ ls) (put_front b l r)
  unfolding put_front
  put_front-IsSplit true l ls ([], gone) e i = record {
    joined = ap (◌∷◌ l) i.joined;
    gone = (e, i.gone);
    stops = tt;
  }
  put_front-IsSplit false l ls ([], gone) e i = record {
    joined = ap (◌∷◌ l) i.joined;
    gone = i.gone;
    stops = e;
  }
  put_front-IsSplit true l ls (m ∷ kept, gone) e i = record {
    joined = ap (◌∷◌ l) i.joined;
    gone = i.gone;
    stops = i.stops;
  }
  put_front-IsSplit false l ls (m ∷ kept, gone) e i = record {
    joined = ap (◌∷◌ l) i.joined;
    gone = i.gone;
    stops = i.stops;
  }

  pub split_back-IsSplit : (ls : List Bytes) → IsSplit ls (split_back p ls)
  unfolding split_back
  split_back-IsSplit [] = record { joined = refl; gone = tt; stops = tt }
  split_back-IsSplit (l ∷ ls) =
      put_front-IsSplit (p l) l ls (split_back p ls) refl (split_back-IsSplit ls)

-- The first line, if there is one, is not blank.
abbrev pub PlainFirst : List Bytes → Type 0
PlainFirst [] = Unit {0}
PlainFirst (l ∷ ls) = blank_line l ≡ false

-- Blank lines at the front are dropped, all of them.
pub skip_blank-append :
    (ls : List Bytes)
    → (gone : List Bytes) × (gone ++ skip_blank ls ≡ ls)
      × All (Passes blank_line) gone
      × PlainFirst (skip_blank ls)
unfolding skip_blank
skip_blank-append [] = ([], refl, tt, tt)
skip_blank-append (l ∷ ls) = elim (Bool-cases (blank_line l)) [
  | inl blank ↦
      let r = skip_blank-append ls in rw blank (l ∷ r.0, ap (◌∷◌ l) r.1, (blank, r.2), r.3)
  | inr other ↦ rw other ([], refl, tt, other)
]

-- The first line, if there is one, is a header of another table.
abbrev pub ForeignFirst : Bytes → List Bytes → Type 0
ForeignFirst name [] = Unit {0}
ForeignFirst name (l ∷ ls) = is_foreign name l ≡ true

-- The lines before the first foreign header.
pub until_foreign-append :
    (name : Bytes) (ls : List Bytes)
    → ((until_foreign name ls).0 ++ (until_foreign name ls).1 ≡ ls)
      × All (λ l. is_foreign name l ≡ false) (until_foreign name ls).0
      × ForeignFirst name (until_foreign name ls).1
unfolding until_foreign
until_foreign-append name [] = (refl, tt, tt)
until_foreign-append name (l ∷ ls) = elim (Bool-cases (is_foreign name l)) [
  | inl foreign ↦ rw foreign (refl, tt, foreign)
  | inr own ↦ let r = until_foreign-append name ls in rw own (ap (◌∷◌ l) r.0, (own, r.1), r.2)
]
