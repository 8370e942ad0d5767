-- ===== src/App/Toml/Cuts.antt =====
-- Where the lines of a text are cut at a profile's section.
use mcpurl.Prelude.{
  ◌≡◌, refl, sym, ap, ◌∙◌, Bool, true, false, ◌||◌, List, [], ◌∷◌, ◌++◌, Option, none, some,
  if◌then◌else◌, inl, inr, Bool-cases, Option-cases, arith, subst,
}
use mcpurl.Prelude.Bytes.{Bytes, codes, is_empty, has_prefix}
use mcpurl.Prelude.Space.{trim_space}
use mcpurl.Prelude.Lists.{All}
use mcpurl.App.Toml.{
  blank_line, comment_line, blank_or_comment, bracketed, table_key, split_back, put_front, is_own,
  is_foreign, until_foreign, Cut, cut, below_line,
}
use mcpurl.App.Toml.Lines.{ForeignFirst, until_foreign-append}

-- A line that is not a header of the profile, and one that is not a header of another table.
abbrev pub NotOwn : Bytes → Bytes → Type 0
NotOwn name l = is_own name l ≡ false

abbrev pub NotForeign : Bytes → Bytes → Type 0
NotForeign name l = is_foreign name l ≡ false

pub record IsCut (name : Bytes) (ls : List Bytes) (c : Cut) : Type 0 where
  pub joined : ls ≡ c.above ++ ((c.header ∷ c.body) ++ c.below)
  pub first : All (NotOwn name) c.above
  pub own : is_own name c.header ≡ true
  pub inside : All (NotForeign name) c.body
  pub next : ForeignFirst name c.below

abbrev pub CutOf : Bytes → List Bytes → Option Cut → Type 0
CutOf name ls none = All (NotOwn name) ls
CutOf name ls (some c) = IsCut name ls c

below_line-CutOf :
    (name l : Bytes) (ls : List Bytes) (c : Option Cut)
    → NotOwn name l
    → CutOf name ls c
    → CutOf name (l ∷ ls) (below_line l c)
below_line-CutOf name l ls none h i = (h, i)
below_line-CutOf name l ls (some c) h i = record {
  joined = ap (◌∷◌ l) i.joined;
  first = (h, i.first);
  own = i.own;
  inside = i.inside;
  next = i.next;
}

pub cut-CutOf : (name : Bytes) (ls : List Bytes) → CutOf name ls (cut name ls)
unfolding cut
cut-CutOf name [] = tt
cut-CutOf name (l ∷ ls) = elim (Bool-cases (is_own name l)) [
  | inl own ↦
      let u = until_foreign-append name ls in
      subst (CutOf name (l ∷ ls))
        (ap
          (λ b.
            if b
            then some (record {
              above = [];
              header = l;
              body = (until_foreign name ls).0;
              below = (until_foreign name ls).1;
            })
            else below_line l (cut name ls))
          (sym own))
        (record {
          joined = ap (◌∷◌ l) (sym (u.0));
          first = tt;
          own = own;
          inside = u.1;
          next = u.2;
        })
  | inr other ↦ rw other (below_line-CutOf name l ls (cut name ls) other (cut-CutOf name ls))
]

-- A header is neither blank nor a comment.
bracketed-plain :
    (t key : Bytes) → bracketed t ≡ some key → (is_empty t || has_prefix t (codes "#")) ≡ false
unfolding bracketed has_prefix
bracketed-plain [] key h = absurd (ground (arith, h))
bracketed-plain (c ∷ s) key h = ground (arith, h)

pub is_own-plain : (name l : Bytes) → is_own name l ≡ true → blank_or_comment l ≡ false
unfolding is_own blank_or_comment blank_line comment_line table_key
is_own-plain name l h = elim (Option-cases (table_key l)) [
  | inl missing ↦ absurd (ground (arith, h, missing))
  | inr (key, is) ↦ bracketed-plain (trim_space l) key is
]

module _ (p : Bytes → Bool) (h : Bytes) (plain : p h ≡ false) where
  put_front-plain :
      (r : List Bytes × List Bytes) (b : Bool) → b ≡ false → put_front b h r ≡ (h ∷ r.0, r.1)
  unfolding put_front
  put_front-plain ([], gone) true e = absurd (ground (arith, e))
  put_front-plain ([], gone) false e = refl
  put_front-plain (m ∷ kept, gone) true e = refl
  put_front-plain (m ∷ kept, gone) false e = refl

  put_front-more :
      (b : Bool) (g : Bytes) (kept gone : List Bytes) (l : Bytes)
      → put_front b g (l ∷ kept, gone) ≡ (g ∷ l ∷ kept, gone)
  unfolding put_front
  put_front-more true g kept gone l = refl
  put_front-more false g kept gone l = refl

  put_front-onto :
      (b : Bool) (x : Bytes) (g k gone : List Bytes)
      → put_front b x (g ++ (h ∷ k), gone) ≡ (x ∷ (g ++ (h ∷ k)), gone)
  put_front-onto b x [] k gone = put_front-more b x k gone h
  put_front-onto b x (y ∷ ys) k gone = put_front-more b x (ys ++ (h ∷ k)) gone y

  -- Nothing before a line that does not pass is split off.
  pub split_back-plain :
      (g t : List Bytes)
      → split_back p (g ++ (h ∷ t)) ≡ (g ++ (h ∷ (split_back p t).0), (split_back p t).1)
  unfolding split_back
  split_back-plain [] t = put_front-plain (split_back p t) (p h) plain
  split_back-plain (x ∷ g) t =
      ap (put_front (p x) x) (split_back-plain g t)
      ∙ put_front-onto (p x) x g (split_back p t).0 (split_back p t).1
