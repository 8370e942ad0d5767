-- ===== src/App/Toml.antt =====
-- pkg/app/tomledit.go: a profile's block in config.toml is replaced or dropped as text. The indices
-- `start` and `end` into the lines are places where the list of lines is split. Lines are taken as
-- valid UTF-8, which the TOML reader asks for: a loop over runes goes byte by byte.
pub mod Lines
pub mod Cuts
pub mod Surgical
pub mod RoundTrip
use mcpurl.Prelude.{
  ℕ, Bool, true, false, not, ◌&&◌, ◌||◌, List, [], ◌∷◌, ◌++◌, Option, none, some, ◌==◌,
  if◌then◌else◌,
}
use mcpurl.Prelude.Bytes.{Bytes, codes, equal, is_empty, has_prefix, has_suffix}
use mcpurl.Prelude.Space.{trim_space}

onto_first : ℕ → List Bytes → List Bytes
onto_first c [] = (c ∷ []) ∷ []
onto_first c (l ∷ ls) = (c ∷ l) ∷ ls

-- `strings.SplitAfter(src, "\n")`
unfoldable pub split_after : Bytes → List Bytes
unfolding onto_first
split_after [] = [] ∷ []
split_after (c ∷ s) =
    let rest = split_after s in if c == b'\n' then (c ∷ []) ∷ rest else onto_first c rest

-- `strings.Join(lines, "")`
abbrev pub glue : List Bytes → Bytes
glue [] = []
glue (l ∷ ls) = l ++ glue ls

-- `blankLine`
unfoldable pub blank_line : Bytes → Bool
unfolding trim_space
blank_line line = is_empty (trim_space line)

-- `commentLine`
unfoldable pub comment_line : Bytes → Bool
unfolding trim_space has_prefix
comment_line line = has_prefix (trim_space line) (codes "#")

-- The part before the first such byte, none where there is no such byte.
unfoldable pub before_byte : ℕ → Bytes → Option Bytes
before_byte c [] = none
before_byte c (x ∷ s) =
    let rest = before_byte c s in
    if x == c then some [] else elim rest [ none ↦ none | some r ↦ some (x ∷ r) ]

inner_key : Bytes → Option Bytes
unfolding before_byte trim_space
inner_key s = elim (before_byte b']' s) [ none ↦ none | some inner ↦ some (trim_space inner) ]

bracketed : Bytes → Option Bytes
unfolding inner_key
bracketed [] = none
bracketed (c ∷ s) = let inner = inner_key s in if c == b'[' then inner else none

-- `tableKey`
unfoldable pub table_key : Bytes → Option Bytes
unfolding bracketed trim_space
table_key line = bracketed (trim_space line)

-- Where the loop of `splitTOMLKey` stands: the open quote, 0 where there is none, the part so far
-- and the part that a dot has just ended.
pub record Key : Type 0 where
  pub quote : ℕ
  pub cur : Bytes
  pub part : List Bytes

unfoldable pub key_step : ℕ → Bytes → ℕ → Key
unfolding trim_space
key_step quote cur r =
    if not (quote == 0)
    then (if r == quote
        then record { quote = 0; cur = cur; part = [] }
        else record { quote = quote; cur = cur ++ (r ∷ []); part = [] })
    else if r == b'"' || r == b'\''
    then record { quote = r; cur = cur; part = [] }
    else if r == b'.'
    then record { quote = 0; cur = []; part = trim_space cur ∷ [] }
    else record { quote = 0; cur = cur ++ (r ∷ []); part = [] }

unfoldable pub split_key_from : ℕ → Bytes → Bytes → List Bytes
unfolding trim_space key_step
split_key_from quote cur [] = trim_space cur ∷ []
split_key_from quote cur (r ∷ s) =
    let k = key_step quote cur r in k.part ++ split_key_from k.quote k.cur s

-- `splitTOMLKey`
unfoldable pub split_toml_key : Bytes → List Bytes
unfolding split_key_from
split_toml_key = split_key_from 0 []

unfoldable pub second_is : Bytes → List Bytes → Bool
second_is name (a ∷ b ∷ _) = equal a (codes "profiles") && equal b name
second_is name _ = false

-- `profileSection`
unfoldable pub profile_section : Bytes → Bytes → Bool
unfolding split_toml_key second_is
profile_section key name = second_is name (split_toml_key key)

-- A table header that addresses the profile, and one that does not.
unfoldable pub is_own : Bytes → Bytes → Bool
unfolding table_key profile_section
is_own name line = elim (table_key line) [ none ↦ false | some key ↦ profile_section key name ]

unfoldable pub is_foreign : Bytes → Bytes → Bool
unfolding table_key profile_section
is_foreign name line = elim (table_key line) [
  | none ↦ false
  | some key ↦ not (profile_section key name)
]

-- The lines before a profile's section, the section from its first header to the next table that
-- is not the profile's, and the lines from that table on.
pub record Cut : Type 0 where
  pub above : List Bytes
  pub header : Bytes
  pub body : List Bytes
  pub below : List Bytes

-- The lines up to the first foreign header, and the others.
unfoldable pub until_foreign : Bytes → List Bytes → List Bytes × List Bytes
unfolding is_foreign
until_foreign name [] = ([], [])
until_foreign name (l ∷ ls) =
    let rest = until_foreign name ls in
    if is_foreign name l then ([], l ∷ ls) else (l ∷ rest.0, rest.1)

abbrev pub below_line : Bytes → Option Cut → Option Cut
below_line l none = none
below_line l (some c) = some (record c { above = l ∷ c.above })

-- The loop over the lines, up to the `break`.
unfoldable pub cut : Bytes → List Bytes → Option Cut
unfolding is_own until_foreign
cut name [] = none
cut name (l ∷ ls) =
    let rest = cut name ls in
    let section = until_foreign name ls in
    if is_own name l
    then some (record { above = []; header = l; body = section.0; below = section.1 })
    else below_line l rest

unfoldable pub put_front : Bool → Bytes → List Bytes × List Bytes → List Bytes × List Bytes
put_front true l ([], gone) = ([], l ∷ gone)
put_front false l ([], gone) = (l ∷ [], gone)
put_front pass l (m ∷ kept, gone) = (l ∷ m ∷ kept, gone)

-- A list without the lines at its end that pass, and those lines.
unfoldable pub split_back : (Bytes → Bool) → List Bytes → List Bytes × List Bytes
unfolding put_front
split_back p [] = ([], [])
split_back p (l ∷ ls) = put_front (p l) l (split_back p ls)

unfoldable pub skip_blank : List Bytes → List Bytes
unfolding blank_line
skip_blank [] = []
skip_blank (l ∷ ls) = let rest = skip_blank ls in if blank_line l then rest else l ∷ ls

unfoldable pub blank_or_comment : Bytes → Bool
unfolding blank_line comment_line
blank_or_comment line = blank_line line || comment_line line

-- The text is ended by a newline, unless it is empty.
unfoldable pub ended : Bytes → Bytes
ended out =
    if not (is_empty out) && not (has_suffix out (codes "\n")) then out ++ codes "\n" else out

-- What is left once the block's bounds are known.
unfoldable pub spliced : Bytes → Cut → Bytes
unfolding split_back skip_blank blank_or_comment ended
spliced block c =
    let up = split_back blank_line c.above in
    let down = split_back blank_or_comment (up.1 ++ (c.header ∷ c.body)) in
    let rest = down.1 ++ c.below in
    ended (
      glue (up.0)
      ++ (block ++ glue (if is_empty (up.0) && is_empty block then skip_blank rest else rest)))

-- `spliceProfileBlock`, none where `ok` is false.
unfoldable pub splice_profile_block : Bytes → Bytes → Bytes → Option Bytes
unfolding split_after cut spliced
splice_profile_block src name block = elim (cut name (split_after src)) [
  | none ↦ none
  | some c ↦ some (spliced block c)
]
