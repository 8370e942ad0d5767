-- ===== src/App/Toml/Surgical.antt =====
-- Which bytes of config.toml a rewrite of one profile's block touches.
use mcpurl.Prelude.{◌≡◌, true, false, ◌&&◌, List, [], ◌∷◌, ◌++◌, Option, none, some, ◌⊎◌}
use mcpurl.Prelude.Bytes.{Bytes, is_empty}
use mcpurl.Prelude.Lists.{All}
use mcpurl.App.Toml.{
  split_after, glue, blank_line, blank_or_comment, split_back, is_own, Cut, ended,
}
use mcpurl.App.Toml.Cuts.{NotOwn, NotForeign, IsCut}
use mcpurl.App.Toml.Lines.{Passes, Stops, PlainFirst, ForeignFirst}

-- What stands in place of the lines `tail` behind a section: all of them, but for the blank ones at
-- their front where neither a line above nor a block stands before them.
pub record Kept (above : List Bytes) (block : Bytes) (tail after : List Bytes) : Type 0 where
  pub skipped : List Bytes
  pub joined : skipped ++ after ≡ tail
  pub blank : All (Passes blank_line) skipped
  pub top :
      (((is_empty above && is_empty block) ≡ false) × (skipped ≡ []))
      ⊎ (((is_empty above && is_empty block) ≡ true) × PlainFirst after)

-- `out` is `src` with the profile's section and the blank lines above it replaced by `block`. The
-- section goes from the first header of the profile to the last line that is neither blank nor a
-- comment before the next table, or before the end.
pub record IsSurgical (src name block out : Bytes) : Type 0 where
  pub above : List Bytes
  pub gap : List Bytes
  pub header : Bytes
  pub body : List Bytes
  pub between : List Bytes
  pub below : List Bytes
  pub after : List Bytes
  pub whole : src ≡ glue ((above ++ gap) ++ ((header ∷ body) ++ (between ++ below)))
  pub result : out ≡ ended (glue above ++ (block ++ glue after))
  pub first : All (NotOwn name) above
  pub above_stops : Stops blank_line above
  pub gap_blank : All (Passes blank_line) gap
  pub own : is_own name header ≡ true
  pub inside : All (NotForeign name) body
  pub stops : Stops blank_or_comment (header ∷ body)
  pub between_plain : All (Passes blank_or_comment) between
  pub next : ForeignFirst name below
  pub kept : Kept above block (between ++ below) after

module _ (name block : Bytes) (ls : List Bytes) (c : Cut) (i : IsCut name ls c) where
  abbrev up : List Bytes × List Bytes
  up = split_back blank_line c.above

  abbrev down : List Bytes × List Bytes
  down = split_back blank_or_comment c.body

-- What `spliceProfileBlock` promises: without a section of the profile nothing is replaced.
abbrev pub Splices : Bytes → Bytes → Bytes → Option Bytes → Type 0
Splices src name block none = All (NotOwn name) (split_after src)
Splices src name block (some out) = IsSurgical src name block out
