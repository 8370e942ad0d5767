-- ===== src/App/Tests.antt =====
-- One configuration file with two profiles, and one machine.
mod Commands
mod Warnings
mod Sessions
use mcpurl.Prelude.{
  ℕ, ◌≡◌, refl, true, false, List, [], ◌∷◌, ◌++◌, Option, none, some, if◌then◌else◌, map,
}
use mcpurl.Prelude.Bytes.{Bytes, codes, equal, has_prefix}
use mcpurl.Prelude.Space.{trim_space}
use mcpurl.App.Toml.{
  split_after, glue, blank_line, comment_line, blank_or_comment, table_key, is_own, is_foreign,
  splice_profile_block,
}
use mcpurl.App.Toml.RoundTrip.{is_line, splice-appended}

abbrev first_line : Bytes
first_line = codes "[profiles.b]\n"

abbrev url_line : Bytes
url_line = codes "url = \"https://b/mcp\"\n"

abbrev header : Bytes
header = codes "[profiles.a]\n"

abbrev config : Bytes
config = first_line ++ url_line

abbrev block : Bytes
block = glue (codes "\n" ∷ header ∷ url_line ∷ [])

splice-appended_example :
    splice_profile_block (glue (first_line ∷ url_line ∷ []) ++ block) (codes "a") []
    ≡ some (glue (first_line ∷ url_line ∷ []))
unfolding is_line is_own is_foreign blank_line comment_line table_key trim_space equal
    blank_or_comment
splice-appended_example =
    splice-appended (codes "a") (first_line ∷ url_line ∷ []) header (url_line ∷ [])
      (refl, (refl, tt)) (refl, (refl, tt)) refl refl refl (refl, tt) (refl, tt) refl
