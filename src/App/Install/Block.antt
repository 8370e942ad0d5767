-- ===== src/App/Install/Block.antt =====
-- The text of a profile's block, and how it gets into config.toml.
pub mod Backup
use mcpurl.Prelude.{
  ℕ, List, [], ◌∷◌, ◌++◌, Option, none, some, ◌==◌, if◌then◌else◌, map, String, get_or,
}
use mcpurl.Prelude.Bytes.{Bytes, codes, is_empty}
use mcpurl.Prelude.Space.{join}
use mcpurl.App.Toml.{glue, splice_profile_block}
use mcpurl.App.Profile.{Profile}
use mcpurl.App.Install.{
  Machine, State, Result, unreadable, not_a_section, write_file, replace_config,
}

module _ (m : Machine) where
  abbrev newline : Bytes
  newline = codes "\n"

  -- A `key = %q` line for a setting that is given.
  setting : String → Bytes → List Bytes
  setting key v = if is_empty v then [] else (codes key ++ (m.quoted v ++ newline)) ∷ []

  port_line : ℕ → List Bytes
  port_line port =
      if port == 0 then [] else (codes "callbackPort = " ++ (m.decimal port ++ newline)) ∷ []

  scopes_line : List Bytes → List Bytes
  scopes_line [] = []
  scopes_line (s ∷ l) =
      (codes "scopes = [" ++ (join (codes ", ") (map m.quoted (s ∷ l)) ++ codes "]\n")) ∷ []

  header_lines : List (Bytes × Bytes) → List Bytes
  header_lines [] = []
  header_lines ((k, v) ∷ l) =
      (codes "  " ++ (m.quoted k ++ (codes " = " ++ (m.quoted v ++ newline)))) ∷ header_lines l

  headers_block : Bytes → List (Bytes × Bytes) → List Bytes
  unfolding header_lines
  headers_block name [] = []
  headers_block name (h ∷ l) =
      newline
      ∷ (codes "  [profiles." ++ (name ++ codes ".headers]\n"))
      ∷ header_lines (m.by_key (h ∷ l))

  unfoldable pub header_of : Bytes → Bytes
  header_of name = codes "[profiles." ++ (name ++ codes "]\n")

  unfoldable pub settings_of : Bytes → Profile → List Bytes
  unfolding setting port_line scopes_line headers_block
  settings_of name p =
      (codes "url = " ++ (m.quoted p.url ++ newline))
      ∷ (setting "clientID = " p.client_id
          ++ (port_line p.callback_port
              ++ (scopes_line p.scopes
                  ++ (setting "issuer = " p.issuer
                      ++ (setting "bearerEnv = " p.bearer_env ++ headers_block name p.headers)))))

  -- `profileTOML`
  unfoldable pub profile_toml : Bytes → Profile → Bytes
  unfolding header_of settings_of
  profile_toml name p = glue (newline ∷ header_of name ∷ settings_of name p)

  -- `appendProfile`
  unfoldable pub append_profile : Bytes → State → Result
  unfolding write_file
  append_profile block s = write_file m m.config_path (get_or [] (s.files m.config_path) ++ block) s

  rewritten : Bytes → Bytes → State → Option Bytes → Result
  unfolding replace_config
  rewritten name original s none = (some (not_a_section name), s)
  rewritten name original s (some out) = replace_config m m.config_path (some original) out s

  on_config : Bytes → Bytes → State → Option Bytes → Result
  unfolding rewritten splice_profile_block
  on_config name block s none = (some (unreadable m.config_path), s)
  on_config name block s (some original) =
      if m.may_read m.config_path
      then rewritten name original s (splice_profile_block original name block)
      else (some (unreadable m.config_path), s)

  -- `editProfileBlock`
  unfoldable pub edit_profile_block : Bytes → Bytes → State → Result
  unfolding on_config
  edit_profile_block name block s = on_config name block s (s.files m.config_path)
