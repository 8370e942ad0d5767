-- ===== src/App/Session/Shown.antt =====
-- pkg/app/commands.go: what `show` and `claude-config` print.
pub mod Secrets
use mcpurl.Prelude.{
  ℕ, zero, suc, ◌-◌, Bool, true, false, not, ◌&&◌, List, [], ◌∷◌, ◌++◌, Option, none, some, ◌==◌,
  leb, ltb, if◌then◌else◌,
}
use mcpurl.Prelude.Bytes.{Bytes, codes, is_empty}
use mcpurl.Prelude.Lists.{length}
use mcpurl.Prelude.Space.{join}
use mcpurl.Oauth.Login.{Browser}
use mcpurl.Oauth.Types.{Registration}
use mcpurl.Oauth.Flow.Monad.{Outside, Flow}
use mcpurl.Oauth.Flow.Monad
use mcpurl.Oauth.Flow.Entry.{registration}
use mcpurl.App.Profile.{
  Profile, Profiles, Platform, Checked, ok, wrong, overlay, find_profile, get_profile, resolve,
}
use mcpurl.App.Install.{Machine}
use mcpurl.App.Install.Commands.{host_label}
use mcpurl.App.Session.{flow_for, new_flow}
use mcpurl.App.Session.Names.{sorted_keys}

-- The characters of a text in UTF-8.
unfoldable pub runes : Bytes → ℕ
runes [] = 0
runes (c ∷ s) = let rest = runes s in if leb 128 c && ltb c 192 then rest else suc rest

unfoldable pub spaces : ℕ → Bytes
spaces zero = []
spaces (suc n) = b' ' ∷ spaces n

-- `%-20s`; names are UTF-8, as TOML is.
unfoldable pub padded : ℕ → Bytes → Bytes
unfolding runes spaces
padded n s = s ++ spaces (n - runes s)

-- A line "label text", where there is something to say.
abbrev pub line_if : Bool → Bytes → Bytes → Bytes
line_if there label text = if there then label ++ (text ++ codes "\n") else []

module _ (m : Machine) (b : Browser) (digest : Bytes → Bytes) where
  listed_url : Option Profile → Bytes
  listed_url none = []
  listed_url (some p) = p.url

  unfoldable pub list_lines : Profiles → List Bytes → Bytes
  unfolding padded listed_url
  list_lines cfg [] = []
  list_lines cfg (n ∷ ns) =
      codes "@"
      ++ (padded 20 n
          ++ (codes " " ++ (listed_url (find_profile cfg n) ++ (codes "\n" ++ list_lines cfg ns))))

  module _ (o : Outside) (date_of : Registration → Bytes) where
    dynamic : Registration → Bytes
    dynamic r =
        codes "clientID:     "
        ++ (r.client_id ++ (codes " (registered dynamically " ++ (date_of r ++ codes ")\n")))

    dynamic_line : Monad.Result (Option Registration) → Bytes
    unfolding dynamic
    dynamic_line (Monad.ok (some r)) = dynamic r
    dynamic_line (Monad.ok none) = []
    dynamic_line (Monad.err e) = []

    -- The client_id, configured or registered; a registration is looked up in the second case only.
    unfoldable pub client_line : Profile → o.State → Bytes × o.State
    unfolding dynamic_line
    client_line p s =
        if not (is_empty p.client_id)
        then (codes "clientID:     " ++ (p.client_id ++ codes "\n"), s)
        else (let (r, f) =
              registration o (flow_for m.platform b digest p) (new_flow m.platform b digest o s) in
            (dynamic_line r, f.outside))

    -- The lines below the client_id; of the headers only the names.
    unfoldable pub other_lines : Profile → Bytes
    unfolding sorted_keys
    other_lines p =
        line_if (not (is_empty p.issuer)) (codes "issuer:       ") p.issuer
        ++ (line_if (not (p.callback_port == 0)) (codes "callbackPort: ")
              (m.decimal p.callback_port)
            ++ (line_if (not (is_empty p.scopes)) (codes "scopes:       ")
                  (join (codes ", ") p.scopes)
                ++ (line_if (not (is_empty p.bearer_env)) (codes "bearerEnv:    ")
                      (p.bearer_env ++ codes " (value not shown)")
                    ++ line_if (not (is_empty p.headers)) (codes "headers:      ")
                        (join (codes ", ") (sorted_keys p.headers)))))

    shown : o.State → Checked Profile → Checked Bytes × o.State
    unfolding client_line other_lines
    shown s (wrong e) = (wrong e, s)
    shown s (ok p) =
        let (line, t) = client_line p s in
        (
          ok (
              codes "profile:      @"
              ++ (p.name
                  ++ (codes "\nurl:          "
                      ++ (p.url ++ (codes "\n" ++ (line ++ other_lines p)))))),
          t,
        )

    -- `Show`, with what it writes.
    unfoldable pub show : Profiles → Bytes → o.State → Checked Bytes × o.State
    unfolding list_lines shown get_profile sorted_keys
    show cfg name s =
        if is_empty name
        then if is_empty cfg
          then (ok (codes "no profiles in " ++ (m.config_path ++ codes "\n")), s)
          else (ok (list_lines cfg (sorted_keys cfg)), s)
        else shown s (get_profile cfg name)

  -- U+2014
  abbrev dash : Bytes
  dash = 0xe2 ∷ 0x80 ∷ 0x94 ∷ []

  snippet : Bytes → Bytes → Bytes → Bytes
  snippet name arg url =
      codes "# Claude Desktop / Cursor / Windsurf (stdio bridge):\n{\n  \"mcpServers\": {\n    "
      ++ (m.quoted name
          ++ (codes ": {\n      \"command\": \"mcpurl\",\n      \"args\": ["
              ++ (m.quoted arg
                  ++ (codes "]\n    }\n  }\n}\n# Claude Code (no bridge needed "
                      ++ (dash
                          ++ (codes " connects directly):\n#   claude mcp add --transport http "
                              ++ (name ++ (codes " " ++ (url ++ codes "\n")))))))))

  rendered : Bytes → Bytes → Checked Profile → Checked Bytes
  unfolding snippet host_label
  rendered target name (wrong e) = wrong e
  rendered target name (ok p) = ok (
      snippet (overlay name (overlay p.name (host_label m p.url)))
        (if is_empty p.name then target else b'@' ∷ p.name) p.url)

  -- `ClaudeConfig`, with what it writes.
  unfoldable pub claude_config : Profiles → Bytes → Bytes → Checked Bytes
  unfolding rendered resolve
  claude_config cfg target name = rendered target name (resolve m.platform cfg target)
