-- ===== src/App/Tests/Warnings.antt =====
-- An uninstall for one client, where the file of another one still names the profile.
use mcpurl.Prelude.{◌≡◌, refl, true, [], ◌∷◌, ◌↔◌, Option, none, some, if◌then◌else◌}
use mcpurl.Prelude.Bytes.{Bytes, codes, equal}
use mcpurl.Prelude.Space.{join, trim_space}
use mathlib.Core.List.{Memᴰ}
use mcpurl.App.Entries.{Members, empty, member, object, text, server_entry, servers_key}
use mcpurl.App.Install.{Machine, State}
use mcpurl.App.Install.Warnings.{
  not_ours, still_names, own_binary, warn_other_clients, uninstall_warnings,
}
use mcpurl.App.Install.Warnings.Dangling.{Dangling, warn_other_clients-Dangling}
use mcpurl.App.Tests.Commands.{machine, profiles}

abbrev shared : Members
shared =
    member servers_key
      (object (
        member (codes "work") (server_entry (codes "/usr/bin/mcpurl") (codes "acme")) (
          member (codes "home") (server_entry (codes "/usr/bin/mcpurl") (codes "acme")) (
            member (codes "acme") (object (member (codes "command") (text (codes "npx")) empty))
              empty))))
      empty

abbrev desk : Machine
desk = record machine { decode = λ s. some (some shared) }

abbrev cursor_file : Bytes
cursor_file = codes "/home/u/.cursor/mcp.json"

abbrev windsurf_file : Bytes
windsurf_file = codes "/home/u/.codeium/windsurf/mcp_config.json"

abbrev files : Bytes → Option Bytes
files path =
    if equal path cursor_file
    then some (codes "{}")
    else if equal path windsurf_file
    then some (codes "{}")
    else if equal path desk.config_path
    then some (codes "[profiles.acme]\nurl = \"https://a/mcp\"\n")
    else none

abbrev in_use : State
in_use = record { profiles = profiles; files = files; dropped = [] }

warns :
    warn_other_clients desk (codes "cursor") (codes "acme") in_use
    ≡ still_names (codes "windsurf") (codes "home") (codes "acme") windsurf_file
      ∷ still_names (codes "windsurf") (codes "work") (codes "acme") windsurf_file
      ∷ []
unfolding warn_other_clients join trim_space
warns = refl

-- The entry that goes starts another program.
warns-uninstall :
    uninstall_warnings desk (λ s. s) (codes "cursor") (codes "@acme") in_use
    ≡ not_ours (codes "acme") (codes "npx") cursor_file
      ∷ still_names (codes "windsurf") (codes "home") (codes "acme") windsurf_file
      ∷ still_names (codes "windsurf") (codes "work") (codes "acme") windsurf_file
      ∷ []
unfolding uninstall_warnings join
warns-uninstall = refl

ours : own_binary desk (λ s. s) (codes "mcpurl.exe") ≡ true
unfolding own_binary equal
ours = refl

warn_other_clients-Dangling_example :
    Memᴰ
      (still_names (codes "windsurf") (codes "home") (codes "acme") windsurf_file)
      (warn_other_clients desk (codes "cursor") (codes "acme") in_use)
    ↔ Dangling desk
        (codes "cursor")
        (codes "acme")
        in_use
        (still_names (codes "windsurf") (codes "home") (codes "acme") windsurf_file)
warn_other_clients-Dangling_example =
    warn_other_clients-Dangling desk (codes "cursor") (codes "acme") in_use
      (still_names (codes "windsurf") (codes "home") (codes "acme") windsurf_file)
