-- ===== src/App/Install/Warnings.antt =====
-- pkg/app/install.go: what `uninstall` warns about: an entry that mcpurl did not write, and entries of
-- the other clients that name the profile that went.
pub mod Keys
pub mod Dangling
use mcpurl.Prelude.{Bool, not, ◌&&◌, List, [], ◌∷◌, ◌++◌, Option, none, some, if◌then◌else◌, ◌-◌}
use mcpurl.Prelude.Lists.{length, take}
use mcpurl.Prelude.Bytes.{Bytes, codes, equal, is_empty, has_prefix, has_suffix, trim_first}
use mcpurl.App.Profile.{Profile, find_profile}
use mcpurl.App.Entries.{
  Value, text, Members, empty, member, as_object, lookup, servers, entry_profile,
}
use mcpurl.App.Install.{
  Machine, State, Trouble, Loaded, absent, refused, loaded, load_client_config, path_under,
}
use mcpurl.App.Install.Block.{edit_profile_block}
use mcpurl.App.Install.Commands.{Removed, referenced, remove_server_entry}
use mcpurl.App.Session.Names.{inserted}

abbrev pub known_clients : List Bytes
known_clients = codes "claude-desktop" ∷ codes "cursor" ∷ codes "windsurf" ∷ []

-- A line on stderr: of an entry, its command and its file; of a client, an entry, the profile that it
-- names and its file.
pub data Warning : Type 0 where
  not_ours : Bytes → Bytes → Bytes → Warning
  still_names : Bytes → Bytes → Bytes → Bytes → Warning

abbrev as_text : Option Value → Bytes
as_text (some (text s)) = s
as_text _ = []

-- `entryCommand`
unfoldable pub entry_command : Option Value → Bytes
unfolding lookup
entry_command entry = as_text (lookup (codes "command") (as_object entry))

-- `strings.TrimSuffix`
trim_end : Bytes → Bytes → Bytes
unfolding has_prefix
trim_end s p = if has_suffix s p then take (length s - length p) s else s

-- `slices.Sorted(maps.Keys(servers))`
unfoldable pub keys : Members → List Bytes
unfolding inserted
keys empty = []
keys (member k v m) = inserted k (keys m)

-- The warnings for the entries of one file, in the order of their names.
unfoldable pub naming : Bytes → Bytes → Bytes → Members → List Bytes → List Warning
unfolding lookup entry_profile equal
naming client prof path ms [] = []
naming client prof path ms (k ∷ l) =
    let rest = naming client prof path ms l in
    if equal (entry_profile (lookup k ms)) prof then still_names client k prof path ∷ rest else rest

-- The map of a document; that of `null` is nil, and holds nothing.
abbrev pub root_of : Option Members → Members
root_of none = empty
root_of (some root) = root

module _ (m : Machine) where
  -- `clientConfigPath`, none where it fails.
  unfoldable pub config_of : Option Bytes → Bytes → Option Bytes
  unfolding path_under
  config_of none client = none
  config_of (some home) client = path_under m home client

  unfoldable pub of_document : Bytes → Bytes → Bytes → Loaded m → List Warning
  unfolding naming keys servers
  of_document client prof path absent = []
  of_document client prof path (refused e) = []
  of_document client prof path (loaded root original) =
      let ms = servers (root_of root) in naming client prof path ms (keys ms)

  unfoldable pub of_path : Bytes → Bytes → State → Option Bytes → List Warning
  unfolding of_document load_client_config
  of_path client prof s none = []
  of_path client prof s (some path) =
      of_document client prof path (load_client_config m path (s.files path))

  unfoldable pub of_clients : Bytes → Bytes → State → List Bytes → List Warning
  unfolding of_path config_of equal
  of_clients skip prof s [] = []
  of_clients skip prof s (c ∷ cs) =
      (if equal c skip then [] else of_path c prof s (config_of m.home c))
      ++ of_clients skip prof s cs

  -- `warnOtherClients`
  unfoldable pub warn_other_clients : Bytes → Bytes → State → List Warning
  unfolding of_clients
  warn_other_clients skip prof s = of_clients skip prof s known_clients

-- `base` is `filepath.Base`.
module _ (m : Machine) (base : Bytes → Bytes) where
  -- `ownBinary`
  unfoldable pub own_binary : Bytes → Bool
  unfolding trim_end
  own_binary cmd = equal (trim_end (base cmd) (codes ".exe")) (codes "mcpurl")

  foreign : Bytes → Bytes → Option Value → List Warning
  unfolding own_binary entry_command
  foreign name path entry =
      let cmd = entry_command entry in
      if not (is_empty cmd) && not (own_binary cmd) then not_ours name cmd path ∷ [] else []

  -- The profile is out of config.toml, unless that failed.
  after_block : Bytes → Bytes → Option Trouble × State → List Warning
  unfolding warn_other_clients
  after_block client prof (some e, s) = []
  after_block client prof (none, s) = warn_other_clients m client prof s

  of_profile : Bytes → Bytes → State → Option Profile → List Warning
  unfolding after_block edit_profile_block
  of_profile client prof s none = []
  of_profile client prof s (some p) = after_block client prof (edit_profile_block m prof [] s)

  of_removed : Bytes → Bytes → Bytes → Removed m → List Warning
  unfolding foreign of_profile entry_profile find_profile
  of_removed client name path (entry, (some e, s)) = []
  of_removed client name path (entry, (none, s)) =
      let prof = referenced m name (entry_profile entry) in
      foreign name path entry ++ of_profile client prof s (find_profile s.profiles prof)

  at_path : Bytes → Bytes → State → Option Bytes → List Warning
  unfolding of_removed remove_server_entry
  at_path client name s none = []
  at_path client name s (some path) =
      of_removed client name path (remove_server_entry m path name s)

  -- What `Uninstall` warns about, in order, but for the warnings of `dropTokens`.
  unfoldable pub uninstall_warnings : Bytes → Bytes → State → List Warning
  unfolding at_path config_of trim_first
  uninstall_warnings client name s =
      at_path client (trim_first b'@' name) s (config_of m m.home client)
