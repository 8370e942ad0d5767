-- ===== src/App/Install/Commands.antt =====
-- The commands `install` and `uninstall`.
pub mod Again
pub mod Dry
use mcpurl.Prelude.{
  ℕ, Bool, true, false, not, ◌&&◌, ◌||◌, List, [], ◌∷◌, ◌++◌, Option, none, some, ◌==◌,
  if◌then◌else◌, is_some,
}
use mcpurl.Prelude.Bytes.{Bytes, codes, equal, is_empty, trim_first}
use mcpurl.Oauth.Discovery.{Url}
use mcpurl.App.Profile.{Profile, Profiles, find_profile, Options}
use mcpurl.App.Entries.{Value, Members, lookup, servers, deleted, server_entry, entry_profile}
use mcpurl.App.Install.{
  Machine, State, Result, no_executable, nothing_to_remove, set_profile, delete_profile,
  merge_profile, same_profile, at_client_path, and_then, Loaded, absent, refused, loaded,
  load_client_config, write_client_config, upsert_server_entry,
}
use mcpurl.App.Install.Block.{profile_toml, append_profile, edit_profile_block}

module _ (m : Machine) where
  abbrev keep_profile : Bytes → Profile → State → Result
  keep_profile name p s = (none, record s { profiles = set_profile name p s.profiles })

  -- A block that is new is appended, another one is replaced.
  save_block : Bytes → Bool → Bytes → State → Result
  unfolding append_profile edit_profile_block
  save_block name true block s = edit_profile_block m name block s
  save_block name false block s = append_profile m block s

  save_profile : Bool → Bytes → Bool → Profile → State → Result
  unfolding save_block profile_toml set_profile and_then
  save_profile dry name exists p s =
      if dry
      then (none, s)
      else and_then m (save_block name exists (profile_toml m name p) s) (keep_profile name p)

  ensured : Bool → Bytes → Profile → State → Option Profile → Result
  unfolding save_profile merge_profile same_profile
  ensured dry name fresh s none = save_profile dry name false (record fresh { name = name }) s
  ensured dry name fresh s (some old) =
      let p = merge_profile old fresh in
      if same_profile old p
      then (none, s)
      else save_profile dry name true (record p { name = name }) s

  -- `ensureProfile`, with the profile that the target and the flags gave.
  unfoldable pub ensure_profile : Bool → Bytes → Profile → State → Result
  unfolding ensured find_profile
  ensure_profile dry name fresh s = ensured dry name fresh s (find_profile s.profiles name)

  first_label : Bytes → Bytes
  first_label [] = []
  first_label (c ∷ s) = let rest = first_label s in if c == b'.' then [] else c ∷ rest

  label_of : Option Url → Bytes
  unfolding first_label
  label_of none = codes "mcp"
  label_of (some u) =
      let h = m.platform.hostname u in if is_empty h then codes "mcp" else first_label h

  -- `hostLabel`
  unfoldable pub host_label : Bytes → Bytes
  unfolding label_of
  host_label raw = label_of (m.platform.parse raw)

  -- The profile that the entry is to name, and whether it still has to be stored.
  unfoldable pub profile_name : Bytes → Profile → Bytes
  unfolding host_label
  profile_name name p =
      if not (is_empty p.name) then p.name else if is_empty name then host_label p.url else name

  store_target : Bool → Bytes → Profile → State → Result
  unfolding ensure_profile
  store_target dry prof_name p s =
      if is_empty p.name then ensure_profile dry prof_name p s else (none, s)

  enter : Bool → Bytes → Bytes → Bytes → State → Option Bytes → Result
  unfolding upsert_server_entry
  enter dry path name prof_name s none = (some no_executable, s)
  enter dry path name prof_name s (some exe) =
      upsert_server_entry m dry path (if is_empty name then prof_name else name)
        (server_entry exe prof_name) s

  -- `Install`
  unfoldable pub install : Bytes → Bytes → Bool → Profile → State → Result
  unfolding at_client_path profile_name store_target enter and_then
  install client name dry p s =
      let prof_name = profile_name name p in
      at_client_path m client
        (λ path.
          and_then m (store_target dry prof_name p s)
            (λ t. enter dry path name prof_name t m.executable))
        s

  -- What `removeServerEntry` returns: the entry that went, none where there was none.
  abbrev pub Removed : Type 0
  Removed = Option Value × Result

  taken_from : Bytes → Bytes → Members → Bytes → State → Option Value → Removed
  unfolding write_client_config deleted
  taken_from path name root original s none = (none, (none, s))
  taken_from path name root original s (some entry) =
      (some entry, write_client_config m false path (deleted name root) (some original) s)

  remove_loaded : Bytes → Bytes → State → Loaded m → Removed
  unfolding taken_from lookup servers
  remove_loaded path name s absent = (none, (none, s))
  remove_loaded path name s (refused e) = (none, (some e, s))
  remove_loaded path name s (loaded none original) = (none, (none, s))
  remove_loaded path name s (loaded (some root) original) =
      taken_from path name root original s (lookup name (servers root))

  -- `removeServerEntry`
  unfoldable pub remove_server_entry : Bytes → Bytes → State → Removed
  unfolding remove_loaded load_client_config
  remove_server_entry path name s =
      remove_loaded path name s (load_client_config m path (s.files path))

  forget : Bytes → Bool → State → Option Profile → Result
  unfolding edit_profile_block delete_profile and_then
  forget name gone s none = (if gone then none else some nothing_to_remove, s)
  forget name gone s (some p) = and_then m (edit_profile_block m name [] s) λ t. (
    none,
    record t { profiles = delete_profile name t.profiles; dropped = t.dropped ++ (p ∷ []) },
  )

  abbrev pub referenced : Bytes → Bytes → Bytes
  referenced name ref = if is_empty ref then name else ref

  after_entry : Bytes → Removed → Result
  unfolding forget entry_profile find_profile
  after_entry name (entry, (some e, s)) = (some e, s)
  after_entry name (entry, (none, s)) =
      let prof = referenced name (entry_profile entry) in
      forget prof (is_some entry) s (find_profile s.profiles prof)

  -- `Uninstall`, up to its warnings.
  unfoldable pub uninstall : Bytes → Bytes → State → Result
  unfolding at_client_path after_entry remove_server_entry trim_first
  uninstall client name s =
      let bare = trim_first b'@' name in
      at_client_path m client (λ path. after_entry bare (remove_server_entry path bare s)) s
