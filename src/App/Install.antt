-- ===== src/App/Install.antt =====
-- pkg/app/install.go: `install` and `uninstall` on the files of a machine. What is printed is left
-- out; atomicfile.Write appears as one write that succeeds or changes nothing.
pub mod Block
pub mod Commands
pub mod Warnings
use mcpurl.Prelude.{
  ℕ, Bool, true, false, not, ◌&&◌, ◌||◌, List, [], ◌∷◌, ◌++◌, Option, none, some, ◌==◌,
  if◌then◌else◌, get_or,
}
use mcpurl.Prelude.Bytes.{Bytes, codes, equal, is_empty, trim_first}
use mcpurl.Prelude.Space.{trim_space, join}
use mcpurl.Oauth.Discovery.{Url}
use mcpurl.App.Toml.{splice_profile_block}
use mcpurl.App.Profile.{Profile, Platform, Profiles, find_profile, overlay, overlay_port}
use mcpurl.App.Entries.{
  Value, Members, empty, lookup, servers, upserted, deleted, server_entry, entry_profile,
}

-- The machine: which files may be read and written, the environment, and what encoding/json,
-- path/filepath and fmt do. `decode` gives none for invalid JSON and an inner none for `null`;
-- `quoted` is the verb %q, `decimal` the verb %d, and `by_key` sorts headers by their names.
pub record Machine : Type 0 where
  pub platform : Platform
  pub may_read : Bytes → Bool
  pub may_write : Bytes → Bool
  pub home : Option Bytes
  pub goos : Bytes
  pub join_path : List Bytes → Bytes
  pub executable : Option Bytes
  pub config_path : Bytes
  pub decode : Bytes → Option (Option Members)
  pub encode : Members → Option Bytes
  pub quoted : Bytes → Bytes
  pub decimal : ℕ → Bytes
  pub by_key : List (Bytes × Bytes) → List (Bytes × Bytes)

-- Why a command fails; `crashed` is a write to a nil map.
pub data Trouble : Type 0 where
  no_home no_executable unencodable nothing_to_remove crashed : Trouble
  unknown_client unreadable unwritable invalid_json not_a_section : Bytes → Trouble

-- `App` as these commands change it; `dropped` lists the calls of `dropTokens`.
pub record State : Type 0 where
  pub profiles : Profiles
  pub files : Bytes → Option Bytes
  pub dropped : List Profile

abbrev pub Result : Type 0
Result = Option Trouble × State

unfoldable pub with_file : Bytes → Bytes → (Bytes → Option Bytes) → Bytes → Option Bytes
with_file path content files q = if equal path q then some content else files q

unfoldable pub set_profile : Bytes → Profile → Profiles → Profiles
set_profile name p [] = (name, p) ∷ []
set_profile name p ((n, q) ∷ ps) =
    let rest = set_profile name p ps in if equal n name then (n, p) ∷ ps else (n, q) ∷ rest

unfoldable pub delete_profile : Bytes → Profiles → Profiles
delete_profile name [] = []
delete_profile name ((n, q) ∷ ps) =
    let rest = delete_profile name ps in if equal n name then rest else (n, q) ∷ rest

-- `mergeProfile`
unfoldable pub merge_profile : Profile → Profile → Profile
merge_profile old fresh = record old {
  url = fresh.url;
  client_id = overlay fresh.client_id old.client_id;
  scopes = overlay fresh.scopes old.scopes;
  callback_port = overlay_port fresh.callback_port old.callback_port;
  issuer = overlay fresh.issuer old.issuer;
  bearer_env = overlay fresh.bearer_env old.bearer_env;
}

-- `slices.Equal`
unfoldable pub same_list : List Bytes → List Bytes → Bool
unfolding equal
same_list [] [] = true
same_list (s ∷ l) (t ∷ m) = equal s t && same_list l m
same_list _ _ = false

-- `sameProfile`
unfoldable pub same_profile : Profile → Profile → Bool
unfolding same_list
same_profile a b =
    equal a.url b.url
    && equal a.client_id b.client_id
    && a.callback_port == b.callback_port
    && equal a.issuer b.issuer
    && equal a.bearer_env b.bearer_env
    && same_list a.scopes b.scopes

module _ (m : Machine) where
  abbrev claude_file : Bytes
  claude_file = codes "claude_desktop_config.json"

  claude_path : Bytes → Bytes
  claude_path home =
      if equal m.goos (codes "darwin")
      then m.join_path
          (home ∷ codes "Library" ∷ codes "Application Support" ∷ codes "Claude" ∷ claude_file ∷ [])
      else if equal m.goos (codes "windows")
      then m.join_path (m.platform.getenv (codes "APPDATA") ∷ codes "Claude" ∷ claude_file ∷ [])
      else m.join_path (home ∷ codes ".config" ∷ codes "Claude" ∷ claude_file ∷ [])

  unfoldable pub path_under : Bytes → Bytes → Option Bytes
  unfolding claude_path
  path_under home client =
      if equal client (codes "claude-desktop")
      then some (claude_path home)
      else if equal client (codes "cursor")
      then some (m.join_path (home ∷ codes ".cursor" ∷ codes "mcp.json" ∷ []))
      else if equal client (codes "windsurf")
      then some
          (m.join_path (home ∷ codes ".codeium" ∷ codes "windsurf" ∷ codes "mcp_config.json" ∷ []))
      else none

  unfoldable pub on_path : Bytes → (Bytes → Result) → State → Option Bytes → Result
  on_path client go s none = (some (unknown_client client), s)
  on_path client go s (some path) = go path

  unfoldable pub on_home : Bytes → (Bytes → Result) → State → Option Bytes → Result
  unfolding on_path path_under
  on_home client go s none = (some no_home, s)
  on_home client go s (some home) = on_path client go s (path_under home client)

  -- Goes on with the path of `clientConfigPath`.
  unfoldable pub at_client_path : Bytes → (Bytes → Result) → State → Result
  unfolding on_home
  at_client_path client go s = on_home client go s m.home

  -- `atomicfile.Write` and the other writes of a whole file.
  unfoldable pub write_file : Bytes → Bytes → State → Result
  unfolding with_file
  write_file path content s =
      if m.may_write path
      then (none, record s { files = with_file path content s.files })
      else (some (unwritable path), s)

  -- Goes on where there was no error.
  unfoldable pub and_then : Result → (State → Result) → Result
  and_then (some e, s) go = (some e, s)
  and_then (none, s) go = go s

  abbrev pub backup_of : Bytes → Bytes
  backup_of path = path ++ codes ".bak"

  -- `replaceConfig`
  unfoldable pub replace_config : Bytes → Option Bytes → Bytes → State → Result
  unfolding write_file and_then
  replace_config path none content s = write_file path content s
  replace_config path (some original) content s =
      and_then (write_file (backup_of path) original s) (write_file path content)

  -- `loadClientConfig`
  pub data Loaded : Type 0 where
    absent : Loaded
    refused : Trouble → Loaded
    loaded : Option Members → Bytes → Loaded

  decoded : Bytes → Bytes → Option (Option Members) → Loaded
  decoded path original none = refused (invalid_json path)
  decoded path original (some root) = loaded root original

  unfoldable pub load_client_config : Bytes → Option Bytes → Loaded
  unfolding decoded
  load_client_config path none = absent
  load_client_config path (some original) =
      if not (m.may_read path)
      then refused (unreadable path)
      else if is_empty (trim_space original)
      then loaded (some empty) original
      else decoded path original (m.decode original)

  -- From the text that `MarshalIndent` gives; with `dry`, it is only printed.
  unfoldable pub write_encoded : Bool → Bytes → Option Bytes → State → Option Bytes → Result
  unfolding replace_config
  write_encoded dry path original s none = (some unencodable, s)
  write_encoded true path original s (some out) = (none, s)
  write_encoded false path original s (some out) =
      replace_config path original (out ++ codes "\n") s

  -- `writeClientConfig`
  unfoldable pub write_client_config : Bool → Bytes → Members → Option Bytes → State → Result
  unfolding write_encoded
  write_client_config dry path root original s = write_encoded dry path original s (m.encode root)

  unfoldable pub upsert_into : Bool → Bytes → Bytes → Value → State → Loaded → Result
  unfolding write_client_config upserted
  upsert_into dry path name entry s absent =
      write_client_config dry path (upserted name entry empty) none s
  upsert_into dry path name entry s (refused e) = (some e, s)
  upsert_into dry path name entry s (loaded none original) = (some crashed, s)
  upsert_into dry path name entry s (loaded (some root) original) =
      write_client_config dry path (upserted name entry root) (some original) s

  -- `upsertServerEntry`
  unfoldable pub upsert_server_entry : Bool → Bytes → Bytes → Value → State → Result
  unfolding upsert_into load_client_config
  upsert_server_entry dry path name entry s =
      upsert_into dry path name entry s (load_client_config path (s.files path))
