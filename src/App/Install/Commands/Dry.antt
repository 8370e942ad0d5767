-- ===== src/App/Install/Commands/Dry.antt =====
-- An install that only prints.
use mcpurl.Prelude.{◌≡◌, refl, ap, ◌∙◌, true, Option, none, some, if◌then◌else◌, if_both}
use mcpurl.Prelude.Bytes.{Bytes, is_empty}
use mcpurl.App.Profile.{Profile, find_profile}
use mcpurl.App.Entries.{Value, Members, empty, upserted, server_entry}
use mcpurl.App.Install.{
  Machine, State, Result, merge_profile, same_profile, at_client_path, on_path, on_home, path_under,
  and_then, Loaded, absent, refused, loaded, load_client_config, write_client_config, write_encoded,
  upsert_into, upsert_server_entry,
}
use mcpurl.App.Install.Commands.{
  save_profile, ensured, ensure_profile, store_target, enter, install, profile_name,
}

module _ (m : Machine) where
  -- A result that leaves the state as it was.
  abbrev Spares : State → Result → Type 0
  Spares s r = r.1 ≡ s

  ensured-Spares :
      (name : Bytes) (p : Profile) (s : State) (o : Option Profile)
      → Spares s (ensured m true name p s o)
  unfolding ensured save_profile
  ensured-Spares name p s none = refl
  ensured-Spares name p s (some old) =
      if_both (Spares s) (same_profile old (merge_profile old p)) refl refl

  write_encoded-Spares :
      (path : Bytes) (original : Option Bytes) (s : State) (out : Option Bytes)
      → Spares s (write_encoded m true path original s out)
  unfolding write_encoded
  write_encoded-Spares path original s none = refl
  write_encoded-Spares path original s (some out) = refl

  write_client_config-Spares :
      (path : Bytes) (root : Members) (original : Option Bytes) (s : State)
      → Spares s (write_client_config m true path root original s)
  unfolding write_client_config
  write_client_config-Spares path root original s =
      write_encoded-Spares path original s (m.encode root)

  upsert_into-Spares :
      (path name : Bytes) (entry : Value) (s : State) (l : Loaded m)
      → Spares s (upsert_into m true path name entry s l)
  unfolding upsert_into
  upsert_into-Spares path name entry s absent =
      write_client_config-Spares path (upserted name entry empty) none s
  upsert_into-Spares path name entry s (refused e) = refl
  upsert_into-Spares path name entry s (loaded none original) = refl
  upsert_into-Spares path name entry s (loaded (some root) original) =
      write_client_config-Spares path (upserted name entry root) (some original) s

  and_then-Spares :
      (s : State) (r : Result) (go : State → Result)
      → Spares s r
      → Spares s (go s)
      → Spares s (and_then m r go)
  unfolding and_then
  and_then-Spares s (some e, t) go h k = h
  and_then-Spares s (none, t) go h k = ap (λ x. (go x).1) h ∙ k

  enter-Spares :
      (path name prof_name : Bytes) (s : State) (exe : Option Bytes)
      → Spares s (enter m true path name prof_name s exe)
  unfolding enter upsert_server_entry
  enter-Spares path name prof_name s none = refl
  enter-Spares path name prof_name s (some exe) =
      upsert_into-Spares path (if is_empty name then prof_name else name)
        (server_entry exe prof_name) s (load_client_config m path (s.files path))

  store_target-Spares :
      (prof_name : Bytes) (p : Profile) (s : State) → Spares s (store_target m true prof_name p s)
  unfolding store_target ensure_profile
  store_target-Spares prof_name p s =
      if_both (Spares s) (is_empty p.name)
        (ensured-Spares prof_name p s (find_profile s.profiles prof_name)) refl

  on_path-Spares :
      (client : Bytes) (go : Bytes → Result) (s : State) (o : Option Bytes)
      → ((path : Bytes) → Spares s (go path))
      → Spares s (on_path m client go s o)
  unfolding on_path
  on_path-Spares client go s none h = refl
  on_path-Spares client go s (some path) h = h path

  on_home-Spares :
      (client : Bytes) (go : Bytes → Result) (s : State) (o : Option Bytes)
      → ((path : Bytes) → Spares s (go path))
      → Spares s (on_home m client go s o)
  unfolding on_home
  on_home-Spares client go s none h = refl
  on_home-Spares client go s (some home) h = on_path-Spares client go s (path_under m home client) h

  at_client_path-Spares :
      (client : Bytes) (go : Bytes → Result) (s : State)
      → ((path : Bytes) → Spares s (go path))
      → Spares s (at_client_path m client go s)
  unfolding at_client_path
  at_client_path-Spares client go s h = on_home-Spares client go s m.home h

  -- An install with --dry-run writes no file and changes no profile, whether it succeeds or not.
  pub install-Spares :
      (client name : Bytes) (p : Profile) (s : State) → (install m client name true p s).1 ≡ s
  unfolding install
  install-Spares client name p s =
      let prof_name = profile_name m name p in
      at_client_path-Spares client
        (λ path.
          and_then m (store_target m true prof_name p s)
            (λ t. enter m true path name prof_name t m.executable))
        s
        λ path.
          and_then-Spares s (store_target m true prof_name p s)
            (λ t. enter m true path name prof_name t m.executable)
            (store_target-Spares prof_name p s) (enter-Spares path name prof_name s m.executable)
