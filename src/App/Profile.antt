-- ===== src/App/Profile.antt =====
-- pkg/app/profile.go and the resolution in pkg/app/app.go: a target and the flags become a profile.
-- The table of profiles is an association list; ports are not negative.
pub mod Resolved
pub mod Marker
use mcpurl.Prelude.{
  ℕ, Bool, true, false, not, ◌&&◌, ◌||◌, List, [], ◌∷◌, ◌++◌, Option, none, some, ◌==◌,
  if◌then◌else◌,
}
use mcpurl.Prelude.Bytes.{Bytes, codes, equal, is_empty, trim_first}
use mcpurl.Prelude.Space.{trim_space}
use mcpurl.Oauth.Discovery.{Url}
use mcpurl.Mcp.Http.{Headers, canonical, set, add}

-- `Profile`; the headers are a map by name.
pub record Profile : Type 0 where
  pub name : Bytes
  pub url : Bytes
  pub client_id : Bytes
  pub callback_port : ℕ
  pub scopes : List Bytes
  pub issuer : Bytes
  pub bearer_env : Bytes
  pub headers : List (Bytes × Bytes)

-- `Options`, but for the timeout, the verbosity and the version.
pub record Options : Type 0 where
  pub target : Bytes
  pub client_id : Bytes
  pub scopes : List Bytes
  pub callback_port : ℕ
  pub issuer : Bytes
  pub headers : List Bytes
  pub bearer_env : Bytes
  pub no_oauth : Bool
  pub no_keychain : Bool
  pub no_sse : Bool
  pub allow_http : Bool

-- net/url, the environment and `os.ExpandEnv`; `getenv` gives "" for an unset variable.
pub record Platform : Type 0 where
  pub parse : Bytes → Option Url
  pub hostname : Url → Bytes
  pub is_loopback_ip : Bytes → Bool
  pub getenv : Bytes → Bytes
  pub expand_env : Bytes → Bytes

-- What can be wrong with a target, a flag or a header.
pub data Problem : Type 0 where
  empty_target bad_url : Problem
  unknown_profile not_a_target no_url plain_http bearer_unset bad_header : Bytes → Problem

pub data Checked (A : Type 0) : Type 0 where
  ok : A → Checked A
  wrong : Problem → Checked A

abbrev pub Profiles : Type 0
Profiles = List (Bytes × Profile)

unfoldable pub find_profile : Profiles → Bytes → Option Profile
find_profile [] name = none
find_profile ((n, p) ∷ ps) name =
    let rest = find_profile ps name in if equal n name then some p else rest

unfoldable pub found_or : Problem → Option Profile → Checked Profile
found_or e none = wrong e
found_or e (some p) = ok p

-- `Config.Get`
unfoldable pub get_profile : Profiles → Bytes → Checked Profile
unfolding find_profile found_or trim_first
get_profile cfg name =
    let n = trim_first b'@' name in found_or (unknown_profile n) (find_profile cfg n)

-- The profiles as `Load` leaves them, each with the name of its section.
abbrev pub named : Profiles → Profiles
named [] = []
named ((n, p) ∷ ps) = (n, record p { name = n }) ∷ named ps

-- A value that a flag gives, else the one that is there.
abbrev pub overlay : {A : Type 0} → List A → List A → List A
overlay flag old = if is_empty flag then old else flag

abbrev pub overlay_port : ℕ → ℕ → ℕ
overlay_port flag old = if flag == 0 then old else flag

-- `Profile{}` with a URL.
abbrev pub bare_profile : Bytes → Profile
bare_profile url = record {
  name = [];
  url = url;
  client_id = [];
  callback_port = 0;
  scopes = [];
  issuer = [];
  bearer_env = [];
  headers = [];
}

module _ (os : Platform) where
  http_url : Option Url → Bool
  http_url none = false
  http_url (some u) =
      not (is_empty u.host) && (equal u.scheme (codes "http") || equal u.scheme (codes "https"))

  -- `isHTTPURL`
  unfoldable pub is_http_url : Bytes → Bool
  unfolding http_url
  is_http_url target = http_url (os.parse target)

  unfoldable pub on_stored : Bytes → Checked Profile → Checked Profile
  on_stored target (wrong e) = wrong (not_a_target (trim_first b'@' target))
  on_stored target (ok p) = if is_empty p.url then wrong (no_url p.name) else ok p

  -- `Config.Resolve`
  unfoldable pub resolve : Profiles → Bytes → Checked Profile
  unfolding is_http_url on_stored get_profile trim_first
  resolve cfg target =
      if is_http_url target
      then ok (bare_profile target)
      else if is_empty (trim_first b'@' target)
      then wrong empty_target
      else on_stored target (get_profile cfg target)

  -- `BearerFromEnv`
  unfoldable pub bearer_from_env : Bytes → Bytes
  bearer_from_env name = overlay (os.getenv (codes "MY_" ++ name)) (os.getenv name)

  unfoldable pub is_loopback : Bytes → Bool
  is_loopback host = equal host (codes "localhost") || os.is_loopback_ip host

  scheme_problem : Bool → Option Url → Option Problem
  scheme_problem allow_http none = some bad_url
  scheme_problem allow_http (some u) =
      if not (equal u.scheme (codes "http")) || allow_http || is_loopback (os.hostname u)
      then none
      else some (plain_http (os.hostname u))

  -- `checkScheme`, none where it returns nil.
  unfoldable pub check_scheme : Bytes → Bool → Option Problem
  unfolding scheme_problem
  check_scheme raw allow_http = scheme_problem allow_http (os.parse raw)

  -- The flags over the stored profile.
  unfoldable pub overlaid : Options → Profile → Profile
  overlaid opts p = record p {
    client_id = overlay opts.client_id p.client_id;
    scopes = overlay opts.scopes p.scopes;
    callback_port = overlay_port opts.callback_port p.callback_port;
    issuer = overlay opts.issuer p.issuer;
    bearer_env = overlay opts.bearer_env p.bearer_env;
  }

  after_scheme : Profile → Option Problem → Checked Profile
  unfolding bearer_from_env
  after_scheme p (some e) = wrong e
  after_scheme p none =
      if not (is_empty p.bearer_env) && is_empty (bearer_from_env p.bearer_env)
      then wrong (bearer_unset p.bearer_env)
      else ok p

  on_target : Options → Checked Profile → Checked Profile
  unfolding after_scheme check_scheme overlaid
  on_target opts (wrong e) = wrong e
  on_target opts (ok p) =
      let q = overlaid opts p in after_scheme q (check_scheme q.url opts.allow_http)

  -- `resolveProfile`
  unfoldable pub resolve_profile : Profiles → Options → Checked Profile
  unfolding on_target resolve
  resolve_profile cfg opts = on_target opts (resolve cfg opts.target)

  -- `strings.Cut` at a colon.
  unfoldable pub cut_at_colon : Bytes → Option (Bytes × Bytes)
  cut_at_colon [] = none
  cut_at_colon (c ∷ s) =
      let rest = cut_at_colon s in
      if c == b':' then some ([], s) else elim rest [ none ↦ none | some (k, v) ↦ some (c ∷ k, v) ]

  -- `ExpandHeaders`, and `Set` for each pair.
  unfoldable pub set_expanded : List (Bytes × Bytes) → Headers → Headers
  set_expanded [] h = h
  set_expanded ((k, v) ∷ l) h = set_expanded l (set (canonical k) (os.expand_env v) h)

  add_pair :
      (Headers → Checked Headers) → Bytes → Headers → Option (Bytes × Bytes) → Checked Headers
  add_pair rest kv h none = wrong (bad_header kv)
  add_pair rest kv h (some (k, v)) = rest (add (trim_space k) (os.expand_env (trim_space v)) h)

  unfoldable pub add_flags : List Bytes → Headers → Checked Headers
  unfolding add_pair cut_at_colon
  add_flags [] h = ok h
  add_flags (kv ∷ l) h = add_pair (add_flags l) kv h (cut_at_colon kv)

  -- `buildHeaders`
  unfoldable pub build_headers : Profile → Options → Checked Headers
  unfolding set_expanded add_flags
  build_headers p opts = add_flags opts.headers (set_expanded p.headers [])
