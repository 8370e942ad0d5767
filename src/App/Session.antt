-- ===== src/App/Session.antt =====
-- pkg/app/app.go and commands.go: `New`, and how one `App` wires the profile with the token flow,
-- the token store and the bridge. slog and what it writes are left out but for the warnings.
pub mod Names
pub mod Static
pub mod Peers
pub mod Shown
pub mod Logout
use mcpurl.Prelude.{
  ℕ, ◌*◌, Bool, true, false, not, ◌||◌, List, [], ◌∷◌, ◌++◌, Option, none, some, if◌then◌else◌, map,
}
use mcpurl.Prelude.Bytes.{Bytes, codes, is_empty}
use mcpurl.Prelude.Lists.{take}
use mcpurl.Mcp.Http.{Headers}
use mcpurl.Oauth.Login.{Browser, redirect_uri}
use mcpurl.Oauth.Flow.Monad.{Outside, Config, Error, Flow, Result, ok, err}
use mcpurl.Oauth.Flow.Entry.{token, login, forget}
use mcpurl.App.Profile.{
  Profile, Profiles, Options, Platform, Problem, Checked, ok, wrong, named, overlay, bare_profile,
  find_profile, resolve_profile, bearer_from_env, build_headers,
}
use mcpurl.App.Install.{Machine}
use mcpurl.App.Session.Names.{sorted_keys}

-- `App` as far as its commands read it.
pub record App : Type 0 where
  pub options : Options
  pub profiles : Profiles
  pub profile : Profile
  pub headers : Headers

-- What `New` gives: the configuration may be unreadable.
pub data Started : Type 0 where
  no_config : Started
  refused : Problem → Started
  started : App → Started

-- `mcp.TokenProvider`: a static bearer, none, or the flow of a profile.
pub data Provider : Type 0 where
  fixed : Bytes → Provider
  nobody : Provider
  oauth : Config → Provider

-- How `Login` and `AccessToken` end; `static_auth_set` is `ErrStaticAuth`.
pub data Outcome : Type 0 where
  static_auth_set none_to_print : Outcome
  given : Bytes → Outcome
  failed : Error → Outcome

-- A line for the user, or a warning about a profile.
pub data Line : Type 0 where
  said : Bytes → Line
  warned : Bytes → Error → Line

module _ (m : Machine) where
  under_home : Option Bytes → Bytes
  under_home none = codes "config.toml"
  under_home (some home) =
      m.join_path (home ∷ codes ".config" ∷ codes "mcpurl" ∷ codes "config.toml" ∷ [])

  -- `DefaultPath`
  unfoldable pub default_path : Bytes
  unfolding under_home
  default_path = overlay (m.platform.getenv (codes "MCPURL_CONFIG")) (under_home m.home)

  parsed : Option Profiles → Option Profiles
  parsed none = none
  parsed (some ps) = some (named ps)

  read_config : (Bytes → Option Profiles) → Bytes → Option Bytes → Option Profiles
  unfolding parsed
  read_config unmarshal path none = some []
  read_config unmarshal path (some text) = if m.may_read path then parsed (unmarshal text) else none

  -- `Load`, none where it fails; `unmarshal` is toml.Unmarshal.
  unfoldable pub load : (Bytes → Option Profiles) → Bytes → (Bytes → Option Bytes) → Option Profiles
  unfolding read_config default_path
  load unmarshal path files =
      let at = overlay path default_path in read_config unmarshal at (files at)

module _ (os : Platform) where
  with_headers : Profiles → Options → Profile → Checked Headers → Started
  with_headers cfg opts p (wrong e) = refused e
  with_headers cfg opts p (ok h) =
      started (record { options = opts; profiles = cfg; profile = p; headers = h })

  on_profile : Profiles → Options → Checked Profile → Started
  unfolding with_headers
  on_profile cfg opts (wrong e) = refused e
  on_profile cfg opts (ok p) = with_headers cfg opts p (build_headers os p opts)

  -- `New` behind `Load`; without a target the profile stays empty.
  unfoldable pub new_app : Option Profiles → Options → Started
  unfolding on_profile
  new_app none opts = no_config
  new_app (some cfg) opts =
      if is_empty opts.target
      then started
          (record { options = opts; profiles = cfg; profile = bare_profile []; headers = [] })
      else on_profile cfg opts (resolve_profile os cfg opts)

-- `staticAuth`
unfoldable pub static_auth : App → Bool
static_auth a = not (is_empty a.profile.bearer_env) || a.options.no_oauth

-- `Key`; `digest` is SHA-256 in hexadecimal digits.
unfoldable pub key : (Bytes → Bytes) → Bytes → Bytes → Bytes
key digest canonical_url client_id = take 16 (digest (canonical_url ++ (0 ∷ client_id)))

module _ (os : Platform) (b : Browser) (digest : Bytes → Bytes) where
  -- `flowFor`
  unfoldable pub flow_for : Profile → Config
  unfolding key
  flow_for p = record {
    endpoint = p.url;
    issuer = p.issuer;
    client_id = p.client_id;
    scopes = p.scopes;
    redirect_uri = redirect_uri b p.callback_port;
    key_of = key digest;
  }

  -- `tokenProvider`
  unfoldable pub token_provider : App → Provider
  token_provider a =
      if not (is_empty a.profile.bearer_env)
      then fixed (bearer_from_env os a.profile.bearer_env)
      else if a.options.no_oauth
      then nobody
      else oauth (flow_for a.profile)

  module _ (o : Outside) where
    -- A `Flow` that was just built.
    abbrev pub new_flow : o.State → Flow o
    new_flow s = record {
      cached = none;
      reg = none;
      last_refreshed = [];
      last_logged_in = [];
      disco = none;
      outside = s;
      calls = [];
    }

    outcome : Result Bytes → Outcome
    outcome (ok t) = given t
    outcome (err e) = failed e

    abbrev ended : Result Bytes × Flow o → Outcome × o.State
    unfolding outcome
    ended (r, f) = (outcome r, f.outside)

    -- `Login`, with the access token of what it returns.
    unfoldable pub app_login :
        (Bytes → o.State → Bytes × o.State) → App → o.State → Outcome × o.State
    unfolding outcome
    app_login probe a s =
        if static_auth a
        then (static_auth_set, s)
        else ended (login o (flow_for a.profile) probe (new_flow s))

    pub first_token : Provider → o.State → Outcome × o.State
    unfolding outcome
    first_token (fixed t) s = (given t, s)
    first_token nobody s = (none_to_print, s)
    first_token (oauth cfg) s = ended (token o cfg [] [] (new_flow s))

    -- `AccessToken`
    unfoldable pub access_token : App → o.State → Outcome × o.State
    unfolding first_token
    access_token a s = first_token (token_provider a) s

    abbrev said_if : Bool → Bytes → Bytes → List Line
    said_if dropped text url = if dropped then said (text ++ (url ++ codes "\n")) ∷ [] else []

    pub dropped_lines : Profile → Result (Bool × Bool) → List Line
    dropped_lines p (err e) = warned p.name e ∷ []
    dropped_lines p (ok (had, registered)) =
        said_if had (codes "dropped tokens for ") p.url
        ++ said_if registered (codes "dropped client registration for ") p.url

    -- `dropTokens`
    unfoldable pub drop_tokens : Profile → o.State → List Line × o.State
    unfolding dropped_lines forget
    drop_tokens p s =
        if is_empty p.url
        then ([], s)
        else (let (r, f) = forget o (flow_for p) (new_flow s) in (dropped_lines p r, f.outside))

    -- `Logout`
    abbrev pub app_logout : App → o.State → List Line × o.State
    app_logout a s = drop_tokens a.profile s

    pub drop_stored : Option Profile → o.State → List Line × o.State
    unfolding drop_tokens
    drop_stored none s = ([], s)
    drop_stored (some p) s = drop_tokens p s

    unfoldable pub drop_each : Profiles → List Bytes → o.State → List Line × o.State
    unfolding drop_stored
    drop_each cfg [] s = ([], s)
    drop_each cfg (n ∷ ns) s =
        let (said_now, t) = drop_stored (find_profile cfg n) s in
        let (more, u) = drop_each cfg ns t in (said_now ++ more, u)

    -- `LogoutAll`, where `wipe` is `oauth.WipeFiles`.
    unfoldable pub app_logout_all : (o.State → o.State) → App → o.State → List Line × o.State
    unfolding drop_each sorted_keys
    app_logout_all wipe a s =
        let (lines, t) = drop_each a.profiles (sorted_keys a.profiles) s in (lines, wipe t)
