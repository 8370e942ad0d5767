-- ===== src/App/Session/Static.antt =====
-- A static bearer or `--no-oauth`: the commands that ask for a token leave OAuth alone.
use mcpurl.Prelude.{
  ◌≡◌, ◌⊎◌, refl, true, false, not, ◌||◌, [], ◌∷◌, Option, none, some, inl, inr, Bool-cases, arith,
  subst,
}
use mcpurl.Prelude.Bytes.{Bytes, is_empty}
use mcpurl.Mcp.Http.{Headers}
use mcpurl.Oauth.Login.{Browser}
use mcpurl.Oauth.Flow.Monad.{Outside}
use mcpurl.App.Profile.{
  Profile, Profiles, Options, Platform, Checked, ok, wrong, resolve_profile, bearer_from_env,
  build_headers,
}
use mcpurl.App.Profile.Resolved.{Judged, resolve_profile-Judged}
use mcpurl.App.Session.{
  App, Started, started, static_auth_set, none_to_print, given, with_headers, on_profile, new_app,
  static_auth, token_provider, app_login, first_token, access_token,
}

module _ (os : Platform) (b : Browser) (digest : Bytes → Bytes) (o : Outside) where
  -- What `AccessToken` does: it gives the variable's value, which is not empty, or has no token to
  -- give, and calls nothing outside.
  abbrev pub Printed : o.State → App → Type 0
  Printed s a =
      ((access_token os b digest o a s ≡ (none_to_print, s)) × (a.profile.bearer_env ≡ []))
      ⊎ ((access_token os b digest o a s ≡ (given (bearer_from_env os a.profile.bearer_env), s))
          × (is_empty (bearer_from_env os a.profile.bearer_env) ≡ false))

  abbrev pub Spared : (Bytes → o.State → Bytes × o.State) → o.State → App → Type 0
  Spared probe s a = (app_login os b digest o probe a s ≡ (static_auth_set, s)) × Printed s a

  abbrev pub Settled : (Bytes → o.State → Bytes × o.State) → o.State → Started → Type 0
  Settled probe s (started a) = (static_auth a ≡ false) ⊎ Spared probe s a
  Settled probe s r = Unit {0}

  module _ (probe : Bytes → o.State → Bytes × o.State) (s : o.State) where
    login-static :
        (a : App) → static_auth a ≡ true → app_login os b digest o probe a s ≡ (static_auth_set, s)
    unfolding app_login
    login-static a e = rw e refl

    none_given :
        (a : App)
        → a.profile.bearer_env ≡ []
        → static_auth a ≡ true
        → access_token os b digest o a s ≡ (none_to_print, s)
    unfolding access_token token_provider static_auth first_token
    none_given a blank e =
        rw blank (rw (subst (λ n. (not (is_empty n) || a.options.no_oauth) ≡ true) blank e) refl)

    bearer_given :
        (a : App)
        → is_empty a.profile.bearer_env ≡ false
        → access_token os b digest o a s ≡ (given (bearer_from_env os a.profile.bearer_env), s)
    unfolding access_token token_provider first_token
    bearer_given a named = rw named refl

    empty_is : (l : Bytes) → is_empty l ≡ true → l ≡ []
    empty_is [] e = refl
    empty_is (c ∷ l) e = absurd (ground (arith, e))

    -- An `App` whose bearer variable is set, if it has one.
    held-Settled :
        (a : App)
        → (a.profile.bearer_env ≡ []) ⊎ (is_empty (bearer_from_env os a.profile.bearer_env) ≡ false)
        → Settled probe s (started a)
    held-Settled a h = elim (Bool-cases (static_auth a)) [
      | inr flow ↦ inl flow
      | inl set ↦ inr (
        login-static a set,
        elim (Bool-cases (is_empty a.profile.bearer_env)) [
          | inl blank ↦ let e = empty_is a.profile.bearer_env blank in inl (none_given a e set, e)
          | inr named ↦ inr (
            bearer_given a named,
            elim h [
              | inl unnamed ↦ absurd (ground (arith, subst (λ n. is_empty n ≡ false) unnamed named))
              | inr full ↦ full
            ],
          )
        ],
      )
    ]

    with_headers-Settled :
        (cfg : Profiles) (opts : Options) (p : Profile) (h : Checked Headers)
        → (p.bearer_env ≡ []) ⊎ (is_empty (bearer_from_env os p.bearer_env) ≡ false)
        → Settled probe s (with_headers os cfg opts p h)
    unfolding with_headers
    with_headers-Settled cfg opts p (wrong e) held = tt
    with_headers-Settled cfg opts p (ok h) held =
        held-Settled (record { options = opts; profiles = cfg; profile = p; headers = h }) held

    on_profile-Settled :
        (cfg : Profiles) (opts : Options) (r : Checked Profile)
        → Judged os cfg opts r
        → Settled probe s (on_profile os cfg opts r)
    unfolding on_profile
    on_profile-Settled cfg opts (wrong e) j = tt
    on_profile-Settled cfg opts (ok p) j =
        with_headers-Settled cfg opts p (build_headers os p opts) j.token

    -- Where an `App` that New gives has static authentication, Login refuses without a call outside,
    -- and so does AccessToken where there is no bearer variable; where there is one, AccessToken
    -- gives its value without a call outside, and this value is never empty.
    pub new_app-Settled :
        (cfg : Option Profiles) (opts : Options) → Settled probe s (new_app os cfg opts)
    unfolding new_app
    new_app-Settled none opts = tt
    new_app-Settled (some cfg) opts = elim (Bool-cases (is_empty opts.target)) [
      | inl bare ↦ rw bare (held-Settled _ (inl refl))
      | inr aimed ↦ rw aimed (
          on_profile-Settled cfg opts (resolve_profile os cfg opts)
            (resolve_profile-Judged os cfg opts))
    ]
