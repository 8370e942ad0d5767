-- ===== src/App/Profile/Resolved.antt =====
-- What a resolved profile is sure to be, and what an error says.
use mcpurl.Prelude.{
  ◌≡◌, ◌⊎◌, refl, sym, Bool, true, false, not, ◌||◌, List, [], ◌∷◌, ◌++◌, Option, none, some,
  if◌then◌else◌, inl, inr, Bool-cases, Option-cases, arith, subst,
}
use mcpurl.Prelude.Bytes.{Bytes, codes, equal, is_empty, trim_first}
use mcpurl.Oauth.Discovery.{Url}
use mcpurl.App.Profile.{
  Profile, Options, Platform, Problem, empty_target, bad_url, unknown_profile, not_a_target, no_url,
  plain_http, bearer_unset, Checked, ok, wrong, Profiles, find_profile, found_or, get_profile,
  overlay, overlay_port, bare_profile, is_http_url, on_stored, resolve, bearer_from_env,
  is_loopback, scheme_problem, check_scheme, overlaid, after_scheme, on_target, resolve_profile,
}

module _ (os : Platform) where
  -- Where the URL comes from: the target itself, or a profile that is stored under its name.
  abbrev pub Origin : Profiles → Bytes → Profile → Type 0
  Origin cfg target p =
      ((is_http_url os target ≡ true) × (p ≡ bare_profile target))
      ⊎ ((is_http_url os target ≡ false)
          × (find_profile cfg (trim_first b'@' target) ≡ some p)
          × (is_empty p.url ≡ false))

  -- A profile that may be used: its fields are those of the flags where these are given and those
  -- of the origin elsewhere; plain http goes to a loopback host only, unless it is allowed; the
  -- variable that it names for a bearer token is set.
  pub record IsUsable (cfg : Profiles) (opts : Options) (p : Profile) : Type 0 where
    pub base : Profile
    pub origin : Origin cfg opts.target base
    pub same_url : p.url ≡ base.url
    pub same_headers : p.headers ≡ base.headers
    pub client_id : p.client_id ≡ overlay opts.client_id base.client_id
    pub scopes : p.scopes ≡ overlay opts.scopes base.scopes
    pub port : p.callback_port ≡ overlay_port opts.callback_port base.callback_port
    pub issuer : p.issuer ≡ overlay opts.issuer base.issuer
    pub bearer : p.bearer_env ≡ overlay opts.bearer_env base.bearer_env
    pub parsed : Url
    pub parses : os.parse p.url ≡ some parsed
    pub safe :
        (equal parsed.scheme (codes "http") ≡ false)
        ⊎ ((opts.allow_http ≡ true) ⊎ (is_loopback os (os.hostname parsed) ≡ true))
    pub token : (p.bearer_env ≡ []) ⊎ (is_empty (bearer_from_env os p.bearer_env) ≡ false)

  -- What the problems mean; the others do not occur.
  abbrev pub Meant : Profiles → Options → Problem → Type 0
  Meant cfg opts empty_target = trim_first b'@' opts.target ≡ []
  Meant cfg opts bad_url = (p : Profile) × (Origin cfg opts.target p × (os.parse p.url ≡ none))
  Meant cfg opts (not_a_target n) =
      (is_http_url os opts.target ≡ false)
      × (find_profile cfg n ≡ none)
      × (n ≡ trim_first b'@' opts.target)
  Meant cfg opts (no_url n) =
      (p : Profile) × ((find_profile cfg (trim_first b'@' opts.target) ≡ some p)
        × (p.name ≡ n)
        × (p.url ≡ []))
  Meant cfg opts (plain_http host) =
      (p : Profile) × (u : Url) × Origin cfg opts.target p
      × (os.parse p.url ≡ some u)
      × (equal u.scheme (codes "http") ≡ true)
      × (host ≡ os.hostname u)
      × (opts.allow_http ≡ false)
      × (is_loopback os host ≡ false)
  Meant cfg opts (bearer_unset n) =
      (p : Profile) × Origin cfg opts.target p
      × (n ≡ overlay opts.bearer_env p.bearer_env)
      × (is_empty n ≡ false)
      × (os.getenv (codes "MY_" ++ n) ≡ [])
      × (os.getenv n ≡ [])
  Meant cfg opts _ = ⊥

  abbrev pub Judged : Profiles → Options → Checked Profile → Type 0
  Judged cfg opts (ok p) = IsUsable cfg opts p
  Judged cfg opts (wrong e) = Meant cfg opts e

  abbrev Resolves : Profiles → Options → Checked Profile → Type 0
  Resolves cfg opts (ok p) = Origin cfg opts.target p
  Resolves cfg opts (wrong e) = Meant cfg opts e

  empty_is : {A : Type 0} (l : List A) → is_empty l ≡ true → l ≡ []
  empty_is [] e = refl
  empty_is (x ∷ l) e = absurd (ground (arith, e))

  on_stored-Resolves :
      (cfg : Profiles) (opts : Options) (o : Option Profile)
      → is_http_url os opts.target ≡ false
      → find_profile cfg (trim_first b'@' opts.target) ≡ o
      → Resolves cfg opts
          (on_stored os opts.target (found_or (unknown_profile (trim_first b'@' opts.target)) o))
  unfolding on_stored found_or
  on_stored-Resolves cfg opts none h e = (h, e, refl)
  on_stored-Resolves cfg opts (some p) h e = elim (Bool-cases (is_empty p.url)) [
    | inl blank ↦ rw blank (p, (e, refl, empty_is p.url blank))
    | inr given ↦ rw given (inr (h, e, given))
  ]

  resolve-Resolves :
      (cfg : Profiles) (opts : Options) → Resolves cfg opts (resolve os cfg opts.target)
  unfolding resolve get_profile
  resolve-Resolves cfg opts = elim (Bool-cases (is_http_url os opts.target)) [
    | inl url ↦ rw url (inl (url, refl))
    | inr name ↦ rw name (elim (Bool-cases (is_empty (trim_first b'@' opts.target))) [
      | inl none_left ↦ rw none_left (empty_is (trim_first b'@' opts.target) none_left)
      | inr some_left ↦
          rw some_left
            (on_stored-Resolves cfg opts (find_profile cfg (trim_first b'@' opts.target)) name refl)
    ])
  ]

  module _ (cfg : Profiles) (opts : Options) (base : Profile) where
    abbrev over : Profile
    over = overlaid os opts base

    abbrev Safe : Url → Type 0
    Safe u =
        (equal u.scheme (codes "http") ≡ false)
        ⊎ ((opts.allow_http ≡ true) ⊎ (is_loopback os (os.hostname u) ≡ true))

    safe_if : (h a l : Bool) → (not h || a || l) ≡ true → (h ≡ false) ⊎ ((a ≡ true) ⊎ (l ≡ true))
    safe_if h a l e = ground (arith, e)

    unsafe_if : (h a l : Bool) → (not h || a || l) ≡ false → (h ≡ true) × (a ≡ false) × (l ≡ false)
    unsafe_if h a l e = ground (arith, e)

    Held : Type 0
    Held = (over.bearer_env ≡ []) ⊎ (is_empty (bearer_from_env os over.bearer_env) ≡ false)

    usable :
        (u : Url)
        → Origin cfg opts.target base
        → os.parse base.url ≡ some u
        → Safe u
        → Held
        → IsUsable cfg opts over
    unfolding overlaid Held
    usable u o e safe t = record {
      base = base;
      origin = o;
      same_url = refl;
      same_headers = refl;
      client_id = refl;
      scopes = refl;
      port = refl;
      issuer = refl;
      bearer = refl;
      parsed = u;
      parses = e;
      safe = safe;
      token = t;
    }

    unset :
        (n : Bytes)
        → is_empty (bearer_from_env os n) ≡ true
        → (os.getenv (codes "MY_" ++ n) ≡ []) × (os.getenv n ≡ [])
    unfolding bearer_from_env
    unset n e = elim (Bool-cases (is_empty (os.getenv (codes "MY_" ++ n)))) [
      | inl first ↦ (
        empty_is (os.getenv (codes "MY_" ++ n)) first,
        empty_is (os.getenv n) (
            subst (λ b. is_empty (if b then os.getenv n else os.getenv (codes "MY_" ++ n)) ≡ true)
              first e),
      )
      | inr given ↦ absurd (
          ground (
            arith,
            given,
            subst (λ b. is_empty (if b then os.getenv n else os.getenv (codes "MY_" ++ n)) ≡ true)
                given e,
          ))
    ]

    bearer-Judged :
        (u : Url)
        → Origin cfg opts.target base
        → os.parse base.url ≡ some u
        → Safe u
        → Judged cfg opts (after_scheme os over none)
    unfolding after_scheme Held overlaid
    bearer-Judged u o e safe = elim (Bool-cases (is_empty over.bearer_env)) [
      | inl no_name ↦ rw no_name (usable u o e safe (inl (empty_is over.bearer_env no_name)))
      | inr named ↦ rw named (elim (Bool-cases (is_empty (bearer_from_env os over.bearer_env))) [
        | inl missing ↦
            let (first, second) = unset over.bearer_env missing in
            rw missing (base, o, refl, named, first, second)
        | inr there ↦ rw there (usable u o e safe (inr there))
      ])
    ]

    parsed-Judged :
        (u : Url)
        → Origin cfg opts.target base
        → os.parse base.url ≡ some u
        → Judged cfg opts (after_scheme os over (scheme_problem os opts.allow_http (some u)))
    unfolding after_scheme scheme_problem
    parsed-Judged u o e =
        let h = equal u.scheme (codes "http") in
        let l = is_loopback os (os.hostname u) in
        elim (Bool-cases (not h || opts.allow_http || l)) [
          | inl fine ↦ rw fine (bearer-Judged u o e (safe_if h opts.allow_http l fine))
          | inr bad ↦
              let (plain, forbidden, far) = unsafe_if h opts.allow_http l bad in
              rw bad (base, u, o, e, plain, refl, forbidden, far)
        ]

    after_scheme-Judged :
        Origin cfg opts.target base
        → Judged cfg opts (after_scheme os over (check_scheme os over.url opts.allow_http))
    unfolding check_scheme scheme_problem overlaid after_scheme
    after_scheme-Judged o = elim (Option-cases (os.parse base.url)) [
      | inl unparsed ↦
          subst (λ r. Judged cfg opts (after_scheme os over (scheme_problem os opts.allow_http r)))
            (sym unparsed) (base, (o, unparsed))
      | inr (u, e) ↦
          subst (λ r. Judged cfg opts (after_scheme os over (scheme_problem os opts.allow_http r)))
            (sym e) (parsed-Judged u o e)
    ]

  on_target-Judged :
      (cfg : Profiles) (opts : Options) (r : Checked Profile)
      → Resolves cfg opts r
      → Judged cfg opts (on_target os opts r)
  unfolding on_target
  on_target-Judged cfg opts (ok p) o = after_scheme-Judged cfg opts p o
  on_target-Judged cfg opts (wrong e) m = m

  pub resolve_profile-Judged :
      (cfg : Profiles) (opts : Options) → Judged cfg opts (resolve_profile os cfg opts)
  unfolding resolve_profile
  resolve_profile-Judged cfg opts =
      on_target-Judged cfg opts (resolve os cfg opts.target) (resolve-Resolves cfg opts)
