-- ===== src/Oauth/Login/Exchange.antt =====
-- Which code is exchanged for a token.
use mcpurl.Prelude.{
  ℕ, ◌≡◌, refl, sym, true, List, [], ◌∷◌, Option, none, some, inl, inr, if_both, Bool-cases, arith,
  subst,
}
use mcpurl.Prelude.Bytes.{Bytes, codes, equal, equal_iff, is_empty}
use mcpurl.Mcp.Http.{get}
use mcpurl.Oauth.Types.{Registration, Discovery}
use mcpurl.Oauth.Login.{
  Query, AuthRequest, ExchangeRequest, Browser, Settings, Ended, logged_in, Report, code, failure,
  Trace, callback_port, handle, report, serve, timeout_of, request_of, on_report, on_canonical,
  browser_login,
}

-- Not the end of a login.
abbrev pub NoToken : Ended → Type 0
NoToken (logged_in t) = ⊥
NoToken e = Unit {0}

-- A report of the first callback: its code where it carried the state and no error, else a failure.
abbrev Read : Bytes → Query → Report → Type 0
Read state q (code c) =
    (get (codes "error") q ≡ []) × (get (codes "state") q ≡ state) × (c ≡ get (codes "code") q)
Read state q (failure e) = NoToken e

empty_is : (s : Bytes) → is_empty s ≡ true → s ≡ []
empty_is [] e = refl
empty_is (x ∷ s) e = absurd (ground (arith, e))

handle-Read : (state : Bytes) (q : Query) → Read state q (handle state q).0
unfolding handle
handle-Read state q = elim (Bool-cases (is_empty (get (codes "error") q))) [
  | inr wrong ↦ rw wrong tt
  | inl fine ↦ rw fine (elim (Bool-cases (equal (get (codes "state") q) state)) [
    | inr other ↦ rw other tt
    | inl same ↦ rw same (
      empty_is (get (codes "error") q) fine,
      (equal_iff (get (codes "state") q) state).0 same,
      refl,
    )
  ])
]

serve-kept : (state : Bytes) (r : Report) (qs : List Query) → (serve state (some r) qs).0 ≡ some r
unfolding serve report
serve-kept state r [] = refl
serve-kept state r (q ∷ qs) = serve-kept state r qs

module _ (b : Browser) where
  -- A request to the token endpoint that belongs to the request that was opened and to the first
  -- callback.
  pub record IsBound (a : AuthRequest) (x : ExchangeRequest) : Type 0 where
    pub first : Query
    pub others : List Query
    pub came : b.callbacks a ≡ first ∷ others
    pub no_error : get (codes "error") first ≡ []
    pub state : get (codes "state") first ≡ a.state
    pub same_code : x.code ≡ get (codes "code") first
    pub challenge : a.challenge ≡ b.challenge_of x.verifier
    pub client : x.client_id ≡ a.client_id
    pub redirect : x.redirect_uri ≡ a.redirect_uri
    pub resource : x.resource ≡ a.resource

  abbrev Checked : Option AuthRequest → Option ExchangeRequest → Ended → Type 0
  Checked opened none e = NoToken e
  Checked none (some x) e = ⊥
  Checked (some a) (some x) e = IsBound a x

  abbrev pub IsSafe : Trace → Type 0
  IsSafe t = Checked t.opened t.exchanged t.ended

  timeout-NoToken : (r : Option Registration) → NoToken (timeout_of b r)
  unfolding timeout_of
  timeout-NoToken none = tt
  timeout-NoToken (some r) = tt

  module _ (f : Settings) (d : Discovery) (canonical : Bytes) (scopes : List Bytes) where
    abbrev asked : AuthRequest
    asked = request_of b f d canonical scopes

    read-IsSafe :
        (statuses : List ℕ) (q : Query) (qs : List Query) (r : Report)
        → b.callbacks asked ≡ q ∷ qs
        → Read asked.state q r
        → IsSafe (on_report b f d canonical scopes statuses (some r))
    unfolding on_report
    read-IsSafe statuses q qs (failure e) came h = h
    read-IsSafe statuses q qs (code c) came h = record {
      first = q;
      others = qs;
      came = came;
      no_error = h.0;
      state = h.1;
      same_code = h.2;
      challenge = refl;
      client = refl;
      redirect = refl;
      resource = refl;
    }

    served-IsSafe :
        (statuses : List ℕ) (qs : List Query)
        → b.callbacks asked ≡ qs
        → IsSafe (on_report b f d canonical scopes statuses (serve asked.state none qs).0)
    unfolding serve report on_report
    served-IsSafe statuses [] came = if_both NoToken b.cancelled tt (timeout-NoToken f.registration)
    served-IsSafe statuses (q ∷ qs) came =
        subst (λ s. IsSafe (on_report b f d canonical scopes statuses s))
          (sym (serve-kept asked.state (handle asked.state q).0 qs))
          (read-IsSafe statuses q qs (handle asked.state q).0 came (handle-Read asked.state q))

  -- browserLogin asks the token endpoint only with the code of the first callback that came, which
  -- carried the state of the request that was opened and no error, with the verifier behind that
  -- request's challenge, and with its client, redirect URI and resource; otherwise it ends without a
  -- token.
  pub browser_login-IsSafe :
      (f : Settings) (d : Discovery) (scopes : List Bytes) → IsSafe (browser_login b f d scopes)
  unfolding browser_login on_canonical
  browser_login-IsSafe f d scopes = go f.canonical
    where
      go : (c : Option Bytes) → IsSafe (on_canonical b f d scopes c)
      go none = tt
      go (some canonical) =
          let a = request_of b f d canonical scopes in
          if_both IsSafe (b.listens (callback_port f.port))
            (served-IsSafe f d canonical scopes (serve a.state none (b.callbacks a)).1
              (b.callbacks a) refl)
            tt
