-- ===== src/Oauth/Login.antt =====
-- pkg/oauth/login.go: `browserLogin`. The callbacks that reach the listener are a list, the first one
-- first; golang.org/x/oauth2, the listener and the random strings are the parameter `Browser`. The
-- browser's start and what is printed are left out: a failure of either changes nothing else.
pub mod Exchange
use mcpurl.Prelude.{
  ℕ, Bool, true, false, not, List, [], ◌∷◌, ◌++◌, Option, none, some, ◌==◌, if◌then◌else◌, get_or,
}
use mcpurl.Prelude.Bytes.{Bytes, codes, equal, is_empty}
use mcpurl.Prelude.Lists.{take}
use mcpurl.Mcp.Http.{get}
use mcpurl.Oauth.Types.{Token, Registration, Discovery}
use mcpurl.Oauth.Scopes.{granted_scopes}

-- The values of a callback's query.
abbrev pub Query : Type 0
Query = List (Bytes × Bytes)

-- What `AuthCodeURL` puts in the URL that is opened.
pub record AuthRequest : Type 0 where
  pub endpoint : Bytes
  pub client_id : Bytes
  pub redirect_uri : Bytes
  pub scopes : List Bytes
  pub state : Bytes
  pub challenge : Bytes
  pub resource : Bytes

-- What `Exchange` posts.
pub record ExchangeRequest : Type 0 where
  pub endpoint : Bytes
  pub client_id : Bytes
  pub redirect_uri : Bytes
  pub code : Bytes
  pub verifier : Bytes
  pub resource : Bytes

pub record Granted : Type 0 where
  pub access_token : Bytes
  pub refresh_token : Bytes
  pub expiry : Option ℕ
  pub scope : Bytes

-- `verifier` and `random` are the two results of `GenerateVerifier`, `challenge_of` is S256;
-- `callbacks` come before the time is up or, with `cancelled`, before the context ends.
pub record Browser : Type 0 where
  pub verifier : Bytes
  pub random : Bytes
  pub challenge_of : Bytes → Bytes
  pub decimal : ℕ → Bytes
  pub listens : ℕ → Bool
  pub callbacks : AuthRequest → List Query
  pub cancelled : Bool
  pub exchange : ExchangeRequest → Option Granted

-- `Flow` as the login reads it; `port` is 0 where none is configured.
pub record Settings : Type 0 where
  pub canonical : Option Bytes
  pub port : ℕ
  pub client_id : Bytes
  pub registration : Option Registration

-- How it ends; a timeout names the registration that a logout would drop.
pub data Ended : Type 0 where
  no_endpoint timed_out_plain stopped mismatch exchange_failed : Ended
  port_busy : ℕ → Ended
  timed_out : Bytes → Ended
  denied : Bytes → Bytes → Ended
  logged_in : Token → Ended

-- What a callback puts in the channel.
pub data Report : Type 0 where
  code : Bytes → Report
  failure : Ended → Report

pub record Trace : Type 0 where
  pub ended : Ended
  pub opened : Option AuthRequest
  pub exchanged : Option ExchangeRequest
  pub statuses : List ℕ

-- `callbackPort`
unfoldable pub callback_port : ℕ → ℕ
callback_port port = if port == 0 then 18075 else port

-- The handler of /callback: the report and the status of the page.
unfoldable pub handle : Bytes → Query → Report × ℕ
unfolding get equal
handle state q =
    if not (is_empty (get (codes "error") q))
    then (failure (denied (get (codes "error") q) (get (codes "error_description") q)), 400)
    else if not (equal (get (codes "state") q) state)
    then (failure mismatch, 400)
    else (code (get (codes "code") q), 200)

-- The channel of one place: a report that finds it full is dropped.
unfoldable pub report : Option Report → Report → Option Report
report none r = some r
report (some s) r = some s

-- All callbacks: what the channel holds, and the statuses.
unfoldable pub serve : Bytes → Option Report → List Query → Option Report × List ℕ
unfolding handle report
serve state slot [] = (slot, [])
serve state slot (q ∷ qs) =
    let h = handle state q in
    let rest = serve state (report slot (h.0)) qs in (rest.0, h.1 ∷ rest.1)

module _ (b : Browser) where
  -- `redirectURI`
  unfoldable pub redirect_uri : ℕ → Bytes
  unfolding callback_port
  redirect_uri port =
      codes "http://127.0.0.1:" ++ (b.decimal (callback_port port) ++ codes "/callback")

  -- `unknownClientHint`
  timeout_of : Option Registration → Ended
  timeout_of none = timed_out_plain
  timeout_of (some r) = timed_out r.client_id

  -- `Exchange`
  on_granted : List Bytes → Option Granted → Ended
  unfolding granted_scopes
  on_granted scopes none = exchange_failed
  on_granted scopes (some g) = logged_in (record {
    access_token = g.access_token;
    refresh_token = g.refresh_token;
    expiry = g.expiry;
    issuer = [];
    client_id = [];
    scopes = granted_scopes g.scope scopes;
  })

  abbrev request_of : Settings → Discovery → Bytes → List Bytes → AuthRequest
  request_of f d canonical scopes = record {
    endpoint = d.authorization_endpoint;
    client_id = f.client_id;
    redirect_uri = redirect_uri f.port;
    scopes = scopes;
    state = take 24 b.random;
    challenge = b.challenge_of b.verifier;
    resource = canonical;
  }

  abbrev exchange_of : Settings → Discovery → Bytes → Bytes → ExchangeRequest
  exchange_of f d canonical c = record {
    endpoint = d.token_endpoint;
    client_id = f.client_id;
    redirect_uri = redirect_uri f.port;
    code = c;
    verifier = b.verifier;
    resource = canonical;
  }

  -- The `select` and what follows it.
  on_report : Settings → Discovery → Bytes → List Bytes → List ℕ → Option Report → Trace
  unfolding timeout_of on_granted redirect_uri
  on_report f d canonical scopes statuses none = record {
    ended = if b.cancelled then stopped else timeout_of f.registration;
    opened = some (request_of f d canonical scopes);
    exchanged = none;
    statuses = statuses;
  }
  on_report f d canonical scopes statuses (some (failure e)) = record {
    ended = e;
    opened = some (request_of f d canonical scopes);
    exchanged = none;
    statuses = statuses;
  }
  on_report f d canonical scopes statuses (some (code c)) = record {
    ended = on_granted scopes (b.exchange (exchange_of f d canonical c));
    opened = some (request_of f d canonical scopes);
    exchanged = some (exchange_of f d canonical c);
    statuses = statuses;
  }

  abbrev without : Ended → Trace
  without e = record { ended = e; opened = none; exchanged = none; statuses = [] }

  on_canonical : Settings → Discovery → List Bytes → Option Bytes → Trace
  unfolding callback_port serve on_report
  on_canonical f d scopes none = without no_endpoint
  on_canonical f d scopes (some canonical) =
      let a = request_of f d canonical scopes in
      let served = serve a.state none (b.callbacks a) in
      if b.listens (callback_port f.port)
      then on_report f d canonical scopes (served.1) (served.0)
      else without (port_busy (callback_port f.port))

  -- `browserLogin`
  unfoldable pub browser_login : Settings → Discovery → List Bytes → Trace
  unfolding on_canonical
  browser_login f d scopes = on_canonical f d scopes f.canonical
