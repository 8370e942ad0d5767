-- ===== src/Oauth/Tests.antt =====
-- The authorization flow with one authorization server, and an empty store.
mod Callbacks
mod Saved
use mcpurl.Prelude.{
  refl, if◌then◌else◌, ◌+◌, ◌≤◌, ◌≡◌, ◌||◌, ◌&&◌, true, false, List, [], ◌∷◌, ◌++◌, Option, none,
  some,
}
use mcpurl.Prelude.Bytes.{Bytes, codes, equal, contains, has_infix, trim_last}
use mcpurl.Oauth.Scopes.{resolve_scopes, with_offline, scope_offline, contains-with_offline}
use mcpurl.Oauth.Types.{fresh, Token, Registration}
use mcpurl.Oauth.Flow.Client.{
  discover_or, with_lock, resource_key, foreign_client, client_id_of, leave_client, discover,
  register, ensure_client, client_replaced,
}
use mcpurl.Oauth.Flow.Monad.{
  handle, outer, ◌>>=◌, ok, registered_client, logged_in, Lookup, found, not_found, failed,
  registered, Outside, Config, Flow,
}
use mcpurl.Oauth.Challenge.{parse_challenge, stale_token}
use mcpurl.Oauth.Discovery.{
  Url, Metadata, Web, find, discover_server, discover_resource, canonicalize, is_secure,
}
use mcpurl.Oauth.Discovery.Trusted.{IsTrusted, IsFrom, find-IsTrusted, discover_server-IsFrom}
use mcpurl.Oauth.Flow.{
  obtain, self_issued, with_stored, with_server, refresh_step, login_step, login_and_save,
}
use mcpurl.Oauth.Flow.Guard.{obtain-logins}
use mcpurl.Oauth.Flow.Refusal.{IsRefusal, IsIdle, obtain-IsIdle}
use mcpurl.Oauth.Flow.Once.{logins}
use mcpurl.Oauth.Flow.Memory.{IsCached}
use mcpurl.Oauth.Flow.Entry.{token, token_round}
use mcpurl.Oauth.Flow.Entry.Logins.{token-logins}
use mcpurl.Oauth.Flow.Entry.Cached.{token-IsCached}

abbrev fresh_login : Token
fresh_login = record {
  access_token = codes "at";
  refresh_token = codes "rt";
  expiry = some 3600000000000;
  issuer = [];
  client_id = [];
  scopes = codes "read" ∷ [];
}

-- Web pages whose URLs have no path; the first probe answers.
abbrev parse : Bytes → Option Url
parse url = some (record {
  scheme = if has_infix url (codes "https://") then codes "https" else codes "http";
  host = url;
  path = [];
  query = [];
  fragment = [];
})

abbrev metadata : Metadata
metadata = record {
  issuer = codes "https://as/";
  authorization_endpoint = codes "https://as/authorize";
  token_endpoint = codes "https://as/token";
  registration_endpoint = codes "https://as/register";
  scopes_supported = [];
  methods = codes "S256" ∷ [];
}

abbrev web : {S : Type 0} → Web S
web = record {
  parse = parse;
  print = λ u. u.host ++ u.path;
  hostname = λ u. u.host;
  lower = λ s. s;
  is_loopback_ip = λ host. false;
  fetch_metadata = λ url s. (some metadata, s);
  fetch_resource = λ url s. (
    some (record {
      resource = codes "https://mcp";
      authorization_servers = codes "https://as" ∷ [];
      scopes_supported = codes "read" ∷ [];
    }),
    s,
  );
}

-- The state is the registration on disk; the tokens are never found.
abbrev load_client : Bytes → Option Registration → Lookup Registration × Option Registration
load_client key none = (not_found, none)
load_client key (some r) = (found r, some r)

abbrev outside : Outside
outside = record {
  State = Option Registration;
  now = λ s. 0;
  load = λ key s. (not_found, s);
  save = λ key t s. (true, s);
  delete = λ key s. (true, s);
  load_client = load_client;
  save_client = λ key r s. (true, some r);
  delete_client = λ key s. (true, none);
  acquire = λ key s. (true, s);
  web = web;
  post_refresh = λ d id t c s. (failed (codes "invalid_client"), s);
  post_register = λ url uri s.
      (registered (record { client_id = codes "dyn"; client_secret = []; redirect_uris = [] }), s);
  login = λ d id scopes s. (some fresh_login, s);
}

abbrev config : Config
config = record {
  endpoint = codes "https://mcp";
  issuer = [];
  client_id = [];
  scopes = [];
  redirect_uri = codes "http://127.0.0.1/callback";
  key_of = λ c id. c ++ id;
}

abbrev start : Flow outside
start = record {
  cached = none;
  reg = none;
  last_refreshed = [];
  last_logged_in = [];
  disco = none;
  outside = none;
  calls = [];
}

token-logins_example : logins (token outside config [] [] start).1.calls ≤ 1 + logins start.calls
token-logins_example = token-logins outside config [] [] start

token-IsCached_example : IsCached (token outside config [] [] start)
token-IsCached_example = token-IsCached outside config [] [] start

abbrev asked : List Bytes
asked = codes "read" ∷ []

-- The server refuses the token of the last refresh, and says nothing of its age.
abbrev refusing : Flow outside
refusing = record start { last_refreshed = codes "at" }

refusing-IsRefusal :
    IsRefusal outside config (codes "at") (codes "Bearer error=\"invalid_token\"") refusing
unfolding self_issued equal stale_token parse_challenge has_infix
refusing-IsRefusal = (refl, refl)

obtain-IsIdle_example :
    IsIdle outside config (codes "at") (codes "Bearer error=\"invalid_token\"") refusing (
      obtain outside config
        (codes "k")
        (codes "https://mcp/")
        (codes "at")
        (codes "Bearer error=\"invalid_token\"")
        refusing)
obtain-IsIdle_example =
    obtain-IsIdle outside config (codes "at") (codes "Bearer error=\"invalid_token\"") (codes "k")
      (codes "https://mcp/") refusing refusing-IsRefusal

-- The server calls the token of the last login expired.
abbrev signed_in : Flow outside
signed_in = record start { last_logged_in = codes "at" }

abbrev expired : Bytes
expired = codes "Bearer error=\"invalid_token\", error_description=\"The access token expired\""

obtain-logins_example :
    logins
      (obtain outside config
        (codes "k")
        (codes "https://mcp/")
        (codes "at")
        expired
        signed_in).1.calls
    ≡ logins signed_in.calls
obtain-logins_example =
    obtain-logins outside config (codes "k") (codes "https://mcp/") (codes "at") expired signed_in
      refl refl

-- Behind a login and a refresh the server calls the refreshed token expired, and another login is
-- started.
abbrev refreshed_once : Flow outside
refreshed_once = record start {
  last_logged_in = codes "a";
  last_refreshed = codes "b";
  disco = some (record {
    issuer = codes "https://as";
    authorization_endpoint = codes "https://as/a";
    token_endpoint = codes "https://as/t";
    registration_endpoint = [];
    scopes_supported = [];
    methods = [];
    prm_scopes = [];
    from_oidc = false;
  });
}

login-again :
    (obtain outside config
      (codes "k")
      (codes "https://mcp/")
      (codes "b")
      expired
      refreshed_once).1.calls
    ≡ logged_in ∷ []
unfolding obtain ◌>>=◌ outer client_replaced with_stored self_issued equal stale_token
    parse_challenge has_infix with_server discover discover_or foreign_client refresh_step
    login_step login_and_save client_id_of resolve_scopes
login-again = refl

abbrev pages : Web (Unit {0})
pages = web

find-IsTrusted_example : IsTrusted pages (find pages [] (some (codes "https://mcp")) [] tt).0
find-IsTrusted_example = find-IsTrusted pages [] (some (codes "https://mcp")) [] tt

discover_server-IsFrom_example :
    IsFrom pages (codes "https://as") (discover_server pages (codes "https://as") tt).0
discover_server-IsFrom_example = discover_server-IsFrom pages (codes "https://as") tt

-- The first run registers and logs in, once each.
first_run :
    ((token outside config [] [] start).0 ≡ ok (codes "at"))
    × ((token outside config [] [] start).1.calls ≡ registered_client ∷ logged_in ∷ [])
unfolding token handle token_round ◌>>=◌ outer ensure_client canonicalize equal has_infix find
    discover_resource parse_challenge is_secure trim_last discover_server contains fresh obtain
    client_replaced with_stored with_server refresh_step login_step login_and_save discover
    self_issued stale_token register with_lock resource_key foreign_client client_id_of leave_client
    resolve_scopes
first_run = (refl, refl)
