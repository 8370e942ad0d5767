-- ===== src/Oauth/Tests/Callbacks.antt =====
-- A login to which a second callback comes after the right one.
use mcpurl.Prelude.{true, false, List, [], ◌∷◌, none, some}
use mcpurl.Prelude.Bytes.{codes}
use mcpurl.Oauth.Types.{Discovery}
use mcpurl.Oauth.Login.{Query, AuthRequest, Browser, Settings, browser_login}
use mcpurl.Oauth.Login.Exchange.{IsSafe, browser_login-IsSafe}

abbrev answered : AuthRequest → List Query
answered a =
    ((codes "state", a.state) ∷ (codes "code", codes "c-1") ∷ [])
    ∷ ((codes "error", codes "access_denied") ∷ [])
    ∷ []

abbrev browser : Browser
browser = record {
  verifier = codes "v";
  random = codes "0123456789abcdef01234567-rest";
  challenge_of = λ s. s;
  decimal = λ n. codes "18075";
  listens = λ port. true;
  callbacks = answered;
  cancelled = false;
  exchange = λ x.
      some (record { access_token = codes "t"; refresh_token = []; expiry = none; scope = [] });
}

abbrev settings : Settings
settings = record {
  canonical = some (codes "https://mcp");
  port = 0;
  client_id = codes "app";
  registration = none;
}

abbrev server : Discovery
server = record {
  issuer = codes "https://as";
  authorization_endpoint = codes "https://as/authorize";
  token_endpoint = codes "https://as/token";
  registration_endpoint = [];
  scopes_supported = [];
  methods = codes "S256" ∷ [];
  from_oidc = false;
  prm_scopes = [];
}

browser_login-IsSafe_example :
    IsSafe browser (browser_login browser settings server (codes "read" ∷ []))
browser_login-IsSafe_example = browser_login-IsSafe browser settings server (codes "read" ∷ [])
