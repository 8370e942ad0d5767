-- ===== src/Oauth/Discovery.antt =====
-- pkg/oauth/discovery.go: the chain of probes that finds an authorization server. What net/url,
-- net/http and encoding/json do is the parameter `Web`.
pub mod Trusted
use mcpurl.Prelude.{
  Bool, true, false, ◌&&◌, ◌||◌, not, List, [], ◌∷◌, ◌++◌, Option, none, some, if◌then◌else◌,
}
use mcpurl.Prelude.Bytes.{Bytes, codes, equal, is_empty, contains, trim_last}
use mcpurl.Oauth.Challenge.{parse_challenge}
use mcpurl.Oauth.Types.{Discovery}

-- The parts of a `url.URL` that the source reads or writes.
pub record Url : Type 0 where
  pub scheme : Bytes
  pub host : Bytes
  pub path : Bytes
  pub query : Bytes
  pub fragment : Bytes

-- The documents as JSON fields; `methods` is `code_challenge_methods_supported`.
pub record Metadata : Type 0 where
  pub issuer : Bytes
  pub authorization_endpoint : Bytes
  pub token_endpoint : Bytes
  pub registration_endpoint : Bytes
  pub scopes_supported : List Bytes
  pub methods : List Bytes

pub record Resource : Type 0 where
  pub resource : Bytes
  pub authorization_servers : List Bytes
  pub scopes_supported : List Bytes

-- `parse`, `print`, `hostname`, `lower` and `is_loopback_ip` are the library's functions; a fetch
-- is a GET with status 200 and a body that decodes.
pub record Web (S : Type 0) : Type 0 where
  pub parse : Bytes → Option Url
  pub print : Url → Bytes
  pub hostname : Url → Bytes
  pub lower : Bytes → Bytes
  pub is_loopback_ip : Bytes → Bool
  pub fetch_metadata : Bytes → S → Option Metadata × S
  pub fetch_resource : Bytes → S → Option Resource × S

module _ {S : Type 0} (web : Web S) where
  -- `IsLoopbackHost`
  abbrev pub is_loopback_host : Bytes → Bool
  is_loopback_host host = equal host (codes "localhost") || web.is_loopback_ip host

  secure_url : Option Url → Bool
  secure_url none = false
  secure_url (some u) = equal u.scheme (codes "https") || is_loopback_host (web.hostname u)

  -- `requireHTTPS`, true where it gives no error.
  unfoldable pub is_secure : Bytes → Bool
  unfolding secure_url
  is_secure raw = secure_url (web.parse raw)

  canonical_url : Url → Option Bytes
  canonical_url u =
      if not (equal u.scheme (codes "http")) && not (equal u.scheme (codes "https"))
        || is_empty u.host
      then none
      else some (
          web.print (record u {
            scheme = web.lower u.scheme;
            host = web.lower u.host;
            fragment = [];
            path = trim_last b'/' u.path;
          }))

  on_parsed : Option Url → Option Bytes
  unfolding canonical_url
  on_parsed none = none
  on_parsed (some u) = canonical_url u

  -- `Canonicalize`
  unfoldable pub canonicalize : Bytes → Option Bytes
  unfolding on_parsed
  canonicalize raw = on_parsed (web.parse raw)

  -- `fetchJSON`: nothing is sent to a URL that is not secure.
  guarded : {A : Type 0} → (Bytes → S → Option A × S) → Bytes → S → Option A × S
  guarded fetch url s = if is_secure url then fetch url s else (none, s)

  -- `wellKnown`
  abbrev well_known : Url → Bytes → Bytes → Bytes
  well_known origin suffix path = web.print (record origin {
    path = codes "/.well-known/" ++ (suffix ++ path);
    query = [];
    fragment = [];
  })

  abbrev same_issuer : Bytes → Bytes → Bool
  same_issuer a b = equal (trim_last b'/' a) (trim_last b'/' b)

  abbrev found_at : Metadata → Bool → Discovery
  found_at m oidc = record {
    issuer = m.issuer;
    authorization_endpoint = m.authorization_endpoint;
    token_endpoint = m.token_endpoint;
    registration_endpoint = m.registration_endpoint;
    scopes_supported = m.scopes_supported;
    methods = m.methods;
    from_oidc = oidc;
    prm_scopes = [];
  }

  -- The body of the loop in `discoverAS`: `next` tries the probes that follow.
  on_metadata :
      (S → Option Discovery × S) → Bytes → Bool → Option Metadata → S → Option Discovery × S
  on_metadata next issuer oidc none s = next s
  on_metadata next issuer oidc (some m) s =
      if not (same_issuer m.issuer issuer)
      then next s
      else if is_empty m.authorization_endpoint || is_empty m.token_endpoint
      then next s
      else if not (is_secure m.authorization_endpoint)
      then (none, s)
      else if not (is_secure m.token_endpoint)
      then (none, s)
      else if not (contains m.methods (codes "S256"))
      then (none, s)
      else (some (found_at m oidc), s)

  try_servers : Bytes → List (Bytes × Bool) → S → Option Discovery × S
  unfolding on_metadata guarded
  try_servers issuer [] s = (none, s)
  try_servers issuer ((url, oidc) ∷ probes) s =
      let (m, s') = guarded web.fetch_metadata url s in
      on_metadata (try_servers issuer probes) issuer oidc m s'

  probes_of : Url → List (Bytes × Bool)
  probes_of iss =
      if not (is_empty iss.path)
      then (well_known iss (codes "oauth-authorization-server") iss.path, false)
        ∷ (well_known iss (codes "openid-configuration") iss.path, true)
        ∷ (web.print iss ++ codes "/.well-known/openid-configuration", true)
        ∷ []
      else (well_known iss (codes "oauth-authorization-server") [], false)
        ∷ (well_known iss (codes "openid-configuration") [], true)
        ∷ []

  on_issuer : Bytes → Option Url → S → Option Discovery × S
  unfolding try_servers probes_of
  on_issuer issuer none s = (none, s)
  on_issuer issuer (some iss) s =
      if is_empty iss.host then (none, s) else try_servers issuer (probes_of iss) s

  -- `discoverAS`
  unfoldable pub discover_server : Bytes → S → Option Discovery × S
  unfolding on_issuer
  discover_server issuer s = on_issuer issuer (web.parse (trim_last b'/' issuer)) s

  abbrev first_server : List Bytes → List Bytes → Option (Bytes × List Bytes)
  first_server [] scopes = none
  first_server (a ∷ others) scopes = some (a, scopes)

  abbrev is_ours : Bytes → Option Bytes → Bool
  is_ours canonical none = false
  is_ours canonical (some c) = equal c canonical

  on_resource :
      (S → Option (Bytes × List Bytes) × S)
      → Bytes
      → Option Resource
      → S
      → Option (Bytes × List Bytes) × S
  on_resource next canonical none s = next s
  on_resource next canonical (some r) s =
      if not (is_ours canonical (canonicalize r.resource))
      then next s
      else if is_empty r.authorization_servers
      then next s
      else (first_server r.authorization_servers r.scopes_supported, s)

  try_resources : Bytes → List Bytes → S → Option (Bytes × List Bytes) × S
  unfolding on_resource guarded
  try_resources canonical [] s = (none, s)
  try_resources canonical (url ∷ urls) s =
      let (r, s') = guarded web.fetch_resource url s in
      on_resource (try_resources canonical urls) canonical r s'

  candidates : Bytes → Url → List Bytes
  candidates meta endpoint =
      (if not (is_empty meta) then meta ∷ [] else [])
      ++ ((if not (is_empty endpoint.path)
            then well_known endpoint (codes "oauth-protected-resource") endpoint.path ∷ []
            else [])
          ++ (well_known endpoint (codes "oauth-protected-resource") [] ∷ []))

  on_endpoint : Bytes → Bytes → Option Url → S → Option (Bytes × List Bytes) × S
  unfolding try_resources candidates
  on_endpoint canonical challenge none s = (none, s)
  on_endpoint canonical challenge (some endpoint) s =
      try_resources canonical (candidates (parse_challenge challenge).resource_metadata endpoint) s

  -- `discoverPRM`
  unfoldable pub discover_resource : Bytes → Bytes → S → Option (Bytes × List Bytes) × S
  unfolding on_endpoint
  discover_resource canonical challenge s = on_endpoint canonical challenge (web.parse canonical) s

  abbrev with_scopes : List Bytes → Option Discovery × S → Option Discovery × S
  with_scopes scopes (none, s) = (none, s)
  with_scopes scopes (some d, s) = (some (record d { prm_scopes = scopes }), s)

  from_resource : Option (Bytes × List Bytes) × S → Option Discovery × S
  from_resource (none, s) = (none, s)
  from_resource (some (issuer, scopes), s) = with_scopes scopes (discover_server issuer s)

  -- `discover` behind its cache, with the configured issuer, and the canonical endpoint where the
  -- endpoint has one.
  unfoldable pub find : Bytes → Option Bytes → Bytes → S → Option Discovery × S
  unfolding from_resource
  find issuer none challenge s = (none, s)
  find issuer (some canonical) challenge s =
      if is_empty issuer
      then from_resource (discover_resource canonical challenge s)
      else with_scopes [] (discover_server issuer s)
