-- ===== src/Oauth/Discovery/Trusted.antt =====
-- What holds of an authorization server that discovery has found.
use mcpurl.Prelude.{
  Bool, true, false, ◌||◌, List, [], ◌∷◌, Option, none, some, ◌≡◌, arith, inl, inr, Bool-cases,
  if_both,
}
use mcpurl.Prelude.Bytes.{Bytes, codes, is_empty, contains}
use mcpurl.Oauth.Types.{Discovery}
use mcpurl.Oauth.Discovery.{
  Url, Metadata, Web, is_secure, same_issuer, on_metadata, try_servers, on_issuer, discover_server,
  with_scopes, from_resource, discover_resource, find, guarded,
}

module _ {S : Type 0} (web : Web S) where
  -- The two endpoints that the flow calls are there and may be trusted with secrets, and the server
  -- does PKCE with S256.
  abbrev pub IsTrusted : Option Discovery → Type 0
  IsTrusted none = Unit {0}
  IsTrusted (some d) =
      ((is_empty d.authorization_endpoint ≡ false)
        × (is_secure web d.authorization_endpoint ≡ true))
      × ((is_empty d.token_endpoint ≡ false) × (is_secure web d.token_endpoint ≡ true))
      × (contains d.methods (codes "S256") ≡ true)

  abbrev pub IsFrom : Bytes → Option Discovery → Type 0
  IsFrom issuer none = Unit {0}
  IsFrom issuer (some d) = IsTrusted (some d) × (same_issuer web d.issuer issuer ≡ true)

  on_metadata-IsFrom :
      (next : S → Option Discovery × S) (issuer : Bytes) (oidc : Bool) (m : Option Metadata) (s : S)
      → ((t : S) → IsFrom issuer (next t).0)
      → IsFrom issuer (on_metadata web next issuer oidc m s).0
  unfolding on_metadata
  on_metadata-IsFrom next issuer oidc none s h = h s
  on_metadata-IsFrom next issuer oidc (some m) s h =
      elim (Bool-cases (same_issuer web m.issuer issuer)) [
        | inr other ↦ rw other (h s)
        | inl same ↦
            rw same
              (elim (Bool-cases (is_empty m.authorization_endpoint || is_empty m.token_endpoint)) [
                | inl bare ↦ rw bare (h s)
                | inr full ↦ rw full (elim (Bool-cases (is_secure web m.authorization_endpoint)) [
                  | inr plain ↦ rw plain tt
                  | inl secure ↦ rw secure (elim (Bool-cases (is_secure web m.token_endpoint)) [
                    | inr plain ↦ rw plain tt
                    | inl token ↦ rw token (elim (Bool-cases (contains m.methods (codes "S256"))) [
                      | inr downgrade ↦ rw downgrade tt
                      | inl pkce ↦
                          rw pkce (((ground arith, secure), (ground arith, token), pkce), same)
                    ])
                  ])
                ])
              ])
      ]

  try_servers-IsFrom :
      (issuer : Bytes) (probes : List (Bytes × Bool)) (s : S)
      → IsFrom issuer (try_servers web issuer probes s).0
  unfolding try_servers
  try_servers-IsFrom issuer [] s = tt
  try_servers-IsFrom issuer ((url, oidc) ∷ probes) s =
      let (m, s') = guarded web web.fetch_metadata url s in
      on_metadata-IsFrom (try_servers web issuer probes) issuer oidc m s'
        λ t. try_servers-IsFrom issuer probes t

  on_issuer-IsFrom :
      (issuer : Bytes) (u : Option Url) (s : S) → IsFrom issuer (on_issuer web issuer u s).0
  unfolding on_issuer
  on_issuer-IsFrom issuer none s = tt
  on_issuer-IsFrom issuer (some u) s =
      if_both (λ (o : Option Discovery × S). IsFrom issuer (o.0)) (is_empty u.host) tt
        (try_servers-IsFrom issuer _ s)

  -- The metadata that `discoverAS` returns is the issuer's, up to one final slash, and names an
  -- authorization and a token endpoint that are https or loopback, and PKCE with S256.
  pub discover_server-IsFrom :
      (issuer : Bytes) (s : S) → IsFrom issuer (discover_server web issuer s).0
  unfolding discover_server
  discover_server-IsFrom issuer s = on_issuer-IsFrom issuer _ s

  with_scopes-IsTrusted :
      (issuer : Bytes) (scopes : List Bytes) (r : Option Discovery × S)
      → IsFrom issuer r.0
      → IsTrusted (with_scopes web scopes r).0
  with_scopes-IsTrusted issuer scopes (none, s) h = tt
  with_scopes-IsTrusted issuer scopes (some d, s) h = h.0

  from_resource-IsTrusted :
      (r : Option (Bytes × List Bytes) × S) → IsTrusted (from_resource web r).0
  unfolding from_resource
  from_resource-IsTrusted (none, s) = tt
  from_resource-IsTrusted (some (issuer, scopes), s) =
      with_scopes-IsTrusted issuer scopes (discover_server web issuer s)
        (discover_server-IsFrom issuer s)

  -- Whatever the MCP server's documents say: an authorization server that discovery accepts has an
  -- authorization and a token endpoint, both https or loopback, and advertises PKCE with S256.
  pub find-IsTrusted :
      (issuer : Bytes) (canonical : Option Bytes) (challenge : Bytes) (s : S)
      → IsTrusted (find web issuer canonical challenge s).0
  unfolding find
  find-IsTrusted issuer none challenge s = tt
  find-IsTrusted issuer (some c) challenge s =
      if_both (λ (o : Option Discovery × S). IsTrusted (o.0)) (is_empty issuer)
        (from_resource-IsTrusted (discover_resource web c challenge s))
        (with_scopes-IsTrusted issuer [] (discover_server web issuer s)
          (discover_server-IsFrom issuer s))
