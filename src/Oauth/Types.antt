-- ===== src/Oauth/Types.antt =====
-- pkg/oauth/store.go, register.go, discovery.go: the values that are stored and passed around.
use mcpurl.Prelude.{ℕ, ◌+◌, Bool, true, false, ◌&&◌, not, List, Option, none, some, ltb}
use mcpurl.Prelude.Bytes.{Bytes, is_empty}

-- `expiry` is none for a zero time; times count nanoseconds.
pub record Token : Type 0 where
  pub access_token : Bytes
  pub refresh_token : Bytes
  pub expiry : Option ℕ
  pub issuer : Bytes
  pub client_id : Bytes
  pub scopes : List Bytes

pub record Registration : Type 0 where
  pub client_id : Bytes
  pub issuer : Bytes
  pub redirect_uri : Bytes

-- `ASMetadata` and the scopes of the protected resource's metadata, as `discover` caches them;
-- `methods` is `code_challenge_methods_supported`.
pub record Discovery : Type 0 where
  pub issuer : Bytes
  pub authorization_endpoint : Bytes
  pub token_endpoint : Bytes
  pub registration_endpoint : Bytes
  pub scopes_supported : List Bytes
  pub methods : List Bytes
  pub from_oidc : Bool
  pub prm_scopes : List Bytes

-- `expirySkew`
abbrev pub expiry_skew : ℕ
expiry_skew = 60000000000

abbrev lasts : ℕ → Option ℕ → Bool
lasts now none = true
lasts now (some e) = ltb (now + expiry_skew) e

-- `t.Fresh(expirySkew)`, also for a nil token.
unfoldable pub fresh : ℕ → Option Token → Bool
fresh now none = false
fresh now (some t) = not (is_empty t.access_token) && lasts now t.expiry
