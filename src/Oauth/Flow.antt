-- ===== src/Oauth/Flow.antt =====
-- pkg/oauth/flow.go and register.go: how a token is obtained. Everything outside the process (the
-- stores, the locks, the servers, the browser, the clock) is one state that calls go through.
pub mod Monad
pub mod Client
pub mod Entry
pub mod Once
pub mod Logins
pub mod Memory
pub mod Cached
pub mod Refusal
pub mod Guard
use mcpurl.Prelude.{
  ℕ, ◌+◌, ◌-◌, ◌*◌, ◌%◌, ◌^◌, Bool, true, false, ◌&&◌, ◌||◌, not, List, [], ◌∷◌, Option, none, some,
  is_some, ltb, if◌then◌else◌,
}
use mcpurl.Prelude.Bytes.{Bytes, codes, equal, is_empty}
use mcpurl.Oauth.Challenge.{BearerChallenge, parse_challenge, stale_token}
use mcpurl.Oauth.Scopes.{resolve_scopes, granted_scopes}
use mcpurl.Oauth.Types.{Token, Registration, Discovery, fresh}
use mcpurl.Oauth.Flow.Monad.{
  Lookup, found, not_found, corrupt, unreadable, Response, Reply, unreachable, bad_json, failed,
  issued, Error, corrupt_registration, client_gone, store_error, rejected_fresh, refresh_failed,
  invalid_grant, invalid_client, login_failed, not_saved, no_client, bad_endpoint, Outside, Config,
  refreshed, logged_in, Flow, Result, ok, err, M, pure, fail, outer, gets, modify, note, ◌>>=◌,
  ◌>>◌, handle,
}
use mcpurl.Oauth.Flow.Client.{
  client_id_of, discover, ensure_client, client_replaced, foreign_client, drop_client, leave_client,
  with_lock, resource_key, client_key,
}

-- `time.Now().Add(time.Duration(seconds) * time.Second)`: the product is an int64.
abbrev add_duration : ℕ → ℕ → ℕ
add_duration now d = if ltb d (2 ^ 63) then now + d else now - (2 ^ 64 - d)

unfoldable expiry_of : ℕ → ℕ → Option ℕ
expiry_of now seconds =
    if ltb 0 seconds then some (add_duration now (seconds * 1000000000 % 2 ^ 64)) else none

-- `selfIssued`
unfoldable pub self_issued : {o : Outside} → Bytes → Flow o → Bool
self_issued rejected f =
    not (is_empty rejected) && (equal rejected f.last_refreshed || equal rejected f.last_logged_in)

-- The token that a successful answer to a refresh stands for.
unfoldable pub renewed : Bytes → Discovery → Token → ℕ → Response → Token
unfolding expiry_of
renewed client d stored now r = record {
  access_token = r.access_token;
  refresh_token = if is_empty r.refresh_token then stored.refresh_token else r.refresh_token;
  expiry = expiry_of now r.expires_in;
  issuer = d.issuer;
  client_id = client;
  scopes = granted_scopes r.scope stored.scopes;
}

-- `f.resolveScopes`
abbrev pub scopes_for : Config → Discovery → Bytes → List Bytes
scopes_for cfg d challenge =
    resolve_scopes cfg.scopes d.scopes_supported d.prm_scopes d.from_oidc challenge

module _ (o : Outside) (cfg : Config) where
  refused : Bytes → M o Token
  refused e =
      if equal e (codes "invalid_grant")
      then fail invalid_grant
      else if equal e (codes "invalid_client")
      then fail invalid_client
      else fail refresh_failed

  -- The end of `refresh`: what it makes of the answer.
  unfoldable pub accept_reply : Discovery → Token → Reply → M o Token
  unfolding refused
  accept_reply d stored unreachable f = fail refresh_failed f
  accept_reply d stored bad_json f = fail refresh_failed f
  accept_reply d stored (failed e) f = refused e f
  accept_reply d stored (issued r) f =
      if is_empty r.access_token
      then fail refresh_failed f
      else pure (renewed (client_id_of o cfg f) d stored (o.now f.outside) r) f

  post_with : Discovery → Bytes → Token → Bytes → M o Reply
  post_with d c stored client = do
    note (refreshed stored.refresh_token)
    outer (o.post_refresh d client stored.refresh_token c)

  -- `refresh`
  unfoldable pub refresh : Discovery → Bytes → Token → M o Token
  unfolding post_with
  refresh d c stored = gets (client_id_of o cfg) >>= post_with d c stored >>= accept_reply d stored

  abbrev stamp : Discovery → Bytes → Token → Token
  stamp d client t = record t { issuer = d.issuer; client_id = client }

  keep_login : Token → Bool → M o Bytes
  keep_login t false = fail not_saved
  keep_login t true = do
    modify (λ f. record f { last_logged_in = t.access_token; cached = some t })
    pure t.access_token

  save_login : Bytes → Token → M o Bytes
  unfolding keep_login
  save_login key t = outer (o.save key t) >>= keep_login t

  on_login : Bytes → Discovery → Option Token → M o Bytes
  unfolding save_login
  on_login key d none f = fail login_failed f
  on_login key d (some t) f = save_login key (stamp d (client_id_of o cfg f) t) f

  -- `loginAndSave`, with the access token of what it returns.
  unfoldable pub login_and_save : Bytes → Discovery → Bytes → M o Bytes
  unfolding on_login
  login_and_save key d challenge f =
      (note logged_in
          >> outer (o.login d (client_id_of o cfg f) (scopes_for cfg d challenge))
          >>= on_login key d)
        f

  -- The interactive login of `obtain`, unless it is the token of the last login that is refused.
  unfoldable pub login_step : Bytes → Discovery → Bytes → Bytes → M o Bytes
  login_step key d rejected challenge f =
      if not (is_empty rejected) && equal rejected f.last_logged_in
      then fail rejected_fresh f
      else login_and_save key d challenge f

  keep_refresh : Token → Bool → M o Bytes
  keep_refresh t false = fail not_saved
  keep_refresh t true = do
    modify (λ f. record f { last_refreshed = t.access_token; cached = some t })
    pure t.access_token

  pub save_refresh : Bytes → Token → M o Bytes
  unfolding keep_refresh
  save_refresh key t = outer (o.save key t) >>= keep_refresh t

  pub drop_if_registered : Bytes → Bytes → M o Bytes
  drop_if_registered c key f =
      if is_some f.reg then drop_client o cfg c key f else fail refresh_failed f

  -- The arms of the switch on the error of `refresh`; `next` is the login.
  unfoldable pub after_refresh : Bytes → Bytes → M o Bytes → Result Token → M o Bytes
  unfolding save_refresh drop_if_registered
  after_refresh c key next (ok t) = save_refresh key t
  after_refresh c key next (err invalid_grant) =
      outer (λ s. let (_, s') = o.delete key s in (tt, s')) >> next
  after_refresh c key next (err invalid_client) = drop_if_registered c key
  after_refresh c key next (err e) = fail refresh_failed

  may_refresh : Token → Bytes → Flow o → Bool
  may_refresh t rejected f =
      not (is_empty t.refresh_token) && (is_empty rejected || not (equal rejected f.last_refreshed))

  unfoldable pub refresh_step :
      Bytes → Bytes → Discovery → Option Token → Bytes → M o Bytes → M o Bytes
  unfolding may_refresh
  refresh_step c key d none rejected next f = next f
  refresh_step c key d (some t) rejected next f =
      if may_refresh t rejected f
      then handle (refresh d c t) (after_refresh c key next) f
      else next f

  -- `obtain` once it knows the authorization server.
  unfoldable pub with_server : Bytes → Bytes → Option Token → Bytes → Bytes → Discovery → M o Bytes
  with_server key c stored rejected challenge d f =
      if foreign_client o cfg d f
      then drop_client o cfg c key f
      else refresh_step c key d stored rejected (login_step key d rejected challenge) f

  -- The stored token that another process may have left meanwhile is compared with the one refused.
  usable : ℕ → Bytes → Option Token → Bool
  usable now rejected none = false
  usable now rejected (some t) = fresh now (some t) && not (equal t.access_token rejected)

  unfoldable pub token_of : Option Token → Bytes
  token_of none = []
  token_of (some t) = t.access_token

  abbrev pub take_stored : Option Token → M o Bytes
  take_stored t = do modify (λ f. record f { cached = t }); pure (token_of t)

  unfoldable pub with_stored : Bytes → Bytes → Bytes → Bytes → Option Token → M o Bytes
  unfolding usable token_of
  with_stored key c rejected challenge stored f =
      if usable (o.now f.outside) rejected stored
      then take_stored stored f
      else if self_issued rejected f && not (stale_token (parse_challenge challenge))
      then fail rejected_fresh f
      else (discover o cfg challenge >>= with_server key c stored rejected challenge) f

  on_loaded : Bytes → Bytes → Bytes → Bytes → Lookup Token → M o Bytes
  on_loaded key c rejected challenge (found t) = with_stored key c rejected challenge (some t)
  on_loaded key c rejected challenge not_found = with_stored key c rejected challenge none
  on_loaded key c rejected challenge corrupt = fail store_error
  on_loaded key c rejected challenge unreadable = fail store_error

  on_replaced : Bytes → Bytes → Bytes → Bytes → Bool → M o Bytes
  unfolding on_loaded
  on_replaced key c rejected challenge true = leave_client >> fail client_gone
  on_replaced key c rejected challenge false =
      outer (o.load key) >>= on_loaded key c rejected challenge

  -- `obtain`
  unfoldable pub obtain : Bytes → Bytes → Bytes → Bytes → M o Bytes
  unfolding on_replaced
  obtain key c rejected challenge = client_replaced o cfg c >>= on_replaced key c rejected challenge
