-- ===== src/Oauth/Flow/Client.antt =====
-- pkg/oauth/register.go: the client_id in use, configured or registered dynamically.
pub mod Quiet
pub mod Looks
use mcpurl.Prelude.{
  Bool, true, false, ◌&&◌, ◌||◌, not, List, [], ◌∷◌, ◌++◌, Option, none, some, is_some,
  if◌then◌else◌,
}
use mcpurl.Prelude.Bytes.{Bytes, codes, equal, is_empty, contains}
use mcpurl.Oauth.Discovery.{canonicalize, is_secure, find}
use mcpurl.Oauth.Types.{Registration, Discovery}
use mcpurl.Oauth.Flow.Monad.{
  Lookup, found, not_found, corrupt, unreadable, Registered, Answer, no_answer, http_failure,
  no_json, registered, Error, bad_endpoint, no_client, client_gone, corrupt_registration,
  store_error, lock_error, discovery_error, no_registration, insecure, registration_refused,
  not_saved, Outside, Config, registered_client, Flow, Result, ok, err, M, pure, fail, outer, gets,
  modify, note, ◌>>=◌, ◌>>◌, handle,
}

module _ {o : Outside} where
  -- `WithLock`
  unfoldable pub with_lock : {A : Type 0} → Bytes → M o A → M o A
  with_lock key m = do got ← outer (o.acquire key); if got then m else fail lock_error

  abbrev pub set_reg : Registration → M o (Unit {0})
  set_reg r = modify (λ f. record f { reg = some r })

  -- `leaveClient`
  unfoldable pub leave_client : M o (Unit {0})
  leave_client =
      modify (λ f. record f { reg = none; cached = none; last_refreshed = []; last_logged_in = [] })

  abbrev pub on_discovered : Option Discovery → M o Discovery
  on_discovered none = fail discovery_error
  on_discovered (some d) = do modify (λ f. record f { disco = some d }); pure d

module _ (o : Outside) (cfg : Config) where
  -- `Canonicalize(f.Endpoint)`
  abbrev pub canonical : Option Bytes
  canonical = canonicalize o.web cfg.endpoint

  unfoldable pub discover_or : Bytes → Option Discovery → M o Discovery
  discover_or challenge (some d) = pure d
  discover_or challenge none = outer (find o.web cfg.issuer canonical challenge) >>= on_discovered

  -- `discover`, with its cache.
  unfoldable pub discover : Bytes → M o Discovery
  unfolding discover_or
  discover challenge f = discover_or challenge f.disco f

  -- `clientID`
  unfoldable pub client_id_of : Flow o → Bytes
  client_id_of f =
      if not (is_empty cfg.client_id)
      then cfg.client_id
      else elim f.reg [ none ↦ cfg.client_id | some r ↦ r.client_id ]

  -- `clientKey`
  abbrev pub client_key : Bytes → Bytes
  client_key c = cfg.key_of c cfg.redirect_uri

  abbrev client_lock : Bytes → Bytes
  client_lock c = codes "client-" ++ client_key c

  unfoldable pub token_key : Bytes → M o (Bytes × Bytes)
  token_key c = gets (λ f. (c, cfg.key_of c (client_id_of f)))

  unfoldable pub on_client : Bytes → Lookup Registration → M o (Bytes × Bytes)
  unfolding token_key
  on_client c (found r) = do set_reg r; token_key c
  on_client c not_found = fail no_client
  on_client c corrupt = fail corrupt_registration
  on_client c unreadable = fail store_error

  unfoldable pub resource_key_at : Bytes → M o (Bytes × Bytes)
  unfolding on_client
  resource_key_at c f =
      if is_empty cfg.client_id && not (is_some f.reg)
      then (do l ← outer (o.load_client (client_key c)); on_client c l) f
      else token_key c f

  abbrev pub at_canonical : {A : Type 0} → (Bytes → M o A) → Option Bytes → M o A
  at_canonical k none = fail bad_endpoint
  at_canonical k (some c) = k c

  -- `resourceKey`
  unfoldable pub resource_key : M o (Bytes × Bytes)
  unfolding resource_key_at
  resource_key = at_canonical resource_key_at canonical

  -- The checks that `register` makes on the answer, in their order.
  accept : Discovery → Answer → M o Registration
  accept d no_answer = fail registration_refused
  accept d http_failure = fail registration_refused
  accept d no_json = fail registration_refused
  accept d (registered a) =
      if is_empty a.client_id
      then fail registration_refused
      else if not (is_empty a.client_secret)
      then fail registration_refused
      else if not (is_empty a.redirect_uris) && not (contains a.redirect_uris cfg.redirect_uri)
      then fail registration_refused
      else pure
          (record { client_id = a.client_id; issuer = d.issuer; redirect_uri = cfg.redirect_uri })

  -- `register`
  unfoldable pub register : Discovery → M o Registration
  unfolding accept
  register d = if not (is_secure o.web d.registration_endpoint) then fail insecure else do
    note registered_client
    a ← outer (o.post_register d.registration_endpoint cfg.redirect_uri)
    accept d a

  register_anew : Bytes → Discovery → M o (Unit {0})
  unfolding register
  register_anew ck d = do
    r ← register d
    saved ← outer (o.save_client ck r)
    if saved then set_reg r else fail not_saved

  -- Another process may have registered while this one waited for the lock.
  share : Bytes → Discovery → Lookup Registration → M o (Unit {0})
  unfolding register_anew
  share ck d (found r) = if equal r.issuer d.issuer then set_reg r else register_anew ck d
  share ck d l = register_anew ck d

  register_locked : Bytes → Discovery → M o (Unit {0})
  unfolding share
  register_locked c d = do l ← outer (o.load_client (client_key c)); share (client_key c) d l

  register_with : Bytes → Discovery → M o (Bytes × Bytes)
  unfolding register_locked with_lock
  register_with c d =
      if is_empty d.registration_endpoint
      then fail no_registration
      else with_lock (client_lock c) (register_locked c d) >> token_key c

  register_first : Bytes → Bytes → M o (Bytes × Bytes)
  unfolding register_with discover
  register_first challenge c = discover challenge >>= register_with c

  on_key : Bytes → Result (Bytes × Bytes) → M o (Bytes × Bytes)
  unfolding register_first
  on_key challenge (ok k) = pure k
  on_key challenge (err no_client) = at_canonical (register_first challenge) canonical
  on_key challenge (err e) = fail e

  -- `ensureClient`
  unfoldable pub ensure_client : Bytes → M o (Bytes × Bytes)
  unfolding resource_key on_key discover with_lock outer
  ensure_client challenge = handle resource_key (on_key challenge)

  -- `foreignClient`
  unfoldable pub foreign_client : Discovery → Flow o → Bool
  foreign_client d f =
      is_empty cfg.client_id && elim f.reg [ none ↦ false | some r ↦ not (equal r.issuer d.issuer) ]

  same_client : Bytes → Lookup Registration → Bool
  same_client id (found r) = equal r.client_id id
  same_client id l = false

  check_deleted : Bool → M o (Unit {0})
  check_deleted done = if done then pure tt else fail store_error

  delete_if : Bytes → Bool → M o (Unit {0})
  unfolding check_deleted
  delete_if c same =
      if same then outer (o.delete_client (client_key c)) >>= check_deleted else pure tt

  -- The stored record is deleted only while it is the one that this process used.
  forget_record : Bytes → Bytes → M o (Unit {0})
  unfolding delete_if same_client
  forget_record c gone = do
    l ← outer (o.load_client (client_key c))
    delete_if c (same_client gone l)

  abbrev id_of : Option Registration → Bytes
  id_of none = []
  id_of (some r) = r.client_id

  -- `dropClient`, which always fails.
  unfoldable pub drop_client : {A : Type 0} → Bytes → Bytes → M o A
  unfolding forget_record leave_client with_lock
  drop_client c key = do
    gone ← gets (λ f. id_of f.reg)
    outer (λ s. let (_, s') = o.delete key s in (tt, s'))
    leave_client
    with_lock (client_lock c) (forget_record c gone)
    fail client_gone

  replaced_at : Bytes → Option Registration → M o Bool
  replaced_at c none = pure false
  replaced_at c (some r) = do
    l ← outer (o.load_client (client_key c))
    pure (not (same_client r.client_id l))

  -- `clientReplaced`
  unfoldable pub client_replaced : Bytes → M o Bool
  unfolding replaced_at same_client
  client_replaced c f =
      if not (is_empty cfg.client_id) then (ok false, f) else replaced_at c f.reg f
