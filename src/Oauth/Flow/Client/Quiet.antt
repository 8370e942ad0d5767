-- ===== src/Oauth/Flow/Client/Quiet.antt =====
-- pkg/oauth/register.go starts no browser login.
use mcpurl.Prelude.{Bool, not, ◌&&◌, false, Option, none, some, refl}
use mcpurl.Prelude.Bytes.{Bytes, is_empty, contains}
use mcpurl.Oauth.Types.{Registration, Discovery}
use mcpurl.Oauth.Flow.Monad.{
  Lookup, found, not_found, corrupt, unreadable, Answer, no_answer, http_failure, no_json,
  registered, registered_client, bad_endpoint, no_client, client_gone, corrupt_registration,
  store_error, lock_error, discovery_error, no_registration, insecure, registration_refused,
  not_saved, rejected_fresh, refresh_failed, invalid_grant, invalid_client, login_failed, Outside,
  Config, Flow, Result, ok, err, M, gets, note, ◌>>=◌,
}
use mcpurl.Oauth.Flow.Once.{
  logins-registered, IsOnce, bind-IsOnce, if-IsOnce, IsQuiet-IsOnce, IsQuiet, bind-IsQuiet,
  handle-IsQuiet, outer-IsQuiet, if-IsQuiet, branch-IsQuiet, pure-IsQuiet, fail-IsQuiet,
  pick-IsQuiet,
}
use mcpurl.Oauth.Flow.Client.{
  with_lock, leave_client, discover, discover_or, canonical, on_discovered, set_reg, token_key,
  on_client, resource_key_at, resource_key, at_canonical, accept, register, register_anew, share,
  register_locked, register_with, register_first, on_key, ensure_client, forget_record, delete_if,
  check_deleted, drop_client, replaced_at, client_replaced,
}

module _ {o : Outside} where
  pub with_lock-IsQuiet :
      {A : Type 0} (key : Bytes) {m : M o A} → IsQuiet m → IsQuiet (with_lock key m)
  unfolding with_lock
  with_lock-IsQuiet key p =
      bind-IsQuiet (outer-IsQuiet _) λ got. if-IsQuiet got p (fail-IsQuiet lock_error)

  pub with_lock-IsOnce :
      {A : Type 0} (key : Bytes) {m : M o A} → IsOnce m → IsOnce (with_lock key m)
  unfolding with_lock
  with_lock-IsOnce key p =
      bind-IsOnce (outer-IsQuiet _)
        λ got. if-IsOnce got p (IsQuiet-IsOnce (fail-IsQuiet lock_error))

  modify_reg-IsQuiet : (r : Registration) → IsQuiet (set_reg {o = o} r)
  modify_reg-IsQuiet r = record { quiet_at = λ f. refl }

  pub leave_client-IsQuiet : IsQuiet (leave_client {o = o})
  unfolding leave_client
  leave_client-IsQuiet = record { quiet_at = λ f. refl }

  on_discovered-IsQuiet : (d : Option Discovery) → IsQuiet (on_discovered {o = o} d)
  unfolding ◌>>=◌
  on_discovered-IsQuiet none = fail-IsQuiet discovery_error
  on_discovered-IsQuiet (some d) = record { quiet_at = λ f. refl }

module _ (o : Outside) (cfg : Config) where
  discover_or-IsQuiet :
      (challenge : Bytes) (d : Option Discovery) → IsQuiet (discover_or o cfg challenge d)
  unfolding discover_or
  discover_or-IsQuiet challenge none = bind-IsQuiet (outer-IsQuiet _) on_discovered-IsQuiet
  discover_or-IsQuiet challenge (some d) = pure-IsQuiet d

  pub discover-IsQuiet : (challenge : Bytes) → IsQuiet (discover o cfg challenge)
  unfolding discover
  discover-IsQuiet challenge =
      pick-IsQuiet (λ f. f.disco) {m = discover_or o cfg challenge} (discover_or-IsQuiet challenge)

  token_key-IsQuiet : (c : Bytes) → IsQuiet (token_key o cfg c)
  unfolding token_key
  token_key-IsQuiet c = record { quiet_at = λ f. refl }

  on_client-IsQuiet : (c : Bytes) (l : Lookup Registration) → IsQuiet (on_client o cfg c l)
  unfolding on_client
  on_client-IsQuiet c (found r) = bind-IsQuiet (modify_reg-IsQuiet r) λ _. token_key-IsQuiet c
  on_client-IsQuiet c not_found = fail-IsQuiet no_client
  on_client-IsQuiet c corrupt = fail-IsQuiet corrupt_registration
  on_client-IsQuiet c unreadable = fail-IsQuiet store_error

  resource_key_at-IsQuiet : (c : Bytes) → IsQuiet (resource_key_at o cfg c)
  unfolding resource_key_at
  resource_key_at-IsQuiet c =
      branch-IsQuiet _ (bind-IsQuiet (outer-IsQuiet _) (on_client-IsQuiet c)) (token_key-IsQuiet c)

  at_canonical-IsQuiet :
      {A : Type 0} (k : Bytes → M o A) (c : Option Bytes)
      → ((b : Bytes) → IsQuiet (k b))
      → IsQuiet (at_canonical o cfg k c)
  at_canonical-IsQuiet k none p = fail-IsQuiet bad_endpoint
  at_canonical-IsQuiet k (some c) p = p c

  pub resource_key-IsQuiet : IsQuiet (resource_key o cfg)
  unfolding resource_key
  resource_key-IsQuiet =
      at_canonical-IsQuiet (resource_key_at o cfg) (canonical o cfg) resource_key_at-IsQuiet

  accept-IsQuiet : (d : Discovery) (a : Answer) → IsQuiet (accept o cfg d a)
  unfolding accept
  accept-IsQuiet d no_answer = fail-IsQuiet registration_refused
  accept-IsQuiet d http_failure = fail-IsQuiet registration_refused
  accept-IsQuiet d no_json = fail-IsQuiet registration_refused
  accept-IsQuiet d (registered a) =
      if-IsQuiet (is_empty a.client_id) (fail-IsQuiet registration_refused) (
        if-IsQuiet (not (is_empty a.client_secret)) (fail-IsQuiet registration_refused) (
          if-IsQuiet
            (not (is_empty a.redirect_uris) && not (contains a.redirect_uris cfg.redirect_uri))
            (fail-IsQuiet registration_refused)
            (pure-IsQuiet (record {
              client_id = a.client_id;
              issuer = d.issuer;
              redirect_uri = cfg.redirect_uri;
            }))))

  note-IsQuiet : IsQuiet (note {o = o} registered_client)
  note-IsQuiet = record { quiet_at = λ f. logins-registered f.calls }

  register-IsQuiet : (d : Discovery) → IsQuiet (register o cfg d)
  unfolding register
  register-IsQuiet d =
      if-IsQuiet _ (fail-IsQuiet insecure)
        (bind-IsQuiet note-IsQuiet λ _. bind-IsQuiet (outer-IsQuiet _) (accept-IsQuiet d))

  register_anew-IsQuiet : (ck : Bytes) (d : Discovery) → IsQuiet (register_anew o cfg ck d)
  unfolding register_anew
  register_anew-IsQuiet ck d = bind-IsQuiet (register-IsQuiet d) (λ r.
      bind-IsQuiet (outer-IsQuiet _)
        λ saved. if-IsQuiet saved (modify_reg-IsQuiet r) (fail-IsQuiet not_saved))

  share-IsQuiet :
      (ck : Bytes) (d : Discovery) (l : Lookup Registration) → IsQuiet (share o cfg ck d l)
  unfolding share
  share-IsQuiet ck d (found r) = if-IsQuiet _ (modify_reg-IsQuiet r) (register_anew-IsQuiet ck d)
  share-IsQuiet ck d not_found = register_anew-IsQuiet ck d
  share-IsQuiet ck d corrupt = register_anew-IsQuiet ck d
  share-IsQuiet ck d unreadable = register_anew-IsQuiet ck d

  register_locked-IsQuiet : (c : Bytes) (d : Discovery) → IsQuiet (register_locked o cfg c d)
  unfolding register_locked
  register_locked-IsQuiet c d = bind-IsQuiet (outer-IsQuiet _) (share-IsQuiet _ d)

  register_with-IsQuiet : (c : Bytes) (d : Discovery) → IsQuiet (register_with o cfg c d)
  unfolding register_with
  register_with-IsQuiet c d =
      if-IsQuiet _ (fail-IsQuiet no_registration)
        (bind-IsQuiet (with_lock-IsQuiet _ (register_locked-IsQuiet c d)) λ _. token_key-IsQuiet c)

  register_first-IsQuiet : (challenge c : Bytes) → IsQuiet (register_first o cfg challenge c)
  unfolding register_first
  register_first-IsQuiet challenge c =
      bind-IsQuiet (discover-IsQuiet challenge) (register_with-IsQuiet c)

  on_key-IsQuiet :
      (challenge : Bytes) (r : Result (Bytes × Bytes)) → IsQuiet (on_key o cfg challenge r)
  unfolding on_key
  on_key-IsQuiet challenge (ok k) = pure-IsQuiet k
  on_key-IsQuiet challenge (err no_client) =
      at_canonical-IsQuiet (register_first o cfg challenge) (canonical o cfg)
        (register_first-IsQuiet challenge)
  on_key-IsQuiet challenge (err bad_endpoint) = fail-IsQuiet bad_endpoint
  on_key-IsQuiet challenge (err client_gone) = fail-IsQuiet client_gone
  on_key-IsQuiet challenge (err corrupt_registration) = fail-IsQuiet corrupt_registration
  on_key-IsQuiet challenge (err store_error) = fail-IsQuiet store_error
  on_key-IsQuiet challenge (err lock_error) = fail-IsQuiet lock_error
  on_key-IsQuiet challenge (err discovery_error) = fail-IsQuiet discovery_error
  on_key-IsQuiet challenge (err no_registration) = fail-IsQuiet no_registration
  on_key-IsQuiet challenge (err insecure) = fail-IsQuiet insecure
  on_key-IsQuiet challenge (err registration_refused) = fail-IsQuiet registration_refused
  on_key-IsQuiet challenge (err not_saved) = fail-IsQuiet not_saved
  on_key-IsQuiet challenge (err rejected_fresh) = fail-IsQuiet rejected_fresh
  on_key-IsQuiet challenge (err refresh_failed) = fail-IsQuiet refresh_failed
  on_key-IsQuiet challenge (err invalid_grant) = fail-IsQuiet invalid_grant
  on_key-IsQuiet challenge (err invalid_client) = fail-IsQuiet invalid_client
  on_key-IsQuiet challenge (err login_failed) = fail-IsQuiet login_failed

  pub ensure_client-IsQuiet : (challenge : Bytes) → IsQuiet (ensure_client o cfg challenge)
  unfolding ensure_client
  ensure_client-IsQuiet challenge = handle-IsQuiet resource_key-IsQuiet (on_key-IsQuiet challenge)

  check_deleted-IsQuiet : (done : Bool) → IsQuiet (check_deleted o cfg done)
  unfolding check_deleted
  check_deleted-IsQuiet done = if-IsQuiet done (pure-IsQuiet tt) (fail-IsQuiet store_error)

  delete_if-IsQuiet : (c : Bytes) (same : Bool) → IsQuiet (delete_if o cfg c same)
  unfolding delete_if
  delete_if-IsQuiet c same =
      if-IsQuiet same (bind-IsQuiet (outer-IsQuiet _) check_deleted-IsQuiet) (pure-IsQuiet tt)

  forget_record-IsQuiet : (c gone : Bytes) → IsQuiet (forget_record o cfg c gone)
  unfolding forget_record
  forget_record-IsQuiet c gone = bind-IsQuiet (outer-IsQuiet _) λ l. delete_if-IsQuiet c _

  gets-IsQuiet : {A : Type 0} (g : Flow o → A) → IsQuiet (gets g)
  gets-IsQuiet g = record { quiet_at = λ f. refl }

  pub drop_client-IsQuiet : {A : Type 0} (c key : Bytes) → IsQuiet (drop_client o cfg {A = A} c key)
  unfolding drop_client
  drop_client-IsQuiet c key = bind-IsQuiet (gets-IsQuiet _) (λ gone.
      bind-IsQuiet (outer-IsQuiet _) (λ _. bind-IsQuiet leave_client-IsQuiet (λ _.
        bind-IsQuiet (with_lock-IsQuiet _ (forget_record-IsQuiet c gone))
          λ _. fail-IsQuiet client_gone)))

  replaced_at-IsQuiet : (c : Bytes) (r : Option Registration) → IsQuiet (replaced_at o cfg c r)
  unfolding replaced_at
  replaced_at-IsQuiet c none = pure-IsQuiet false
  replaced_at-IsQuiet c (some r) = bind-IsQuiet (outer-IsQuiet _) λ l. pure-IsQuiet _

  pub client_replaced-IsQuiet : (c : Bytes) → IsQuiet (client_replaced o cfg c)
  unfolding client_replaced
  client_replaced-IsQuiet c =
      branch-IsQuiet _ (pure-IsQuiet false)
        (pick-IsQuiet (λ f. f.reg) {m = replaced_at o cfg c} (replaced_at-IsQuiet c))
