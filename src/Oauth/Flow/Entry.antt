-- ===== src/Oauth/Flow/Entry.antt =====
-- pkg/oauth/flow.go and register.go: the methods that the rest of the program calls.
pub mod Logins
pub mod Cached
pub mod Forgotten
use mcpurl.Prelude.{Bool, true, false, ◌&&◌, not, Option, none, some, is_some, if◌then◌else◌}
use mcpurl.Prelude.Bytes.{Bytes, codes, is_empty}
use mcpurl.Oauth.Types.{Token, Registration, Discovery, fresh}
use mcpurl.Oauth.Flow.Monad.{
  Lookup, found, not_found, corrupt, unreadable, Error, bad_endpoint, no_client, client_gone,
  corrupt_registration, store_error, Outside, Config, Flow, Result, ok, err, M, pure, fail, outer,
  modify, ◌>>=◌, ◌>>◌, handle,
}
use mcpurl.Oauth.Flow.Client.{
  canonical, discover, ensure_client, foreign_client, drop_client, leave_client, with_lock,
  resource_key, client_key, at_canonical,
}
use mcpurl.Oauth.Flow.{obtain, login_and_save, take_stored}

module _ (o : Outside) (cfg : Config) where
  locked : Bytes → Bytes → Bytes → Bytes → M o Bytes
  locked rejected challenge c key = with_lock key (obtain o cfg key c rejected challenge)

  on_lookup : Bytes → Bytes → Bytes → Bytes → Lookup Token → M o Bytes
  unfolding locked
  on_lookup rejected challenge c key (found t) f =
      if fresh (o.now f.outside) (some t)
      then take_stored o cfg (some t) f
      else locked rejected challenge c key f
  on_lookup rejected challenge c key not_found f = locked rejected challenge c key f
  on_lookup rejected challenge c key corrupt f = locked rejected challenge c key f
  on_lookup rejected challenge c key unreadable f = locked rejected challenge c key f

  -- The two looks at a token that is already there, when the server refused none.
  fast : Bytes → Bytes → Bytes → Bytes → M o Bytes
  unfolding on_lookup
  fast rejected challenge c key f =
      if fresh (o.now f.outside) f.cached
      then take_stored o cfg f.cached f
      else (outer (o.load key) >>= on_lookup rejected challenge c key) f

  after_client : Bytes → Bytes → Bytes × Bytes → M o Bytes
  unfolding fast
  after_client rejected challenge (c, key) f =
      if is_empty rejected
      then fast rejected challenge c key f
      else locked rejected challenge c key f

  -- `token`
  unfoldable pub token_round : Bytes → Bytes → M o Bytes
  unfolding after_client
  token_round rejected challenge = ensure_client o cfg challenge >>= after_client rejected challenge

  again : M o Bytes → Result Bytes → M o Bytes
  again m (err client_gone) = m
  again m (err e) = fail e
  again m (ok t) = pure t

  -- `Token`: one more round after the registration was dropped.
  unfoldable pub token : Bytes → Bytes → M o Bytes
  unfolding again
  token rejected challenge =
      handle (token_round rejected challenge) (again (token_round rejected challenge))

  login_locked : Discovery → Bytes → Bytes × Bytes → M o Bytes
  login_locked d challenge (c, key) = with_lock key (login_and_save o cfg key d challenge)

  after_drop : Bytes → Result (Bytes × Bytes) → M o (Bytes × Bytes)
  after_drop challenge (err client_gone) = ensure_client o cfg challenge
  after_drop challenge (err e) = fail e
  after_drop challenge (ok k) = pure k

  own_client : Discovery → Bytes → Bytes × Bytes → M o (Bytes × Bytes)
  unfolding after_drop
  own_client d challenge (c, key) f =
      if foreign_client o cfg d f
      then handle (drop_client o cfg c key) (after_drop challenge) f
      else pure (c, key) f

  -- `Login`, where `probe` is `f.probeChallenge`.
  unfoldable pub login : (Bytes → o.State → Bytes × o.State) → M o Bytes
  unfolding own_client login_locked
  login probe =
      at_canonical o cfg
        (λ c. outer (probe c) >>= λ challenge. discover o cfg challenge >>= λ d.
          ensure_client o cfg challenge >>= own_client d challenge >>= login_locked d challenge)
        (canonical o cfg)

  on_registration : Result (Bytes × Bytes) → M o (Option Registration)
  on_registration (err no_client) f = (ok (if is_empty cfg.client_id then f.reg else none), f)
  on_registration (err e) f = fail e f
  on_registration (ok k) f = (ok (if is_empty cfg.client_id then f.reg else none), f)

  -- `Registration`
  unfoldable pub registration : M o (Option Registration)
  unfolding on_registration
  registration = handle (resource_key o cfg) on_registration

  drop_deleted : Bool → Bool → M o (Bool × Bool)
  drop_deleted had false = fail store_error
  drop_deleted had true = leave_client >> pure (had, true)

  drop_registration : Bytes → Bool → M o (Bool × Bool)
  unfolding drop_deleted
  drop_registration c had f =
      if is_some f.reg
      then (outer (o.delete_client (client_key o cfg c)) >>= drop_deleted had) f
      else pure (had, false) f

  was_stored : Lookup Token → Bool
  was_stored not_found = false
  was_stored l = true

  after_delete : Bytes → Lookup Token → Bool → M o (Bool × Bool)
  unfolding drop_registration was_stored
  after_delete c l false = fail store_error
  after_delete c l true = drop_registration c (was_stored l)

  unlink_corrupt : Bool → M o (Bool × Bool)
  unlink_corrupt false = fail store_error
  unlink_corrupt true = pure (false, true)

  on_forget : Result (Bytes × Bytes) → M o (Bool × Bool)
  unfolding after_delete unlink_corrupt
  on_forget (err no_client) = pure (false, false)
  on_forget (err corrupt_registration) =
      at_canonical o cfg (λ c. outer (o.delete_client (client_key o cfg c)) >>= unlink_corrupt)
        (canonical o cfg)
  on_forget (err e) = fail e
  on_forget (ok (c, key)) = outer (o.load key) >>= λ l. outer (o.delete key) >>= after_delete c l

  -- `Forget`: whether it dropped a token and a registration.
  unfoldable pub forget : M o (Bool × Bool)
  unfolding on_forget
  forget = handle (resource_key o cfg) on_forget
