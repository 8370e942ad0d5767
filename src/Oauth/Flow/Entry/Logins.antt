-- ===== src/Oauth/Flow/Entry/Logins.antt =====
-- pkg/oauth/flow.go: one call of `Token` opens at most one browser window.
use mcpurl.Prelude.{ℕ, ◌+◌, some, ◌≡◌, ◌≤◌, refl, arith, inl, inr}
use mcpurl.Prelude.Bytes.{Bytes, is_empty}
use mcpurl.Oauth.Types.{Token, fresh}
use mcpurl.Oauth.Flow.Monad.{
  Lookup, found, not_found, corrupt, unreadable, bad_endpoint, no_client, client_gone,
  corrupt_registration, store_error, lock_error, discovery_error, no_registration, insecure,
  registration_refused, not_saved, rejected_fresh, refresh_failed, invalid_grant, invalid_client,
  login_failed, Outside, Config, Flow, Result, ok, err, M, handle,
}
use mcpurl.Oauth.Flow.Once.{
  logins, is_gone, IsOnce, IsOnceFrom, IsQuiet-IsOnce, bind-IsOnce, outer-IsQuiet, branch-IsOnce,
  pick-IsQuiet,
}
use mcpurl.Oauth.Flow.Client.Quiet.{ensure_client-IsQuiet, with_lock-IsOnce}
use mcpurl.Oauth.Flow.Logins.{obtain-IsOnce, take_stored-IsQuiet}
use mcpurl.Oauth.Flow.{take_stored}
use mcpurl.Oauth.Flow.Entry.{locked, on_lookup, fast, after_client, token_round, again, token}

module _ (o : Outside) (cfg : Config) where
  locked-IsOnce :
      (rejected challenge c key : Bytes) → IsOnce (locked o cfg rejected challenge c key)
  unfolding locked
  locked-IsOnce rejected challenge c key =
      with_lock-IsOnce key (obtain-IsOnce o cfg key c rejected challenge)

  on_lookup-IsOnce :
      (rejected challenge c key : Bytes) (l : Lookup Token)
      → IsOnce (on_lookup o cfg rejected challenge c key l)
  unfolding on_lookup
  on_lookup-IsOnce rejected challenge c key (found t) =
      branch-IsOnce (λ f. fresh (o.now f.outside) (some t))
        (IsQuiet-IsOnce (take_stored-IsQuiet o cfg (some t)))
        (locked-IsOnce rejected challenge c key)
  on_lookup-IsOnce rejected challenge c key not_found = locked-IsOnce rejected challenge c key
  on_lookup-IsOnce rejected challenge c key corrupt = locked-IsOnce rejected challenge c key
  on_lookup-IsOnce rejected challenge c key unreadable = locked-IsOnce rejected challenge c key

  fast-IsOnce : (rejected challenge c key : Bytes) → IsOnce (fast o cfg rejected challenge c key)
  unfolding fast
  fast-IsOnce rejected challenge c key =
      branch-IsOnce (λ f. fresh (o.now f.outside) f.cached)
        (IsQuiet-IsOnce
          (pick-IsQuiet (λ f. f.cached) {m = take_stored o cfg} (take_stored-IsQuiet o cfg)))
        (bind-IsOnce (outer-IsQuiet _) (on_lookup-IsOnce rejected challenge c key))

  after_client-IsOnce :
      (rejected challenge : Bytes) (k : Bytes × Bytes)
      → IsOnce (after_client o cfg rejected challenge k)
  unfolding after_client
  after_client-IsOnce rejected challenge (c, key) =
      branch-IsOnce (λ f. is_empty rejected) (fast-IsOnce rejected challenge c key)
        (locked-IsOnce rejected challenge c key)

  token_round-IsOnce : (rejected challenge : Bytes) → IsOnce (token_round o cfg rejected challenge)
  unfolding token_round
  token_round-IsOnce rejected challenge =
      bind-IsOnce (ensure_client-IsQuiet o cfg challenge) (after_client-IsOnce rejected challenge)

  at_most :
      {n k : ℕ} (x : Result Bytes × Flow o) → n ≡ k → IsOnceFrom n x → logins (x.1.calls) ≤ 1 + k
  at_most (r, f) e (inl p) = omega arith
  at_most (r, f) e (inr (p, g)) = omega arith

  -- The second round runs only after a round that started no login.
  again-bounded :
      (m : M o Bytes) (r : Result Bytes) (n : ℕ) (f : Flow o)
      → IsOnce m
      → IsOnceFrom n (r, f)
      → logins ((again o cfg m r f).1.calls) ≤ 1 + n
  unfolding again is_gone
  again-bounded m (ok t) n f p q = at_most (ok t, f) refl q
  again-bounded m (err client_gone) n f p (inl e) = at_most (m f) e (p.once_at f)
  again-bounded m (err client_gone) n f p (inr (e, g)) = ground arith
  again-bounded m (err bad_endpoint) n f p q = at_most (err bad_endpoint, f) refl q
  again-bounded m (err no_client) n f p q = at_most (err no_client, f) refl q
  again-bounded m (err corrupt_registration) n f p q = at_most (err corrupt_registration, f) refl q
  again-bounded m (err store_error) n f p q = at_most (err store_error, f) refl q
  again-bounded m (err lock_error) n f p q = at_most (err lock_error, f) refl q
  again-bounded m (err discovery_error) n f p q = at_most (err discovery_error, f) refl q
  again-bounded m (err no_registration) n f p q = at_most (err no_registration, f) refl q
  again-bounded m (err insecure) n f p q = at_most (err insecure, f) refl q
  again-bounded m (err registration_refused) n f p q = at_most (err registration_refused, f) refl q
  again-bounded m (err not_saved) n f p q = at_most (err not_saved, f) refl q
  again-bounded m (err rejected_fresh) n f p q = at_most (err rejected_fresh, f) refl q
  again-bounded m (err refresh_failed) n f p q = at_most (err refresh_failed, f) refl q
  again-bounded m (err invalid_grant) n f p q = at_most (err invalid_grant, f) refl q
  again-bounded m (err invalid_client) n f p q = at_most (err invalid_client, f) refl q
  again-bounded m (err login_failed) n f p q = at_most (err login_failed, f) refl q

  -- Whatever the servers, the stores and the other processes do, one call of `Token` starts the
  -- interactive login at most once, the round after a dropped registration included.
  pub token-logins :
      (rejected challenge : Bytes) (f : Flow o)
      → logins ((token o cfg rejected challenge f).1.calls) ≤ 1 + logins f.calls
  unfolding token handle
  token-logins rejected challenge f =
      let m = token_round o cfg rejected challenge in
      let once = token_round-IsOnce rejected challenge in
      again-bounded m ((m f).0) (logins f.calls) ((m f).1) once (once.once_at f)
