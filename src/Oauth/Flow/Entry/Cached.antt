-- ===== src/Oauth/Flow/Entry/Cached.antt =====
-- pkg/oauth/flow.go: a token that `Token` returns is the one in memory.
use mcpurl.Prelude.{some}
use mcpurl.Prelude.Bytes.{Bytes, is_empty}
use mcpurl.Oauth.Types.{Token}
use mcpurl.Oauth.Flow.Monad.{
  Lookup, found, not_found, corrupt, unreadable, bad_endpoint, no_client, client_gone,
  corrupt_registration, store_error, lock_error, discovery_error, no_registration, insecure,
  registration_refused, not_saved, rejected_fresh, refresh_failed, invalid_grant, invalid_client,
  login_failed, Outside, Config, Flow, Result, ok, err, M, outer, handle,
}
use mcpurl.Oauth.Flow.Client.{ensure_client}
use mcpurl.Oauth.Flow.Memory.{IsCached, Caches, bind-Caches, branch-Caches, with_lock-Caches}
use mcpurl.Oauth.Flow.Cached.{taken-IsCached, obtain-Caches}
use mcpurl.Oauth.Flow.Entry.{locked, on_lookup, fast, after_client, token_round, again, token}

module _ (o : Outside) (cfg : Config) where
  locked-Caches :
      (rejected challenge c key : Bytes) → Caches (locked o cfg rejected challenge c key)
  unfolding locked
  locked-Caches rejected challenge c key =
      with_lock-Caches key (obtain-Caches o cfg key c rejected challenge)

  on_lookup-Caches :
      (rejected challenge c key : Bytes) (l : Lookup Token)
      → Caches (on_lookup o cfg rejected challenge c key l)
  unfolding on_lookup
  on_lookup-Caches rejected challenge c key (found t) = record {
    cached_at = λ f.
        taken-IsCached o cfg (o.now f.outside) (some t) f (locked-Caches rejected challenge c key);
  }
  on_lookup-Caches rejected challenge c key not_found = locked-Caches rejected challenge c key
  on_lookup-Caches rejected challenge c key corrupt = locked-Caches rejected challenge c key
  on_lookup-Caches rejected challenge c key unreadable = locked-Caches rejected challenge c key

  fast-Caches : (rejected challenge c key : Bytes) → Caches (fast o cfg rejected challenge c key)
  unfolding fast
  fast-Caches rejected challenge c key = record {
    cached_at = λ f.
        taken-IsCached o cfg (o.now f.outside) f.cached f
          (bind-Caches (outer (o.load key)) (on_lookup-Caches rejected challenge c key));
  }

  after_client-Caches :
      (rejected challenge : Bytes) (k : Bytes × Bytes)
      → Caches (after_client o cfg rejected challenge k)
  unfolding after_client
  after_client-Caches rejected challenge (c, key) =
      branch-Caches (λ f. is_empty rejected) (fast-Caches rejected challenge c key)
        (locked-Caches rejected challenge c key)

  token_round-Caches : (rejected challenge : Bytes) → Caches (token_round o cfg rejected challenge)
  unfolding token_round
  token_round-Caches rejected challenge =
      bind-Caches (ensure_client o cfg challenge) (after_client-Caches rejected challenge)

  again-IsCached :
      (m : M o Bytes) (r : Result Bytes) (f : Flow o)
      → Caches m
      → IsCached (r, f)
      → IsCached (again o cfg m r f)
  unfolding again
  again-IsCached m (ok t) f p q = q
  again-IsCached m (err client_gone) f p q = p.cached_at f
  again-IsCached m (err bad_endpoint) f p q = tt
  again-IsCached m (err no_client) f p q = tt
  again-IsCached m (err corrupt_registration) f p q = tt
  again-IsCached m (err store_error) f p q = tt
  again-IsCached m (err lock_error) f p q = tt
  again-IsCached m (err discovery_error) f p q = tt
  again-IsCached m (err no_registration) f p q = tt
  again-IsCached m (err insecure) f p q = tt
  again-IsCached m (err registration_refused) f p q = tt
  again-IsCached m (err not_saved) f p q = tt
  again-IsCached m (err rejected_fresh) f p q = tt
  again-IsCached m (err refresh_failed) f p q = tt
  again-IsCached m (err invalid_grant) f p q = tt
  again-IsCached m (err invalid_client) f p q = tt
  again-IsCached m (err login_failed) f p q = tt

  -- A token that `Token` returns, on whatever path, is the access token of the one kept in memory.
  pub token-IsCached :
      (rejected challenge : Bytes) (f : Flow o) → IsCached (token o cfg rejected challenge f)
  unfolding token handle
  token-IsCached rejected challenge f =
      let m = token_round o cfg rejected challenge in
      let p = token_round-Caches rejected challenge in
      again-IsCached m ((m f).0) ((m f).1) p (p.cached_at f)
