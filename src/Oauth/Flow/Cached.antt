-- ===== src/Oauth/Flow/Cached.antt =====
-- pkg/oauth/flow.go: a token that `obtain` returns is the one in memory.
use mcpurl.Prelude.{
  ℕ, Bool, true, false, not, ◌&&◌, Option, none, some, refl, if_both, if◌then◌else◌,
}
use mcpurl.Prelude.Bytes.{Bytes, equal, is_empty}
use mcpurl.Oauth.Challenge.{parse_challenge, stale_token}
use mcpurl.Oauth.Types.{Token, Discovery, fresh}
use mcpurl.Oauth.Flow.Monad.{
  Lookup, found, not_found, corrupt, unreadable, bad_endpoint, no_client, client_gone,
  corrupt_registration, store_error, lock_error, discovery_error, no_registration, insecure,
  registration_refused, not_saved, rejected_fresh, refresh_failed, invalid_grant, invalid_client,
  login_failed, Outside, Config, Flow, Result, ok, err, M, outer, ◌>>=◌,
}
use mcpurl.Oauth.Flow.Client.{client_replaced, foreign_client, drop_client, leave_client, discover}
use mcpurl.Oauth.Flow.Memory.{
  IsCached, Caches, bind-Caches, handle-Caches, branch-Caches, fail-Caches,
}
use mcpurl.Oauth.Flow.{
  keep_login, save_login, on_login, login_and_save, login_step, keep_refresh, save_refresh,
  drop_if_registered, after_refresh, may_refresh, refresh_step, refresh, with_server, usable,
  token_of, self_issued, take_stored, with_stored, on_loaded, on_replaced, obtain,
}

module _ (o : Outside) (cfg : Config) where
  keep_login-Caches : (t : Token) (saved : Bool) → Caches (keep_login o cfg t saved)
  unfolding keep_login ◌>>=◌
  keep_login-Caches t false = fail-Caches not_saved
  keep_login-Caches t true = record { cached_at = λ f. (t, (refl, refl)) }

  save_login-Caches : (key : Bytes) (t : Token) → Caches (save_login o cfg key t)
  unfolding save_login
  save_login-Caches key t = bind-Caches (outer _) (keep_login-Caches t)

  on_login-Caches :
      (key : Bytes) (d : Discovery) (t : Option Token) → Caches (on_login o cfg key d t)
  unfolding on_login
  on_login-Caches key d none = fail-Caches login_failed
  on_login-Caches key d (some t) = record { cached_at = λ f. (save_login-Caches key _).cached_at f }

  login_and_save-Caches :
      (key : Bytes) (d : Discovery) (challenge : Bytes)
      → Caches (login_and_save o cfg key d challenge)
  unfolding login_and_save
  login_and_save-Caches key d challenge = record {
    cached_at = λ f. (bind-Caches _ (on_login-Caches key d)).cached_at f;
  }

  login_step-Caches :
      (key : Bytes) (d : Discovery) (rejected challenge : Bytes)
      → Caches (login_step o cfg key d rejected challenge)
  unfolding login_step
  login_step-Caches key d rejected challenge =
      branch-Caches (λ f. not (is_empty rejected) && equal rejected f.last_logged_in)
        (fail-Caches rejected_fresh) (login_and_save-Caches key d challenge)

  keep_refresh-Caches : (t : Token) (saved : Bool) → Caches (keep_refresh o cfg t saved)
  unfolding keep_refresh ◌>>=◌
  keep_refresh-Caches t false = fail-Caches not_saved
  keep_refresh-Caches t true = record { cached_at = λ f. (t, (refl, refl)) }

  pub drop_client-Caches : (c key : Bytes) → Caches (drop_client o cfg c key)
  unfolding drop_client
  drop_client-Caches c key =
      bind-Caches _
        (λ gone. bind-Caches _ (λ _. bind-Caches _ λ _. bind-Caches _ λ _. fail-Caches client_gone))

  drop_if_registered-Caches : (c key : Bytes) → Caches (drop_if_registered o cfg c key)
  unfolding drop_if_registered
  drop_if_registered-Caches c key =
      branch-Caches _ (drop_client-Caches c key) (fail-Caches refresh_failed)

  after_refresh-Caches :
      (c key : Bytes) (next : M o Bytes) (r : Result Token)
      → Caches next
      → Caches (after_refresh o cfg c key next r)
  unfolding after_refresh save_refresh
  after_refresh-Caches c key next (ok t) p = bind-Caches (outer _) (keep_refresh-Caches t)
  after_refresh-Caches c key next (err invalid_grant) p = bind-Caches (outer _) λ _. p
  after_refresh-Caches c key next (err invalid_client) p = drop_if_registered-Caches c key
  after_refresh-Caches c key next (err bad_endpoint) p = fail-Caches refresh_failed
  after_refresh-Caches c key next (err no_client) p = fail-Caches refresh_failed
  after_refresh-Caches c key next (err client_gone) p = fail-Caches refresh_failed
  after_refresh-Caches c key next (err corrupt_registration) p = fail-Caches refresh_failed
  after_refresh-Caches c key next (err store_error) p = fail-Caches refresh_failed
  after_refresh-Caches c key next (err lock_error) p = fail-Caches refresh_failed
  after_refresh-Caches c key next (err discovery_error) p = fail-Caches refresh_failed
  after_refresh-Caches c key next (err no_registration) p = fail-Caches refresh_failed
  after_refresh-Caches c key next (err insecure) p = fail-Caches refresh_failed
  after_refresh-Caches c key next (err registration_refused) p = fail-Caches refresh_failed
  after_refresh-Caches c key next (err not_saved) p = fail-Caches refresh_failed
  after_refresh-Caches c key next (err rejected_fresh) p = fail-Caches refresh_failed
  after_refresh-Caches c key next (err refresh_failed) p = fail-Caches refresh_failed
  after_refresh-Caches c key next (err login_failed) p = fail-Caches refresh_failed

  refresh_step-Caches :
      (c key : Bytes) (d : Discovery) (t : Option Token) (rejected : Bytes) (next : M o Bytes)
      → Caches next
      → Caches (refresh_step o cfg c key d t rejected next)
  unfolding refresh_step
  refresh_step-Caches c key d none rejected next p = record { cached_at = λ f. p.cached_at f }
  refresh_step-Caches c key d (some t) rejected next p =
      branch-Caches (may_refresh o cfg t rejected)
        (handle-Caches (refresh o cfg d c t) λ r. after_refresh-Caches c key next r p) p

  with_server-Caches :
      (key c : Bytes) (t : Option Token) (rejected challenge : Bytes) (d : Discovery)
      → Caches (with_server o cfg key c t rejected challenge d)
  unfolding with_server
  with_server-Caches key c t rejected challenge d =
      branch-Caches (foreign_client o cfg d) (drop_client-Caches c key)
        (refresh_step-Caches c key d t rejected _ (login_step-Caches key d rejected challenge))

  take_stored-Caches : (t : Token) → Caches (take_stored o cfg (some t))
  unfolding ◌>>=◌ token_of
  take_stored-Caches t = record { cached_at = λ f. (t, (refl, refl)) }

  -- Taking a token that is there, else another method.
  pub taken-IsCached :
      (now : ℕ) (t : Option Token) (f : Flow o) {m : M o Bytes}
      → Caches m
      → IsCached (if fresh now t then take_stored o cfg t f else m f)
  unfolding fresh
  taken-IsCached now none f p = p.cached_at f
  taken-IsCached now (some t) f p =
      if_both IsCached (fresh now (some t)) ((take_stored-Caches t).cached_at f) (p.cached_at f)

  usable-IsCached :
      (now : ℕ) (rejected : Bytes) (t : Option Token) (f : Flow o) {m : M o Bytes}
      → Caches m
      → IsCached (if usable o cfg now rejected t then take_stored o cfg t f else m f)
  unfolding usable
  usable-IsCached now rejected none f p = p.cached_at f
  usable-IsCached now rejected (some t) f p =
      if_both IsCached (fresh now (some t) && not (equal t.access_token rejected))
        ((take_stored-Caches t).cached_at f) (p.cached_at f)

  with_stored-Caches :
      (key c rejected challenge : Bytes) (t : Option Token)
      → Caches (with_stored o cfg key c rejected challenge t)
  unfolding with_stored
  with_stored-Caches key c rejected challenge t =
      let rest =
        branch-Caches (λ f. self_issued rejected f && not (stale_token (parse_challenge challenge)))
          (fail-Caches rejected_fresh)
          (bind-Caches (discover o cfg challenge)
            (with_server-Caches key c t rejected challenge)) in
      record { cached_at = λ f. usable-IsCached (o.now f.outside) rejected t f rest }

  on_loaded-Caches :
      (key c rejected challenge : Bytes) (l : Lookup Token)
      → Caches (on_loaded o cfg key c rejected challenge l)
  unfolding on_loaded
  on_loaded-Caches key c rejected challenge (found t) =
      with_stored-Caches key c rejected challenge (some t)
  on_loaded-Caches key c rejected challenge not_found =
      with_stored-Caches key c rejected challenge none
  on_loaded-Caches key c rejected challenge corrupt = fail-Caches store_error
  on_loaded-Caches key c rejected challenge unreadable = fail-Caches store_error

  on_replaced-Caches :
      (key c rejected challenge : Bytes) (b : Bool)
      → Caches (on_replaced o cfg key c rejected challenge b)
  unfolding on_replaced
  on_replaced-Caches key c rejected challenge true =
      bind-Caches leave_client λ _. fail-Caches client_gone
  on_replaced-Caches key c rejected challenge false =
      bind-Caches (outer _) (on_loaded-Caches key c rejected challenge)

  pub obtain-Caches :
      (key c rejected challenge : Bytes) → Caches (obtain o cfg key c rejected challenge)
  unfolding obtain
  obtain-Caches key c rejected challenge =
      bind-Caches (client_replaced o cfg c) (on_replaced-Caches key c rejected challenge)
