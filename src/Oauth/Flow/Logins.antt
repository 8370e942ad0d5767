-- ===== src/Oauth/Flow/Logins.antt =====
-- pkg/oauth/flow.go: `obtain` starts at most one login, and none after which it would run again.
use mcpurl.Prelude.{
  Bool, true, false, not, ◌&&◌, Option, none, some, ◌≡◌, refl, ◌∙◌, inr, [], ◌∷◌, ◌++◌,
}
use mcpurl.Prelude.Bytes.{Bytes, codes, equal, is_empty}
use mcpurl.Oauth.Challenge.{parse_challenge, stale_token}
use mcpurl.Oauth.Types.{Token, Discovery}
use mcpurl.Oauth.Flow.Monad.{
  Lookup, found, not_found, corrupt, unreadable, Reply, unreachable, bad_json, failed, issued,
  refreshed, logged_in, bad_endpoint, no_client, client_gone, corrupt_registration, store_error,
  lock_error, discovery_error, no_registration, insecure, registration_refused, not_saved,
  rejected_fresh, refresh_failed, invalid_grant, invalid_client, login_failed, Outside, Config,
  Flow, Result, ok, err, M, outer, note, ◌>>=◌,
}
use mcpurl.Oauth.Flow.Once.{
  logins, logins-refreshed, logins-logged_in, is_gone, IsQuiet, IsOnce, IsQuiet-IsOnce,
  bind-IsQuiet, bind-IsOnce, handle-IsOnce, outer-IsQuiet, if-IsQuiet, branch-IsQuiet,
  branch-IsOnce, fail-IsQuiet,
}
use mcpurl.Oauth.Flow.Client.{client_id_of, foreign_client}
use mcpurl.Oauth.Flow.Client.Quiet.{
  discover-IsQuiet, drop_client-IsQuiet, leave_client-IsQuiet, client_replaced-IsQuiet,
}
use mcpurl.Oauth.Flow.{
  refused, accept_reply, post_with, refresh, keep_login, save_login, on_login, login_and_save,
  login_step, keep_refresh, save_refresh, drop_if_registered, after_refresh, may_refresh,
  refresh_step, with_server, scopes_for, usable, self_issued, take_stored, with_stored, on_loaded,
  on_replaced, obtain,
}

module _ (o : Outside) (cfg : Config) where
  refused-IsQuiet : (e : Bytes) → IsQuiet (refused o cfg e)
  unfolding refused
  refused-IsQuiet e = if-IsQuiet (equal e (codes "invalid_grant")) (fail-IsQuiet invalid_grant) (
      if-IsQuiet (equal e (codes "invalid_client")) (fail-IsQuiet invalid_client)
        (fail-IsQuiet refresh_failed))

  accept_reply-IsQuiet :
      (d : Discovery) (t : Token) (r : Reply) → IsQuiet (accept_reply o cfg d t r)
  unfolding accept_reply
  accept_reply-IsQuiet d t unreachable = fail-IsQuiet refresh_failed
  accept_reply-IsQuiet d t bad_json = fail-IsQuiet refresh_failed
  accept_reply-IsQuiet d t (failed e) = refused-IsQuiet e
  accept_reply-IsQuiet d t (issued r) =
      branch-IsQuiet (λ f. is_empty r.access_token) (fail-IsQuiet refresh_failed)
        (record { quiet_at = λ f. refl })

  note-IsQuiet : (t : Bytes) → IsQuiet (note {o = o} (refreshed t))
  note-IsQuiet t = record { quiet_at = λ f. logins-refreshed t f.calls }

  pub refresh-IsQuiet : (d : Discovery) (c : Bytes) (t : Token) → IsQuiet (refresh o cfg d c t)
  unfolding refresh post_with
  refresh-IsQuiet d c t =
      bind-IsQuiet
        (bind-IsQuiet (record { quiet_at = λ f. refl })
          (λ client. bind-IsQuiet (note-IsQuiet t.refresh_token) λ _. outer-IsQuiet _))
        (accept_reply-IsQuiet d t)

  -- What one login leaves behind: the calls as they were after it, and no wish for another round.
  abbrev IsSettled : {A : Type 0} → M o A → Type 0
  IsSettled m =
      (f : Flow o) → (logins ((m f).1.calls) ≡ logins f.calls) × (is_gone ((m f).0) ≡ false)

  keep_login-IsSettled : (t : Token) (saved : Bool) → IsSettled (keep_login o cfg t saved)
  unfolding keep_login ◌>>=◌ is_gone
  keep_login-IsSettled t false f = (refl, refl)
  keep_login-IsSettled t true f = (refl, refl)

  on_login-IsSettled :
      (key : Bytes) (d : Discovery) (t : Option Token) → IsSettled (on_login o cfg key d t)
  unfolding on_login save_login ◌>>=◌ outer is_gone
  on_login-IsSettled key d none f = (refl, refl)
  on_login-IsSettled key d (some t) f =
      let u = record t { issuer = d.issuer; client_id = client_id_of o cfg f } in
      let (saved, s) = o.save key u f.outside in
      keep_login-IsSettled u saved (record f { outside = s })

  login_and_save-IsOnce :
      (key : Bytes) (d : Discovery) (challenge : Bytes)
      → IsOnce (login_and_save o cfg key d challenge)
  unfolding login_and_save ◌>>=◌ outer
  login_and_save-IsOnce key d challenge = record {
    once_at = λ f.
        let g = record f { calls = f.calls ++ (logged_in ∷ []) } in
        let (t, s) = o.login d (client_id_of o cfg f) (scopes_for cfg d challenge) f.outside in
        let (e, gone) = on_login-IsSettled key d t (record g { outside = s }) in
        inr (e ∙ logins-logged_in f.calls, gone);
  }

  login_step-IsOnce :
      (key : Bytes) (d : Discovery) (rejected challenge : Bytes)
      → IsOnce (login_step o cfg key d rejected challenge)
  unfolding login_step
  login_step-IsOnce key d rejected challenge =
      branch-IsOnce (λ f. not (is_empty rejected) && equal rejected f.last_logged_in)
        (IsQuiet-IsOnce (fail-IsQuiet rejected_fresh)) (login_and_save-IsOnce key d challenge)

  keep_refresh-IsQuiet : (t : Token) (saved : Bool) → IsQuiet (keep_refresh o cfg t saved)
  unfolding keep_refresh ◌>>=◌
  keep_refresh-IsQuiet t false = fail-IsQuiet not_saved
  keep_refresh-IsQuiet t true = record { quiet_at = λ f. refl }

  pub save_refresh-IsQuiet : (key : Bytes) (t : Token) → IsQuiet (save_refresh o cfg key t)
  unfolding save_refresh
  save_refresh-IsQuiet key t = bind-IsQuiet (outer-IsQuiet _) (keep_refresh-IsQuiet t)

  pub drop_if_registered-IsQuiet : (c key : Bytes) → IsQuiet (drop_if_registered o cfg c key)
  unfolding drop_if_registered
  drop_if_registered-IsQuiet c key =
      branch-IsQuiet _ (drop_client-IsQuiet o cfg c key) (fail-IsQuiet refresh_failed)

  after_refresh-IsOnce :
      (c key : Bytes) (next : M o Bytes) (r : Result Token)
      → IsOnce next
      → IsOnce (after_refresh o cfg c key next r)
  unfolding after_refresh
  after_refresh-IsOnce c key next (ok t) p = IsQuiet-IsOnce (save_refresh-IsQuiet key t)
  after_refresh-IsOnce c key next (err invalid_grant) p = bind-IsOnce (outer-IsQuiet _) λ _. p
  after_refresh-IsOnce c key next (err invalid_client) p =
      IsQuiet-IsOnce (drop_if_registered-IsQuiet c key)
  after_refresh-IsOnce c key next (err bad_endpoint) p =
      IsQuiet-IsOnce (fail-IsQuiet refresh_failed)
  after_refresh-IsOnce c key next (err no_client) p = IsQuiet-IsOnce (fail-IsQuiet refresh_failed)
  after_refresh-IsOnce c key next (err client_gone) p = IsQuiet-IsOnce (fail-IsQuiet refresh_failed)
  after_refresh-IsOnce c key next (err corrupt_registration) p =
      IsQuiet-IsOnce (fail-IsQuiet refresh_failed)
  after_refresh-IsOnce c key next (err store_error) p = IsQuiet-IsOnce (fail-IsQuiet refresh_failed)
  after_refresh-IsOnce c key next (err lock_error) p = IsQuiet-IsOnce (fail-IsQuiet refresh_failed)
  after_refresh-IsOnce c key next (err discovery_error) p =
      IsQuiet-IsOnce (fail-IsQuiet refresh_failed)
  after_refresh-IsOnce c key next (err no_registration) p =
      IsQuiet-IsOnce (fail-IsQuiet refresh_failed)
  after_refresh-IsOnce c key next (err insecure) p = IsQuiet-IsOnce (fail-IsQuiet refresh_failed)
  after_refresh-IsOnce c key next (err registration_refused) p =
      IsQuiet-IsOnce (fail-IsQuiet refresh_failed)
  after_refresh-IsOnce c key next (err not_saved) p = IsQuiet-IsOnce (fail-IsQuiet refresh_failed)
  after_refresh-IsOnce c key next (err rejected_fresh) p =
      IsQuiet-IsOnce (fail-IsQuiet refresh_failed)
  after_refresh-IsOnce c key next (err refresh_failed) p =
      IsQuiet-IsOnce (fail-IsQuiet refresh_failed)
  after_refresh-IsOnce c key next (err login_failed) p =
      IsQuiet-IsOnce (fail-IsQuiet refresh_failed)

  refresh_step-IsOnce :
      (c key : Bytes) (d : Discovery) (t : Option Token) (rejected : Bytes) (next : M o Bytes)
      → IsOnce next
      → IsOnce (refresh_step o cfg c key d t rejected next)
  unfolding refresh_step
  refresh_step-IsOnce c key d none rejected next p = record { once_at = λ f. p.once_at f }
  refresh_step-IsOnce c key d (some t) rejected next p =
      branch-IsOnce (may_refresh o cfg t rejected)
        (handle-IsOnce (refresh-IsQuiet d c t) λ r. after_refresh-IsOnce c key next r p) p

  with_server-IsOnce :
      (key c : Bytes) (t : Option Token) (rejected challenge : Bytes) (d : Discovery)
      → IsOnce (with_server o cfg key c t rejected challenge d)
  unfolding with_server
  with_server-IsOnce key c t rejected challenge d =
      branch-IsOnce (foreign_client o cfg d) (IsQuiet-IsOnce (drop_client-IsQuiet o cfg c key))
        (refresh_step-IsOnce c key d t rejected _ (login_step-IsOnce key d rejected challenge))

  pub take_stored-IsQuiet : (t : Option Token) → IsQuiet (take_stored o cfg t)
  unfolding ◌>>=◌
  take_stored-IsQuiet t = record { quiet_at = λ f. refl }

  with_stored-IsOnce :
      (key c rejected challenge : Bytes) (t : Option Token)
      → IsOnce (with_stored o cfg key c rejected challenge t)
  unfolding with_stored
  with_stored-IsOnce key c rejected challenge t =
      branch-IsOnce (λ f. usable o cfg (o.now f.outside) rejected t)
        (IsQuiet-IsOnce (take_stored-IsQuiet t))
        (branch-IsOnce
          (λ f. self_issued rejected f && not (stale_token (parse_challenge challenge)))
          (IsQuiet-IsOnce (fail-IsQuiet rejected_fresh))
          (bind-IsOnce (discover-IsQuiet o cfg challenge)
            (with_server-IsOnce key c t rejected challenge)))

  on_loaded-IsOnce :
      (key c rejected challenge : Bytes) (l : Lookup Token)
      → IsOnce (on_loaded o cfg key c rejected challenge l)
  unfolding on_loaded
  on_loaded-IsOnce key c rejected challenge (found t) =
      with_stored-IsOnce key c rejected challenge (some t)
  on_loaded-IsOnce key c rejected challenge not_found =
      with_stored-IsOnce key c rejected challenge none
  on_loaded-IsOnce key c rejected challenge corrupt = IsQuiet-IsOnce (fail-IsQuiet store_error)
  on_loaded-IsOnce key c rejected challenge unreadable = IsQuiet-IsOnce (fail-IsQuiet store_error)

  on_replaced-IsOnce :
      (key c rejected challenge : Bytes) (b : Bool)
      → IsOnce (on_replaced o cfg key c rejected challenge b)
  unfolding on_replaced
  on_replaced-IsOnce key c rejected challenge true =
      IsQuiet-IsOnce (bind-IsQuiet leave_client-IsQuiet λ _. fail-IsQuiet client_gone)
  on_replaced-IsOnce key c rejected challenge false =
      bind-IsOnce (outer-IsQuiet _) (on_loaded-IsOnce key c rejected challenge)

  pub obtain-IsOnce :
      (key c rejected challenge : Bytes) → IsOnce (obtain o cfg key c rejected challenge)
  unfolding obtain
  obtain-IsOnce key c rejected challenge =
      bind-IsOnce (client_replaced-IsQuiet o cfg c) (on_replaced-IsOnce key c rejected challenge)
