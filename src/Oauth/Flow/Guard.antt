-- ===== src/Oauth/Flow/Guard.antt =====
-- pkg/oauth/flow.go: the token of this process's own login is refused.
use mcpurl.Prelude.{
  Bool, true, false, not, ◌&&◌, Option, none, some, ◌≡◌, refl, ◌∙◌, if_both, if◌then◌else◌,
}
use mcpurl.Prelude.Bytes.{Bytes, codes, equal, equal_self, is_empty}
use mcpurl.Oauth.Challenge.{parse_challenge, stale_token}
use mcpurl.Oauth.Types.{Token, Discovery}
use mcpurl.Oauth.Flow.Monad.{
  Lookup, found, not_found, corrupt, unreadable, Reply, unreachable, bad_json, failed, issued,
  bad_endpoint, no_client, client_gone, corrupt_registration, store_error, lock_error,
  discovery_error, no_registration, insecure, registration_refused, not_saved, rejected_fresh,
  refresh_failed, invalid_grant, invalid_client, login_failed, Outside, Config, Flow, Result, ok,
  err, M, fail, outer, continue, ◌>>=◌, handle,
}
use mcpurl.Oauth.Flow.Once.{logins, IsQuiet, bind-IsQuiet, outer-IsQuiet, fail-IsQuiet}
use mcpurl.Oauth.Flow.Client.{foreign_client, discover, discover_or, on_discovered, leave_client}
use mcpurl.Oauth.Flow.Client.Quiet.{discover-IsQuiet, drop_client-IsQuiet, leave_client-IsQuiet}
use mcpurl.Oauth.Flow.Client.Looks.{client_replaced-ok}
use mcpurl.Oauth.Flow.Logins.{
  refresh-IsQuiet, save_refresh-IsQuiet, drop_if_registered-IsQuiet, take_stored-IsQuiet,
}
use mcpurl.Oauth.Flow.{
  refused, accept_reply, post_with, refresh, login_step, after_refresh, may_refresh, refresh_step,
  with_server, usable, self_issued, with_stored, on_loaded, on_replaced, obtain,
}

module _ {o : Outside} where
  -- A method that keeps in mind which token the last login gave.
  abbrev Stays : {A : Type 0} → M o A → Type 0
  Stays m = (f : Flow o) → (m f).1.last_logged_in ≡ f.last_logged_in

  on_discovered-Stays : (d : Option Discovery) → Stays (on_discovered {o = o} d)
  unfolding ◌>>=◌
  on_discovered-Stays none f = refl
  on_discovered-Stays (some d) f = refl

module _ (o : Outside) (cfg : Config) where
  discover_or-Stays :
      (challenge : Bytes) (d : Option Discovery) → Stays (discover_or o cfg challenge d)
  unfolding discover_or ◌>>=◌ outer
  discover_or-Stays challenge (some d) f = refl
  discover_or-Stays challenge none f = on_discovered-Stays _ (record f { outside = _ })

  discover-Stays : (challenge : Bytes) → Stays (discover o cfg challenge)
  unfolding discover
  discover-Stays challenge f = discover_or-Stays challenge f.disco f

  refused-Stays : (e : Bytes) → Stays (refused o cfg e)
  unfolding refused
  refused-Stays e f =
      let kept : M o Token → Type 0 = λ m. (m f).1.last_logged_in ≡ f.last_logged_in in
      if_both kept (equal e (codes "invalid_grant")) refl
        (if_both kept (equal e (codes "invalid_client")) refl refl)

  accept_reply-Stays : (d : Discovery) (t : Token) (r : Reply) → Stays (accept_reply o cfg d t r)
  unfolding accept_reply
  accept_reply-Stays d t unreachable f = refl
  accept_reply-Stays d t bad_json f = refl
  accept_reply-Stays d t (failed e) f = refused-Stays e f
  accept_reply-Stays d t (issued r) f =
      if_both (λ (x : Result Token × Flow o). x.1.last_logged_in ≡ f.last_logged_in)
        (is_empty r.access_token) refl refl

  refresh-Stays : (d : Discovery) (c : Bytes) (t : Token) → Stays (refresh o cfg d c t)
  unfolding refresh post_with ◌>>=◌ outer
  refresh-Stays d c t f = accept_reply-Stays d t _ _

  -- The server refuses the token of the last login.
  module _ (rejected : Bytes) (given : is_empty rejected ≡ false) where
    -- A method that opens no browser then.
    record Spares {A : Type 0} (m : M o A) : Type 0 where
      spares_at :
          (f : Flow o) → f.last_logged_in ≡ rejected → logins ((m f).1.calls) ≡ logins f.calls

    continue-Spares :
        {A B : Type 0} (x : Result A × Flow o) (k : A → M o B)
        → x.1.last_logged_in ≡ rejected
        → ((a : A) → Spares (k a))
        → logins ((continue x k).1.calls) ≡ logins (x.1.calls)
    continue-Spares (ok a, f) k e p = (p a).spares_at f e
    continue-Spares (err y, f) k e p = refl

    bind-Spares :
        {A B : Type 0} {m : M o A} {k : A → M o B}
        → IsQuiet m
        → Stays m
        → ((a : A) → Spares (k a))
        → Spares (m >>= k)
    unfolding ◌>>=◌
    bind-Spares {m = m} {k = k} q s p = record {
      spares_at = λ f e. continue-Spares (m f) k (s f ∙ e) p ∙ q.quiet_at f;
    }

    handle-Spares :
        {A B : Type 0} {m : M o A} {k : Result A → M o B}
        → IsQuiet m
        → Stays m
        → ((r : Result A) → Spares (k r))
        → Spares (handle m k)
    unfolding handle
    handle-Spares {m = m} q s p = record {
      spares_at = λ f e. (p ((m f).0)).spares_at ((m f).1) (s f ∙ e) ∙ q.quiet_at f;
    }

    branch-Spares :
        {A : Type 0} (b : Flow o → Bool) {m n : M o A}
        → Spares m
        → Spares n
        → Spares (λ f. if b f then m f else n f)
    branch-Spares {A} b p q = record {
      spares_at = λ f e.
          if_both (λ (x : Result A × Flow o). logins (x.1.calls) ≡ logins f.calls) (b f)
            (p.spares_at f e) (q.spares_at f e);
    }

    IsQuiet-Spares : {A : Type 0} {m : M o A} → IsQuiet m → Spares m
    IsQuiet-Spares q = record { spares_at = λ f e. q.quiet_at f }

    login_step-Spares :
        (key : Bytes) (d : Discovery) (challenge : Bytes)
        → Spares (login_step o cfg key d rejected challenge)
    unfolding login_step
    login_step-Spares key d challenge = record {
      spares_at = λ f e. rw (given, e, equal_self rejected) refl;
    }

    gives_up : Spares (fail {o = o} {A = Bytes} refresh_failed)
    gives_up = record { spares_at = λ f e. refl }

    after_refresh-Spares :
        (c key : Bytes) (next : M o Bytes) (r : Result Token)
        → Spares next
        → Spares (after_refresh o cfg c key next r)
    unfolding after_refresh ◌>>=◌ outer
    after_refresh-Spares c key next (ok t) p = IsQuiet-Spares (save_refresh-IsQuiet o cfg key t)
    after_refresh-Spares c key next (err invalid_grant) p =
        bind-Spares (outer-IsQuiet (λ s. let (_, t) = o.delete key s in (tt, t))) (λ f. refl) λ _. p
    after_refresh-Spares c key next (err invalid_client) p =
        IsQuiet-Spares (drop_if_registered-IsQuiet o cfg c key)
    after_refresh-Spares c key next (err bad_endpoint) p = gives_up
    after_refresh-Spares c key next (err no_client) p = gives_up
    after_refresh-Spares c key next (err client_gone) p = gives_up
    after_refresh-Spares c key next (err corrupt_registration) p = gives_up
    after_refresh-Spares c key next (err store_error) p = gives_up
    after_refresh-Spares c key next (err lock_error) p = gives_up
    after_refresh-Spares c key next (err discovery_error) p = gives_up
    after_refresh-Spares c key next (err no_registration) p = gives_up
    after_refresh-Spares c key next (err insecure) p = gives_up
    after_refresh-Spares c key next (err registration_refused) p = gives_up
    after_refresh-Spares c key next (err not_saved) p = gives_up
    after_refresh-Spares c key next (err rejected_fresh) p = gives_up
    after_refresh-Spares c key next (err refresh_failed) p = gives_up
    after_refresh-Spares c key next (err login_failed) p = gives_up

    refresh_step-Spares :
        (c key : Bytes) (d : Discovery) (t : Option Token) (next : M o Bytes)
        → Spares next
        → Spares (refresh_step o cfg c key d t rejected next)
    unfolding refresh_step
    refresh_step-Spares c key d none next p = record { spares_at = λ f e. p.spares_at f e }
    refresh_step-Spares c key d (some t) next p =
        branch-Spares (may_refresh o cfg t rejected)
          (handle-Spares (refresh-IsQuiet o cfg d c t) (refresh-Stays d c t)
            λ r. after_refresh-Spares c key next r p)
          p

    with_server-Spares :
        (key c : Bytes) (t : Option Token) (challenge : Bytes) (d : Discovery)
        → Spares (with_server o cfg key c t rejected challenge d)
    unfolding with_server
    with_server-Spares key c t challenge d =
        branch-Spares (foreign_client o cfg d) (IsQuiet-Spares (drop_client-IsQuiet o cfg c key))
          (refresh_step-Spares c key d t _ (login_step-Spares key d challenge))

    with_stored-Spares :
        (key c challenge : Bytes) (t : Option Token)
        → Spares (with_stored o cfg key c rejected challenge t)
    unfolding with_stored
    with_stored-Spares key c challenge t =
        branch-Spares (λ f. usable o cfg (o.now f.outside) rejected t)
          (IsQuiet-Spares (take_stored-IsQuiet o cfg t))
          (branch-Spares
            (λ f. self_issued rejected f && not (stale_token (parse_challenge challenge)))
            (IsQuiet-Spares (fail-IsQuiet rejected_fresh))
            (bind-Spares (discover-IsQuiet o cfg challenge) (discover-Stays challenge)
              (with_server-Spares key c t challenge)))

    on_loaded-Spares :
        (key c challenge : Bytes) (l : Lookup Token)
        → Spares (on_loaded o cfg key c rejected challenge l)
    unfolding on_loaded
    on_loaded-Spares key c challenge (found t) = with_stored-Spares key c challenge (some t)
    on_loaded-Spares key c challenge not_found = with_stored-Spares key c challenge none
    on_loaded-Spares key c challenge corrupt = IsQuiet-Spares (fail-IsQuiet store_error)
    on_loaded-Spares key c challenge unreadable = IsQuiet-Spares (fail-IsQuiet store_error)

    on_replaced-Spares :
        (key c challenge : Bytes) (b : Bool) → Spares (on_replaced o cfg key c rejected challenge b)
    unfolding on_replaced ◌>>=◌ outer leave_client
    on_replaced-Spares key c challenge true =
        IsQuiet-Spares (bind-IsQuiet leave_client-IsQuiet λ _. fail-IsQuiet client_gone)
    on_replaced-Spares key c challenge false =
        bind-Spares (outer-IsQuiet _) (λ f. refl) (on_loaded-Spares key c challenge)

  -- Where the server refuses the token that the last login of this process gave, `obtain` starts no
  -- login, whatever the challenge says, also where it calls the token expired and whatever becomes of
  -- a refresh.
  pub obtain-logins :
      (key c rejected challenge : Bytes) (f : Flow o)
      → is_empty rejected ≡ false
      → f.last_logged_in ≡ rejected
      → logins ((obtain o cfg key c rejected challenge f).1.calls) ≡ logins f.calls
  unfolding obtain ◌>>=◌
  obtain-logins key c rejected challenge f given e =
      let (b, s, same) = client_replaced-ok o cfg c f in
      rw same (
        (on_replaced-Spares rejected given key c challenge b).spares_at (record f { outside = s })
          e)
