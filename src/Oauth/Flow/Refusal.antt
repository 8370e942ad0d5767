-- ===== src/Oauth/Flow/Refusal.antt =====
-- pkg/oauth/flow.go: a token of this process's own making that the server refuses.
use mcpurl.Prelude.{Bool, true, false, Option, none, some, ◌≡◌, refl, inl, inr, Bool-cases}
use mcpurl.Prelude.Bytes.{Bytes}
use mcpurl.Oauth.Challenge.{parse_challenge, stale_token}
use mcpurl.Oauth.Types.{Token}
use mcpurl.Oauth.Flow.Monad.{
  Lookup, found, not_found, corrupt, unreadable, Outside, Config, Flow, Result, outer, ◌>>=◌,
}
use mcpurl.Oauth.Flow.Client.{leave_client}
use mcpurl.Oauth.Flow.Client.Looks.{client_replaced-ok}
use mcpurl.Oauth.Flow.{self_issued, usable, with_stored, on_loaded, on_replaced, obtain}

module _ (o : Outside) (cfg : Config) (rejected challenge : Bytes) where
  -- The server refuses this process's own token, and does not say that it has expired.
  abbrev pub IsRefusal : Flow o → Type 0
  IsRefusal f = (self_issued rejected f ≡ true) × (stale_token (parse_challenge challenge) ≡ false)

  -- No call of the authorization server or of the browser is added.
  abbrev pub IsIdle : Flow o → Result Bytes × Flow o → Type 0
  IsIdle f r = r.1.calls ≡ f.calls

  with_stored-IsIdle :
      (key c : Bytes) (t : Option Token) (f : Flow o)
      → IsRefusal f
      → IsIdle f (with_stored o cfg key c rejected challenge t f)
  unfolding with_stored ◌>>=◌
  with_stored-IsIdle key c t f (own, kept) =
      elim (Bool-cases (usable o cfg (o.now f.outside) rejected t)) [
        | inl other ↦ rw other refl
        | inr same ↦ rw (same, own, kept) refl
      ]

  on_loaded-IsIdle :
      (key c : Bytes) (l : Lookup Token) (f : Flow o)
      → IsRefusal f
      → IsIdle f (on_loaded o cfg key c rejected challenge l f)
  unfolding on_loaded
  on_loaded-IsIdle key c (found t) f h = with_stored-IsIdle key c (some t) f h
  on_loaded-IsIdle key c not_found f h = with_stored-IsIdle key c none f h
  on_loaded-IsIdle key c corrupt f h = refl
  on_loaded-IsIdle key c unreadable f h = refl

  on_replaced-IsIdle :
      (key c : Bytes) (b : Bool) (f : Flow o)
      → IsRefusal f
      → IsIdle f (on_replaced o cfg key c rejected challenge b f)
  unfolding on_replaced ◌>>=◌ outer leave_client self_issued
  on_replaced-IsIdle key c true f h = refl
  on_replaced-IsIdle key c false f h =
      let (l, s) = o.load key f.outside in on_loaded-IsIdle key c l (record f { outside = s }) h

  -- Where the server refuses a token that this process got from a refresh or a login, and does not
  -- call it expired, `obtain` neither refreshes nor logs in nor registers.
  pub obtain-IsIdle :
      (key c : Bytes) (f : Flow o)
      → IsRefusal f
      → IsIdle f (obtain o cfg key c rejected challenge f)
  unfolding obtain ◌>>=◌ self_issued
  obtain-IsIdle key c f h =
      let (b, s, e) = client_replaced-ok o cfg c f in
      rw e (on_replaced-IsIdle key c b (record f { outside = s }) h)
