-- ===== src/Oauth/Flow/Entry/Forgotten.antt =====
-- `Forget` twice: what it dropped is gone.
use mcpurl.Prelude.{
  ◌≡◌, refl, sym, Bool, true, false, [], none, some, inl, inr, Bool-cases, Option-cases, subst,
}
use mcpurl.Prelude.Bytes.{Bytes, is_empty}
use mcpurl.Oauth.Types.{Token, Registration}
use mcpurl.Oauth.Flow.Monad.{
  Lookup, found, not_found, corrupt, unreadable, Outside, Config, Flow, Result, ok, err, outer,
  ◌>>=◌, handle,
}
use mcpurl.Oauth.Flow.Client.{
  canonical, client_key, client_id_of, token_key, on_client, resource_key_at, resource_key,
  leave_client,
}
use mcpurl.Oauth.Flow.Entry.{
  drop_deleted, drop_registration, was_stored, after_delete, unlink_corrupt, on_forget, forget,
}

-- Stores that lose what is deleted from them: a lookup changes nothing; behind a deletion that
-- succeeded it finds nothing, and another deletion of a token succeeds and changes nothing.
pub record Forgets (o : Outside) : Type 0 where
  pub load_still : (key : Bytes) (s : o.State) → (o.load key s).1 ≡ s
  pub client_still : (key : Bytes) (s : o.State) → (o.load_client key s).1 ≡ s
  pub erased :
      (key : Bytes) (s : o.State)
      → (o.delete key s).0 ≡ true
      → (o.load key (o.delete key s).1).0 ≡ not_found
  pub settled :
      (key : Bytes) (s : o.State)
      → (o.delete key s).0 ≡ true
      → o.delete key (o.delete key s).1 ≡ (true, (o.delete key s).1)
  pub client_erased :
      (key : Bytes) (s : o.State)
      → (o.delete_client key s).0 ≡ true
      → (o.load_client key (o.delete_client key s).1).0 ≡ not_found

module _ (o : Outside) (cfg : Config) (laws : Forgets o) where
  -- A `Flow` that was just built.
  abbrev pub blank : o.State → Flow o
  blank s = record {
    cached = none;
    reg = none;
    last_refreshed = [];
    last_logged_in = [];
    disco = none;
    outside = s;
    calls = [];
  }

  abbrev pub Forgot : Type 0
  Forgot = Result (Bool × Bool) × Flow o

  -- Nothing was dropped, and nothing outside changed.
  abbrev pub Idle : o.State → Forgot → Type 0
  Idle s x = (x.0 ≡ ok (false, false)) × (x.1.outside ≡ s)

  -- It failed, or the next one has nothing to drop.
  abbrev pub Final : Forgot → Type 0
  Final (err e, f) = Unit {0}
  Final (ok d, f) = Idle f.outside (forget o cfg (blank f.outside))

  module _ (c : Bytes) (found_at : canonical o cfg ≡ some c) where
    -- `Forget` from the registration that was looked up.
    abbrev looked : Lookup Registration → o.State → Forgot
    looked l s = handle (on_client o cfg c l) (on_forget o cfg) (blank s)

    forget-registered :
        (s : o.State)
        → is_empty cfg.client_id ≡ true
        → forget o cfg (blank s) ≡ looked (o.load_client (client_key o cfg c) s).0 s
    unfolding forget resource_key resource_key_at handle ◌>>=◌ outer
    forget-registered s e = rw (found_at, e, laws.client_still (client_key o cfg c) s) refl

    -- `Forget` with a configured client.
    forget-configured :
        (s : o.State)
        → is_empty cfg.client_id ≡ false
        → forget o cfg (blank s) ≡ on_forget o cfg (ok (c, cfg.key_of c cfg.client_id)) (blank s)
    unfolding forget resource_key resource_key_at handle token_key client_id_of
    forget-configured s e = rw (found_at, e) refl

    module _ (dynamic : is_empty cfg.client_id ≡ true) where
      abbrev Unregistered : o.State → Type 0
      Unregistered s = (o.load_client (client_key o cfg c) s).0 ≡ not_found

      forgotten-Idle : (s : o.State) → Unregistered s → Idle s (forget o cfg (blank s))
      unfolding on_client on_forget handle
      forgotten-Idle s gone = rw (forget-registered s dynamic, gone) (refl, refl)

      unlinked-Final :
          (x : Bool × o.State) (f : Flow o)
          → (x.0 ≡ true → Unregistered (x.1))
          → Final (unlink_corrupt o cfg (x.0) (record f { outside = x.1 }))
      unfolding unlink_corrupt
      unlinked-Final (false, t) f gone = tt
      unlinked-Final (true, t) f gone = forgotten-Idle t (gone refl)

      dropped-Final :
          (had : Bool) (x : Bool × o.State) (f : Flow o)
          → (x.0 ≡ true → Unregistered (x.1))
          → Final (drop_deleted o cfg had (x.0) (record f { outside = x.1 }))
      unfolding drop_deleted leave_client ◌>>=◌
      dropped-Final had (false, t) f gone = tt
      dropped-Final had (true, t) f gone = forgotten-Idle t (gone refl)

      deleted-Final :
          (l : Lookup Token) (r : Registration) (x : Bool × o.State) (f : Flow o)
          → Final (after_delete o cfg c l (x.0) (record f { reg = some r; outside = x.1 }))
      unfolding after_delete drop_registration ◌>>=◌ outer
      deleted-Final l r (false, t) f = tt
      deleted-Final l r (true, t) f =
          dropped-Final (was_stored o cfg l) (o.delete_client (client_key o cfg c) t)
            (record f { reg = some r; outside = t }) (laws.client_erased (client_key o cfg c) t)

      looked-Final :
          (l : Lookup Registration) (s : o.State)
          → (o.load_client (client_key o cfg c) s).0 ≡ l
          → Final (looked l s)
      unfolding handle on_client token_key on_forget ◌>>=◌ outer
      looked-Final (found r) s e =
          let k = cfg.key_of c (client_id_of o cfg (record (blank s) { reg = some r })) in
          deleted-Final (o.load k s).0 r (o.delete k (o.load k s).1) (blank s)
      looked-Final not_found s e = forgotten-Idle s e
      looked-Final corrupt s e = rw found_at (
          unlinked-Final (o.delete_client (client_key o cfg c) s) (blank s)
            (laws.client_erased (client_key o cfg c) s))
      looked-Final unreadable s e = tt

    module _ (configured : is_empty cfg.client_id ≡ false) where
      abbrev token_at : Bytes
      token_at = cfg.key_of c cfg.client_id

      untokened-Idle :
          (s : o.State)
          → (o.load token_at s).0 ≡ not_found
          → o.delete token_at s ≡ (true, s)
          → Idle s (forget o cfg (blank s))
      unfolding on_forget after_delete drop_registration was_stored ◌>>=◌ outer
      untokened-Idle s gone idle =
          rw (forget-configured s configured, laws.load_still token_at s, gone, idle) (refl, refl)

      token_deleted-Final :
          (l : Lookup Token) (x : Bool × o.State)
          → (x.0 ≡ true → (o.load token_at (x.1)).0 ≡ not_found)
          → (x.0 ≡ true → o.delete token_at (x.1) ≡ (true, x.1))
          → Final (after_delete o cfg c l (x.0) (blank (x.1)))
      unfolding after_delete drop_registration
      token_deleted-Final l (false, t) gone idle = tt
      token_deleted-Final l (true, t) gone idle = untokened-Idle t (gone refl) (idle refl)

      token-Final : (s : o.State) → Final (on_forget o cfg (ok (c, token_at)) (blank s))
      unfolding on_forget ◌>>=◌ outer
      token-Final s =
          token_deleted-Final (o.load token_at s).0 (o.delete token_at (o.load token_at s).1)
            (laws.erased token_at (o.load token_at s).1)
            (laws.settled token_at (o.load token_at s).1)

  unplaced-Final : (s : o.State) → canonical o cfg ≡ none → Final (forget o cfg (blank s))
  unfolding forget resource_key handle on_forget
  unplaced-Final s e = rw e tt

  -- Where the stores lose what is deleted from them: after a `Forget` that succeeds, the next one
  -- drops nothing and changes nothing.
  pub forget-Final : (s : o.State) → Final (forget o cfg (blank s))
  forget-Final s = elim (Option-cases (canonical o cfg)) [
    | inl unplaced ↦ unplaced-Final s unplaced
    | inr (c, at) ↦ elim (Bool-cases (is_empty cfg.client_id)) [
      | inl dynamic ↦
          subst Final (sym (forget-registered c at s dynamic))
            (looked-Final c at dynamic (o.load_client (client_key o cfg c) s).0 s refl)
      | inr configured ↦
          subst Final (sym (forget-configured c at s configured)) (token-Final c at configured s)
    ]
  ]
