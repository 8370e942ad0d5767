-- ===== src/Oauth/Flow/Client/Looks.antt =====
-- pkg/oauth/register.go: `clientReplaced` only looks.
use mcpurl.Prelude.{Bool, false, not, Option, none, some, ◌≡◌, refl, inl, inr, Bool-cases}
use mcpurl.Prelude.Bytes.{Bytes, is_empty}
use mcpurl.Oauth.Types.{Registration}
use mcpurl.Oauth.Flow.Monad.{Outside, Config, Flow, ok, outer, ◌>>=◌}
use mcpurl.Oauth.Flow.Client.{client_replaced, replaced_at, same_client}

module _ (o : Outside) (cfg : Config) where
  -- A look at the stored registration changes nothing in this process.
  replaced_at-ok :
      (c : Bytes) (r : Option Registration) (f : Flow o)
      → (b : Bool) × (s : o.State) × (replaced_at o cfg c r f ≡ (ok b, record f { outside = s }))
  unfolding replaced_at ◌>>=◌ outer
  replaced_at-ok c none f = (false, f.outside, refl)
  replaced_at-ok c (some r) f =
      let (l, s) = o.load_client (cfg.key_of c cfg.redirect_uri) f.outside in
      (not (same_client o cfg r.client_id l), s, refl)

  pub client_replaced-ok :
      (c : Bytes) (f : Flow o)
      → (b : Bool) × (s : o.State) × (client_replaced o cfg c f ≡ (ok b, record f { outside = s }))
  unfolding client_replaced
  client_replaced-ok c f = elim (Bool-cases (is_empty cfg.client_id)) [
    | inl dynamic ↦ rw dynamic (replaced_at-ok c f.reg f)
    | inr configured ↦ rw configured (false, f.outside, refl)
  ]
