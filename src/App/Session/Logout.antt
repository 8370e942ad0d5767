-- ===== src/App/Session/Logout.antt =====
-- pkg/app/commands.go: `logout` on the program's own stores.
use mcpurl.Prelude.{◌≡◌, ◌⊎◌, refl, sym, true, false, List, [], ◌∷◌, inl, inr, Bool-cases, subst}
use mcpurl.Prelude.Bytes.{Bytes, is_empty}
use mcpurl.Oauth.Login.{Browser}
use mcpurl.Oauth.Flow.Monad.{Error, Outside, ok, err}
use mcpurl.Oauth.Flow.Entry.{forget}
use mcpurl.Oauth.Flow.Entry.Forgotten.{Forgets, Forgot, Final, forget-Final}
use mcpurl.Oauth.Stores.{Vault, Disk}
use mcpurl.Oauth.Stores.Clients.{Layout, new_store, Net, stored_outside, wipe_files}
use mcpurl.Oauth.Stores.Erased.{stored_outside-Forgets}
use mcpurl.App.Profile.{Profile, Platform}
use mcpurl.App.Session.{
  App, Line, warned, flow_for, new_flow, dropped_lines, drop_tokens, app_logout_all,
}

module _ (os : Platform) (b : Browser) (digest : Bytes → Bytes) where
  -- `store`, and everything else that the flows of an `App` meet outside.
  abbrev pub outside_of : {W : Type 0} → Vault → Layout → Net (Disk × W) → App → Outside
  outside_of v l net a = stored_outside v l net (new_store v l a.options.no_keychain)

  -- `LogoutAll` on these stores.
  unfoldable pub logout_all :
      {W : Type 0}
      → (v : Vault) → (l : Layout) → (net : Net (Disk × W)) → App
      → Disk × W
      → List Line × (Disk × W)
  logout_all v l net a s =
      app_logout_all os b digest (outside_of v l net a) (λ (d, w). (wipe_files v l d, w)) a s

  module _ (o : Outside) (laws : Forgets o) (p : Profile) where
    -- The first run warned, or a second one says nothing and changes nothing.
    abbrev pub Told : List Line × o.State → Type 0
    Told (lines, t) =
        ((e : Error) × (lines ≡ warned p.name e ∷ [])) ⊎ (drop_tokens os b digest o p t ≡ ([], t))

    quiet_again :
        (t : o.State) (x : Forgot o (flow_for os b digest p) laws)
        → (x.0 ≡ ok (false, false)) × (x.1.outside ≡ t)
        → ◌≡◌ {A = List Line × o.State} (dropped_lines os b digest o p (x.0), x.1.outside) ([], t)
    unfolding dropped_lines
    quiet_again t (r, f) (e, k) = rw (e, k) refl

    forgot-Told :
        (x : Forgot o (flow_for os b digest p) laws)
        → is_empty p.url ≡ false
        → Final o (flow_for os b digest p) laws x
        → Told (dropped_lines os b digest o p (x.0), x.1.outside)
    unfolding dropped_lines drop_tokens
    forgot-Told (err e, f) url done = inl (e, refl)
    forgot-Told (ok d, f) url done =
        let next = forget o (flow_for os b digest p) (new_flow os b digest o f.outside) in
        inr (rw url (quiet_again f.outside next done))

    unnamed-drop : (s : o.State) → is_empty p.url ≡ true → drop_tokens os b digest o p s ≡ ([], s)
    unfolding drop_tokens
    unnamed-drop s blank = rw blank refl

    named-drop :
        (s : o.State)
        → is_empty p.url ≡ false
        → drop_tokens os b digest o p s ≡ (
            let (r, f) = forget o (flow_for os b digest p) (new_flow os b digest o s) in
            (dropped_lines os b digest o p r, f.outside))
    unfolding drop_tokens
    named-drop s url = rw url refl

    drop_tokens-Told : (s : o.State) → Told (drop_tokens os b digest o p s)
    drop_tokens-Told s = elim (Bool-cases (is_empty p.url)) [
      | inl blank ↦ subst Told (sym (unnamed-drop s blank)) (inr (unnamed-drop s blank))
      | inr url ↦ subst Told (sym (named-drop s url)) (
          forgot-Told (forget o (flow_for os b digest p) (new_flow os b digest o s)) url
            (forget-Final o (flow_for os b digest p) laws s))
    ]

  -- On the program's stores, with or without the keychain: where `logout` of a profile does not warn,
  -- a second one prints nothing and leaves every file as it is.
  pub logout-Told :
      {W : Type 0} (v : Vault) (l : Layout) (net : Net (Disk × W)) (a : App) (s : Disk × W)
      → Told
          (outside_of v l net a)
          (stored_outside-Forgets v l net a.options.no_keychain)
          a.profile
          (drop_tokens os b digest (outside_of v l net a) a.profile s)
  logout-Told v l net a s =
      drop_tokens-Told (outside_of v l net a) (stored_outside-Forgets v l net a.options.no_keychain)
        a.profile s
