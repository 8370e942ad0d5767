-- ===== src/Cmd/Exit/Codes.antt =====
-- What an exit code says.
use mcpurl.Prelude.{
  ℕ, zero, suc, ◌≡◌, ◌⊎◌, refl, Bool, true, false, List, [], ◌∷◌, Option, none, some, inl, inr,
  if◌then◌else◌, if_both, Bool-cases, ◌||◌,
}
use mcpurl.Prelude.Bytes.{Bytes, codes, equal, is_empty}
use mcpurl.Mcp.Client.{Failure}
use mcpurl.Cmd.Settings.{
  Settings, defaults, bridge, login, token, logout, install, uninstall, claude_config,
}
use mcpurl.Cmd.Flags.{Numbers, Parsed, parsed, flag_error, unfinished, extra_argument, parse_target}
use mcpurl.Cmd.Exit.{
  Login, logged_in, static, refused, Program, exit_ok, exit_usage, is_auth_error, with_app, set_up,
  bridge_code, login_code, token_code, cmd_bridge, cmd_login, cmd_token, logout_code, cmd_logout,
  install_code, cmd_install, bare_code, cmd_uninstall, cmd_claude_config, cmd_show, run,
}

module _ (numbers : Numbers) (p : Program) where
  -- 1 is a bridge that failed for another reason than authentication, 3 a bridge that failed for
  -- that reason, a login that was refused or a token that was not obtained; there is no code but
  -- these, 0 and 2.
  abbrev pub Explained : ℕ → Type 0
  Explained zero = Unit {0}
  Explained (suc zero) =
      (a : p.App) × ((f : Failure) × ((p.run_bridge a ≡ some f) × (is_auth_error f ≡ false)))
  Explained (suc (suc zero)) = Unit {0}
  Explained (suc (suc (suc zero))) =
      ((a : p.App) × ((f : Failure) × ((p.run_bridge a ≡ some f) × (is_auth_error f ≡ true))))
      ⊎ (((a : p.App) × (p.run_login a ≡ refused)) ⊎ ((a : p.App) × (p.access_token a ≡ none)))
  Explained (suc (suc (suc (suc n)))) = ⊥

  with_app-Explained :
      (go : p.App → ℕ) (o : Option p.App)
      → ((a : p.App) → Explained (go a))
      → Explained (with_app numbers p go o)
  unfolding with_app
  with_app-Explained go none h = tt
  with_app-Explained go (some a) h = h a

  set_up-Explained :
      (go : p.App → ℕ) (r : Parsed)
      → ((a : p.App) → Explained (go a))
      → Explained (set_up numbers p go r)
  unfolding set_up
  set_up-Explained go (parsed o target) h =
      if_both Explained (is_empty target) tt (with_app-Explained go (p.new_app o target) h)
  set_up-Explained go flag_error h = tt
  set_up-Explained go unfinished h = tt
  set_up-Explained go (extra_argument t) h = tt

  bridge_code-Explained :
      (a : p.App) (o : Option Failure) → p.run_bridge a ≡ o → Explained (bridge_code numbers p o)
  unfolding bridge_code
  bridge_code-Explained a none e = tt
  bridge_code-Explained a (some f) e = elim (Bool-cases (is_auth_error f)) [
    | inl auth ↦ rw auth (inl (a, (f, (e, auth))))
    | inr other ↦ rw other (a, (f, (e, other)))
  ]

  login_code-Explained :
      (a : p.App) (l : Login) → p.run_login a ≡ l → Explained (login_code numbers p l)
  unfolding login_code
  login_code-Explained a logged_in e = tt
  login_code-Explained a static e = tt
  login_code-Explained a refused e = inr (inl (a, e))

  token_code-Explained :
      (a : p.App) (t : Option Bytes) → p.access_token a ≡ t → Explained (token_code numbers p t)
  unfolding token_code
  token_code-Explained a none e = inr (inr (a, e))
  token_code-Explained a (some t) e = tt

  plain : (b : Bool) → Explained (if b then exit_ok else exit_usage)
  plain b = if_both Explained b tt tt

  logout_code-Explained : (r : Parsed) → Explained (logout_code numbers p r)
  unfolding logout_code
  logout_code-Explained (parsed o target) =
      if_both Explained o.all
        (with_app-Explained (λ a. if p.logout_all a then exit_ok else exit_usage) (p.new_app o [])
          λ a. plain (p.logout_all a))
        (if_both Explained (is_empty target) tt (
          with_app-Explained (λ a. if p.run_logout a then exit_ok else exit_usage)
            (p.new_app o target) λ a. plain (p.run_logout a)))
  logout_code-Explained flag_error = tt
  logout_code-Explained unfinished = tt
  logout_code-Explained (extra_argument t) = tt

  install_code-Explained : (r : Parsed) → Explained (install_code numbers p r)
  unfolding install_code
  install_code-Explained (parsed o target) = if_both Explained (is_empty target) tt (
      with_app-Explained
        (λ a. if p.run_install a o.client o.name o.dry_run then exit_ok else exit_usage)
        (p.new_app o target) λ a. plain (p.run_install a o.client o.name o.dry_run))
  install_code-Explained flag_error = tt
  install_code-Explained unfinished = tt
  install_code-Explained (extra_argument t) = tt

  bare_code-Explained :
      (go : p.App → Settings → Bytes → Bool) (r : Parsed) → Explained (bare_code numbers p go r)
  unfolding bare_code
  bare_code-Explained go (parsed o target) = if_both Explained (is_empty target) tt (
      with_app-Explained (λ a. if go a o target then exit_ok else exit_usage)
        (p.new_app defaults []) λ a. plain (go a o target))
  bare_code-Explained go flag_error = tt
  bare_code-Explained go unfinished = tt
  bare_code-Explained go (extra_argument t) = tt

  cmd_bridge-Explained : (args : List Bytes) → Explained (cmd_bridge numbers p args)
  unfolding cmd_bridge
  cmd_bridge-Explained args =
      set_up-Explained (λ a. bridge_code numbers p (p.run_bridge a))
        (parse_target numbers bridge args) λ a. bridge_code-Explained a (p.run_bridge a) refl

  cmd_login-Explained : (args : List Bytes) → Explained (cmd_login numbers p args)
  unfolding cmd_login
  cmd_login-Explained args =
      set_up-Explained (λ a. login_code numbers p (p.run_login a)) (parse_target numbers login args)
        λ a. login_code-Explained a (p.run_login a) refl

  cmd_token-Explained : (args : List Bytes) → Explained (cmd_token numbers p args)
  unfolding cmd_token
  cmd_token-Explained args =
      set_up-Explained (λ a. token_code numbers p (p.access_token a))
        (parse_target numbers token args) λ a. token_code-Explained a (p.access_token a) refl

  cmd_show-Explained : (args : List Bytes) → Explained (cmd_show numbers p args)
  unfolding cmd_show
  cmd_show-Explained args = with_app-Explained _ (p.new_app defaults []) λ a. plain (p.show a _)

  -- The exit code of mcpurl is 0, 1, 2 or 3; it is 1 only where a bridge failed for another reason
  -- than authentication, and 3 only where a bridge failed for that reason, a login was refused or
  -- no token was obtained.
  pub run-Explained : (args : List Bytes) → Explained (run numbers p args)
  unfolding run cmd_logout cmd_install cmd_uninstall cmd_claude_config
  run-Explained [] = tt
  run-Explained (name ∷ args) =
      let is : Bytes → Bool = equal name in
      if_both Explained (is (codes "login")) (cmd_login-Explained args) (
        if_both Explained (is (codes "logout"))
          (logout_code-Explained (parse_target numbers logout args))
          (if_both Explained (is (codes "token")) (cmd_token-Explained args) (
            if_both Explained (is (codes "show")) (cmd_show-Explained args) (
              if_both Explained (is (codes "claude-config"))
                (bare_code-Explained (λ a o target. p.render_config a target o.name)
                  (parse_target numbers claude_config args))
                (if_both Explained (is (codes "install"))
                  (install_code-Explained (parse_target numbers install args))
                  (if_both Explained (is (codes "uninstall"))
                    (bare_code-Explained (λ a o target. p.run_uninstall a o.client target)
                      (parse_target numbers uninstall args))
                    (if_both Explained (is (codes "version")) tt (
                      if_both Explained
                        (is (codes "help") || is (codes "-h") || is (codes "--help")) tt
                        (cmd_bridge-Explained (name ∷ args))))))))))
