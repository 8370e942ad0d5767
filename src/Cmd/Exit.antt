-- ===== src/Cmd/Exit.antt =====
-- The commands and their exit codes. What pkg/app does is the parameter `Program`; what is printed
-- is left out.
pub mod Codes
use mcpurl.Prelude.{
  ℕ, Bool, true, false, not, ◌&&◌, ◌||◌, List, [], ◌∷◌, Option, none, some, ◌==◌, if◌then◌else◌,
}
use mcpurl.Prelude.Bytes.{Bytes, codes, equal, is_empty}
use mcpurl.Mcp.Client.{Failure, auth, http}
use mcpurl.Cmd.Settings.{
  Settings, defaults, Command, bridge, login, logout, token, claude_config, install, uninstall,
}
use mcpurl.Cmd.Flags.{Numbers, Parsed, parsed, flag_error, unfinished, extra_argument, parse_target}

-- How `App.Login` ends: `static` is `ErrStaticAuth`.
pub data Login : Type 0 where
  logged_in static refused : Login

-- `app.New` with a target, none where it fails, and the methods of the `App`; a method that
-- returns an error gives false.
pub record Program : Type 1 where
  pub App : Type 0
  pub new_app : Settings → Bytes → Option App
  pub run_bridge : App → Option Failure
  pub run_login : App → Login
  pub access_token : App → Option Bytes
  pub run_logout : App → Bool
  pub logout_all : App → Bool
  pub run_install : App → Bytes → Bytes → Bool → Bool
  pub run_uninstall : App → Bytes → Bytes → Bool
  pub show : App → Bytes → Bool
  pub render_config : App → Bytes → Bytes → Bool

abbrev pub exit_ok : ℕ
exit_ok = 0

abbrev pub exit_transport : ℕ
exit_transport = 1

abbrev pub exit_usage : ℕ
exit_usage = 2

abbrev pub exit_auth : ℕ
exit_auth = 3

-- `IsAuthError`
unfoldable pub is_auth_error : Failure → Bool
is_auth_error (auth e) = true
is_auth_error (http e) = e.status == 401
is_auth_error _ = false

module _ (numbers : Numbers) (p : Program) where
  abbrev usage_unless : Bool → ℕ
  usage_unless fine = if fine then exit_ok else exit_usage

  -- Goes on with the `App`.
  unfoldable pub with_app : (p.App → ℕ) → Option p.App → ℕ
  with_app go none = exit_usage
  with_app go (some a) = go a

  -- `setup`: a target is asked for.
  unfoldable pub set_up : (p.App → ℕ) → Parsed → ℕ
  unfolding with_app
  set_up go (parsed o target) =
      if is_empty target then exit_usage else with_app go (p.new_app o target)
  set_up go _ = exit_usage

  bridge_code : Option Failure → ℕ
  unfolding is_auth_error
  bridge_code none = exit_ok
  bridge_code (some f) = if is_auth_error f then exit_auth else exit_transport

  login_code : Login → ℕ
  login_code logged_in = exit_ok
  login_code static = exit_usage
  login_code refused = exit_auth

  token_code : Option Bytes → ℕ
  token_code none = exit_auth
  token_code (some t) = exit_ok

  -- `cmdBridge`, `cmdLogin` and `cmdToken`
  unfoldable pub cmd_bridge : List Bytes → ℕ
  unfolding set_up bridge_code parse_target
  cmd_bridge args = set_up (λ a. bridge_code (p.run_bridge a)) (parse_target numbers bridge args)

  unfoldable pub cmd_login : List Bytes → ℕ
  unfolding set_up login_code parse_target
  cmd_login args = set_up (λ a. login_code (p.run_login a)) (parse_target numbers login args)

  unfoldable pub cmd_token : List Bytes → ℕ
  unfolding set_up token_code parse_target
  cmd_token args = set_up (λ a. token_code (p.access_token a)) (parse_target numbers token args)

  logout_code : Parsed → ℕ
  unfolding with_app
  logout_code (parsed o target) =
      if o.all
      then with_app (λ a. usage_unless (p.logout_all a)) (p.new_app o [])
      else if is_empty target
      then exit_usage
      else with_app (λ a. usage_unless (p.run_logout a)) (p.new_app o target)
  logout_code _ = exit_usage

  -- `cmdLogout`
  unfoldable pub cmd_logout : List Bytes → ℕ
  unfolding logout_code parse_target
  cmd_logout args = logout_code (parse_target numbers logout args)

  install_code : Parsed → ℕ
  unfolding with_app
  install_code (parsed o target) =
      if is_empty target
      then exit_usage
      else with_app (λ a. usage_unless (p.run_install a o.client o.name o.dry_run))
          (p.new_app o target)
  install_code _ = exit_usage

  -- `cmdInstall`
  unfoldable pub cmd_install : List Bytes → ℕ
  unfolding install_code parse_target
  cmd_install args = install_code (parse_target numbers install args)

  -- `cmdUninstall` and `cmdClaudeConfig` make the `App` from no options.
  bare_code : (p.App → Settings → Bytes → Bool) → Parsed → ℕ
  unfolding with_app
  bare_code go (parsed o target) =
      if is_empty target
      then exit_usage
      else with_app (λ a. usage_unless (go a o target)) (p.new_app defaults [])
  bare_code go _ = exit_usage

  unfoldable pub cmd_uninstall : List Bytes → ℕ
  unfolding bare_code parse_target
  cmd_uninstall args =
      bare_code (λ a o name. p.run_uninstall a o.client name) (parse_target numbers uninstall args)

  unfoldable pub cmd_claude_config : List Bytes → ℕ
  unfolding bare_code parse_target
  cmd_claude_config args =
      bare_code (λ a o target. p.render_config a target o.name)
        (parse_target numbers claude_config args)

  abbrev first_argument : List Bytes → Bytes
  first_argument [] = []
  first_argument (name ∷ _) = name

  -- `cmdShow`
  unfoldable pub cmd_show : List Bytes → ℕ
  unfolding with_app
  cmd_show args =
      with_app (λ a. usage_unless (p.show a (first_argument args))) (p.new_app defaults [])

  -- `run`
  unfoldable pub run : List Bytes → ℕ
  unfolding equal cmd_bridge cmd_login cmd_token cmd_logout cmd_install cmd_uninstall
      cmd_claude_config cmd_show
  run [] = exit_usage
  run (name ∷ args) =
      if equal name (codes "login")
      then cmd_login args
      else if equal name (codes "logout")
      then cmd_logout args
      else if equal name (codes "token")
      then cmd_token args
      else if equal name (codes "show")
      then cmd_show args
      else if equal name (codes "claude-config")
      then cmd_claude_config args
      else if equal name (codes "install")
      then cmd_install args
      else if equal name (codes "uninstall")
      then cmd_uninstall args
      else if equal name (codes "version")
      then exit_ok
      else if equal name (codes "help") || equal name (codes "-h") || equal name (codes "--help")
      then exit_ok
      else cmd_bridge (name ∷ args)
