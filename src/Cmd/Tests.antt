-- ===== src/Cmd/Tests.antt =====
-- A command line, and an application whose bridge fails with 401.
use mcpurl.Prelude.{◌≡◌, refl, true, List, [], ◌∷◌, ◌++◌, none, some}
use mcpurl.Prelude.Bytes.{Bytes, codes, equal, contains}
use mcpurl.Mcp.Client.{http}
use mcpurl.Cmd.Settings.{Settings, defaults, bridge, kind_of}
use mcpurl.Cmd.Flags.{Numbers, parsed, word_of, parse_from, parse_target}
use mcpurl.Cmd.Flags.Anywhere.{IsFinished, parse_target-IsFinished, parse_target-anywhere}
use mcpurl.Cmd.Exit.{logged_in, Program, run}
use mcpurl.Cmd.Exit.Codes.{Explained, run-Explained}

abbrev numbers : Numbers
numbers = record { parse_int = λ v. some 8080; parse_duration = λ v. none }

abbrev verbose : Settings
verbose = record defaults { verbose = true }

abbrev issued : Settings
issued = record verbose { issuer = codes "https://as" }

abbrev before : List Bytes
before = codes "-v" ∷ []

abbrev after : List Bytes
after = codes "--issuer" ∷ codes "https://as" ∷ []

parse_target-IsFinished_example :
    IsFinished (parse_target numbers bridge (before ++ (codes "@acme" ∷ after)))
parse_target-IsFinished_example =
    parse_target-IsFinished numbers bridge (before ++ (codes "@acme" ∷ after))

parse_target-anywhere_example :
    parse_target numbers bridge (before ++ (codes "@acme" ∷ after)) ≡ parsed issued (codes "@acme")
unfolding word_of parse_from kind_of contains equal
parse_target-anywhere_example =
    parse_target-anywhere numbers bridge b'@' (codes "acme") before after verbose issued refl refl
      refl

abbrev program : Program
program = record {
  App = Bytes;
  new_app = λ o target. some target;
  run_bridge = λ a. some (http (record { status = 401; content_type = []; body = [] }));
  run_login = λ a. logged_in;
  access_token = λ a. none;
  run_logout = λ a. true;
  logout_all = λ a. true;
  run_install = λ a client name dry. true;
  run_uninstall = λ a client name. true;
  show = λ a name. true;
  render_config = λ a target name. true;
}

run-Explained_example : Explained numbers program (run numbers program (codes "@acme" ∷ before))
run-Explained_example = run-Explained numbers program (codes "@acme" ∷ before)
