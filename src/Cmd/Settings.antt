-- ===== src/Cmd/Settings.antt =====
-- The settings that flags give, and the flags of each command.
use mcpurl.Prelude.{
  ℕ, Bool, true, false, List, [], ◌∷◌, ◌++◌, Option, none, some, ◌==◌, if◌then◌else◌, map,
}
use mcpurl.Prelude.Bytes.{Bytes, codes, contains}
use mcpurl.Prelude.Space.{trim_space}

-- `app.Options` and the flags that single commands add.
pub record Settings : Type 0 where
  pub client_id : Bytes
  pub scopes : List Bytes
  pub callback_port : ℕ
  pub issuer : Bytes
  pub headers : List Bytes
  pub bearer_env : Bytes
  pub no_oauth : Bool
  pub no_keychain : Bool
  pub no_sse : Bool
  pub allow_http : Bool
  pub timeout : ℕ
  pub verbose : Bool
  pub client : Bytes
  pub name : Bytes
  pub dry_run : Bool
  pub all : Bool

pub data Command : Type 0 where
  bridge login logout token claude_config install uninstall : Command

-- The values before flags are read; a timeout counts nanoseconds.
abbrev pub defaults : Settings
defaults = record {
  client_id = [];
  scopes = [];
  callback_port = 0;
  issuer = [];
  headers = [];
  bearer_env = [];
  no_oauth = false;
  no_keychain = false;
  no_sse = false;
  allow_http = false;
  timeout = 10000000000;
  verbose = false;
  client = codes "claude-desktop";
  name = [];
  dry_run = false;
  all = false;
}

-- Split at every byte `c`.
unfoldable pub split_at : ℕ → Bytes → Bytes → List Bytes
split_at c cur [] = cur ∷ []
split_at c cur (x ∷ s) =
    let next = split_at c [] s in
    let more = split_at c (cur ++ (x ∷ [])) s in if x == c then cur ∷ next else more

-- `commaList.Set`
unfoldable pub comma_list : Bytes → List Bytes
unfolding split_at trim_space
comma_list v = map trim_space (split_at b',' [] v)

-- `strconv.ParseBool`
unfoldable pub parse_bool : Bytes → Option Bool
unfolding contains
parse_bool v =
    if contains
      (codes "1" ∷ codes "t" ∷ codes "T" ∷ codes "TRUE" ∷ codes "true" ∷ codes "True" ∷ []) v
    then some true
    else if contains
        (codes "0" ∷ codes "f" ∷ codes "F" ∷ codes "FALSE" ∷ codes "false" ∷ codes "False" ∷ []) v
    then some false
    else none

-- Whether a command has a flag, and whether that is a switch, which needs no value.
pub data Kind : Type 0 where
  unknown switch valued : Kind

abbrev of_kind : List Bytes → List Bytes → Bytes → Kind
of_kind switches values flag =
    if contains switches flag then switch else if contains values flag then valued else unknown

-- The flags of `newFlagSet`.
abbrev shared_switches : List Bytes
shared_switches =
    codes "no-oauth" ∷ codes "no-keychain" ∷ codes "no-sse" ∷ codes "allow-http" ∷ codes "v" ∷ []

abbrev shared_values : List Bytes
shared_values =
    codes "client-id"
    ∷ codes "scopes"
    ∷ codes "callback-port"
    ∷ codes "issuer"
    ∷ codes "header"
    ∷ codes "bearer-env"
    ∷ codes "timeout"
    ∷ []

unfoldable pub kind_of : Command → Bytes → Kind
unfolding contains
kind_of install flag =
    of_kind (codes "dry-run" ∷ shared_switches) (codes "client" ∷ codes "name" ∷ shared_values) flag
kind_of logout flag = of_kind (codes "all" ∷ shared_switches) shared_values flag
kind_of uninstall flag = of_kind [] (codes "client" ∷ []) flag
kind_of claude_config flag = of_kind [] (codes "name" ∷ []) flag
kind_of _ flag = of_kind shared_switches shared_values flag
