-- ===== src/App/Tests/Commands.antt =====
-- Resolution, install and uninstall on one machine.
use mcpurl.Prelude.{◌≡◌, refl, true, false, [], ◌∷◌, ◌++◌, Option, none, some, if◌then◌else◌}
use mcpurl.Prelude.Bytes.{Bytes, codes, equal, has_prefix}
use mcpurl.Prelude.Space.{join}
use mcpurl.Oauth.Discovery.{Url}
use mcpurl.App.Profile.{Profile, Profiles, Options, Platform, bare_profile}
use mcpurl.App.Entries.{
  Members, empty, member, object, text, upserted, deleted, server_entry, entry_profile, lookup,
  servers,
}
use mcpurl.App.Entries.Laws.{Differs, deleted-upserted}
use mcpurl.App.Install.{Machine, State}
use mcpurl.App.Install.Commands.{ensure_profile, install}
use mcpurl.App.Install.Block.{edit_profile_block}
use mcpurl.App.Install.Block.Backup.{Preserves, edit_profile_block-Preserves}
use mcpurl.App.Install.Commands.Again.{ensure_profile-again}
use mcpurl.App.Install.Commands.Dry.{install-Spares}

abbrev pub endpoint : Bytes
endpoint = codes "https://a/mcp"

abbrev pub parse : Bytes → Option Url
parse s =
    if has_prefix s (codes "https://")
    then some (record { scheme = codes "https"; host = s; path = []; query = []; fragment = [] })
    else some (record { scheme = []; host = []; path = s; query = []; fragment = [] })

abbrev pub platform : Platform
platform = record {
  parse = parse;
  hostname = λ u. u.host;
  is_loopback_ip = λ s. false;
  getenv = λ s. [];
  expand_env = λ s. s;
}

abbrev pub stored : Profile
stored = record (bare_profile endpoint) { name = codes "acme" }

abbrev pub profiles : Profiles
profiles = (codes "acme", stored) ∷ []

abbrev pub options : Options
options = record {
  target = codes "@acme";
  client_id = codes "app";
  scopes = [];
  callback_port = 0;
  issuer = [];
  headers = [];
  bearer_env = [];
  no_oauth = false;
  no_keychain = false;
  no_sse = false;
  allow_http = false;
}

abbrev pub machine : Machine
machine = record {
  platform = platform;
  may_read = λ path. true;
  may_write = λ path. true;
  home = some (codes "/home/u");
  goos = codes "linux";
  join_path = join (codes "/");
  executable = some (codes "/usr/bin/mcpurl");
  config_path = codes "/home/u/.config/mcpurl/config.toml";
  decode = λ s. some (some empty);
  encode = λ m. some (codes "{}");
  quoted = λ s. codes "\"" ++ (s ++ codes "\"");
  decimal = λ n. codes "1";
  by_key = λ l. l;
}

abbrev start : State
start = record { profiles = []; files = λ path. none; dropped = [] }

ensure_profile-again_example :
    ensure_profile machine false
      (codes "acme")
      stored
      (ensure_profile machine false (codes "acme") stored start).1
    ≡ (none, (ensure_profile machine false (codes "acme") stored start).1)
unfolding ensure_profile
ensure_profile-again_example = ensure_profile-again machine (codes "acme") stored start refl

install-Spares_example :
    (install machine (codes "cursor") (codes "acme") true stored start).1 ≡ start
install-Spares_example = install-Spares machine (codes "cursor") (codes "acme") stored start

abbrev document : Members
document =
    member (codes "theme") (text (codes "dark"))
      (member (codes "mcpServers") (object (member (codes "b") (text (codes "x")) empty)) empty)

deleted-upserted_example :
    Differs (codes "a") none document (
      deleted
        (codes "a")
        (upserted (codes "a") (server_entry (codes "/bin/mcpurl") (codes "acme")) document))
    × (entry_profile (
          lookup (codes "a") (
            servers
              (upserted (codes "a") (server_entry (codes "/bin/mcpurl") (codes "acme")) document)))
        ≡ codes "acme")
deleted-upserted_example =
    deleted-upserted (codes "a") (codes "/bin/mcpurl") (codes "acme") document

-- The machine's config.toml has one profile.
abbrev config_file : Bytes → Option Bytes
config_file path =
    if equal path machine.config_path
    then some (codes "[profiles.acme]\nurl = \"https://a/mcp\"\n")
    else none

abbrev configured : State
configured = record start { files = config_file }

edit_profile_block-Preserves_example :
    Preserves machine machine.config_path configured
      (edit_profile_block machine (codes "acme") [] configured)
edit_profile_block-Preserves_example =
    edit_profile_block-Preserves machine (codes "acme") [] configured
