-- ===== src/App/Tests/Sessions.antt =====
-- An `App` with one profile, a directory of files and a web without servers.
use mcpurl.Prelude.{ℕ, ◌≡◌, true, false, [], ◌∷◌, ◌++◌, none, some, if◌then◌else◌}
use mcpurl.Prelude.Bytes.{Bytes, codes, equal}
use mcpurl.Mcp.Client.{World}
use mcpurl.Oauth.Types.{Token, Registration}
use mcpurl.Oauth.Login.{Browser}
use mcpurl.Oauth.Flow.Monad.{Outside, failed, no_answer}
use mcpurl.Oauth.Stores.{Vault, Disk}
use mcpurl.Oauth.Stores.Clients.{Layout, Net}
use mcpurl.Oauth.Stores.Erased.{stored_outside-Forgets}
use mcpurl.App.Profile.{Profile, Profiles}
use mcpurl.App.Session.{App, new_app, new_flow, drop_tokens}
use mcpurl.App.Session.Static.{Settled, new_app-Settled}
use mcpurl.App.Session.Peers.{Site, peer_of}
use mcpurl.App.Session.Shown.{show, claude_config}
use mcpurl.App.Session.Shown.Secrets.{cleared_all, show-claude_config-cleared}
use mcpurl.App.Session.Logout.{outside_of, Told, logout-Told}
use mcpurl.App.Tests.Commands.{parse, platform, profiles, stored, options, machine}

abbrev browser : Browser
browser = record {
  verifier = codes "v";
  random = codes "0123456789abcdef01234567-rest";
  challenge_of = λ s. s;
  decimal = λ n. codes "18075";
  listens = λ port. true;
  callbacks = λ a. [];
  cancelled = false;
  exchange = λ x. none;
}

abbrev token_text : Bytes
token_text = codes "{token}"

abbrev kept : Token
kept = record {
  access_token = codes "t";
  refresh_token = [];
  expiry = none;
  issuer = codes "https://as";
  client_id = codes "app";
  scopes = [];
}

abbrev vault : Vault
vault = record {
  encode = λ t. some token_text;
  decode = λ c. some kept;
  to_text = λ k. k;
  from_text = λ k. some k;
  gcm_seal = λ k n p. p;
  gcm_open = λ k n c. some c;
  random = λ n. none;
  join = λ dir name. dir ++ (codes "/" ++ name);
  dir = codes "tokens";
  can_read = λ path. true;
  can_write = λ path. true;
  can_remove = λ path. true;
  available = false;
  keeps_key = false;
}

abbrev layout : Layout
layout = record {
  encode_client = λ r. none;
  decode_client = λ c. none;
  clients_dir = codes "clients";
  windows = false;
  within = λ dir path. false;
}

abbrev World0 : Type 0
World0 = Disk × ℕ

abbrev net : Net World0
net = record {
  now = λ s. 0;
  acquire = λ key s. (true, s);
  web = record {
    parse = parse;
    print = λ u. u.host;
    hostname = λ u. u.host;
    lower = λ s. s;
    is_loopback_ip = λ s. false;
    fetch_metadata = λ url s. (none, s);
    fetch_resource = λ url s. (none, s);
  };
  post_refresh = λ d id t c s. (failed [], s);
  post_register = λ url uri s. (no_answer, s);
  login = λ d id scopes s. (none, s);
}

-- A profile with a client_id, whose token is on disk.
abbrev acme : Profile
acme = record stored { client_id = codes "app" }

abbrev app : App
app = record { options = options; profiles = profiles; profile = acme; headers = [] }

abbrev digest : Bytes → Bytes
digest s = codes "0123456789abcdef0123"

abbrev on_disk : World0
on_disk = (
  record {
    files =
        λ path. if equal path (codes "tokens/0123456789abcdef.json") then some token_text else none;
    item = none;
  },
  0,
)

abbrev outside : Outside
outside = outside_of platform browser digest vault layout net app

logout-Told_example :
    Told platform browser digest outside
      (stored_outside-Forgets vault layout net false)
      acme
      (drop_tokens platform browser digest outside acme on_disk)
logout-Told_example = logout-Told platform browser digest vault layout net app on_disk

abbrev probe : Bytes → World0 → Bytes × World0
probe url s = ([], s)

new_app-Settled_example :
    Settled platform browser digest outside probe on_disk
      (new_app platform (some profiles) (record options { no_oauth = true }))
new_app-Settled_example =
    new_app-Settled platform browser digest outside probe on_disk (some profiles)
      (record options { no_oauth = true })

abbrev site : Site
site = record { Server = ℕ; respond = λ s q. (none, s); accepts = true }

abbrev world : World (peer_of outside site platform browser digest app)
world = record {
  server = 0;
  provider = new_flow platform browser digest outside on_disk;
  client = record { session_id = []; protocol_ver = []; last_event_id = [] };
  sent = [];
  asked = [];
}

abbrev date_of : Registration → Bytes
date_of r = codes "2026-01-02"

abbrev keyed : Profiles
keyed = (codes "acme", record stored { headers = (codes "X-Key", codes "$SECRET") ∷ [] }) ∷ []

show-claude_config-cleared_example :
    (show machine browser digest outside date_of (cleared_all keyed) (codes "acme") on_disk
      ≡ show machine browser digest outside date_of keyed (codes "acme") on_disk)
    × (claude_config machine browser digest (cleared_all keyed) (codes "@acme") []
        ≡ claude_config machine browser digest keyed (codes "@acme") [])
show-claude_config-cleared_example =
    show-claude_config-cleared machine browser digest outside date_of keyed (codes "acme") on_disk
      (codes "@acme") []
