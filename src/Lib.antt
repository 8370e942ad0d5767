-- ===== src/Lib.antt =====
-- mcpurl connects an MCP client that speaks JSON-RPC over stdio with a server that speaks it over
-- Streamable HTTP, and obtains OAuth tokens on the way. Its parts here:
--
-- * pkg/mcp/sse.go is Mcp.Sse: a body is its bytes and whether it ends with a read error; `next`
--   is `sseReader.Next`, `read_events` the loops that drain a reader. The loops run on fuel, the
--   number of bytes of the body and one: every turn takes a line off it.
-- * pkg/mcp/client.go is Mcp.Client (`doAuthed`, `prepare`, `captureSession`), Mcp.Transport
--   (`Post`, `listenOnce`, `DeleteSession`), and Mcp.Transport.Listen for `Listen`, which runs on
--   the readings of the clock at its waits and is cancelled behind the last. The server and the
--   token provider are a parameter, `Peer`, with states of their own. The calls of `deliver` are a
--   list of messages. `Mcp.Http` is what the client uses of net/http's headers, `Json` what it uses
--   of encoding/json (`Valid` and `Compact`). The loop of `doAuthed` counts down its own bound of
--   four more rounds.
-- * pkg/mcp/bridge.go is Mcp.Bridge: `Run`, the handshake, `send` and `reinit` over a state that
--   holds the client's world, the cached handshake, the generation and the lines of stdout.
--   Mcp.Threads is the goroutines that run `send` at once and the one of `startListening`: a step is
--   one POST or one turn of the listening stream, or what happens between two of them under
--   `handshakeMu`, and the steps of all goroutines interleave. Mcp.Stdio is the bytes of stdin and
--   stdout around `Run`. Mcp.Client.Summary is what an error message shows of a failed response.
-- * pkg/oauth/discovery.go is Oauth.Challenge (the WWW-Authenticate header), Oauth.Scopes, and
--   Oauth.Discovery for the chain of probes, over a parameter `Web` for URLs, HTTP and JSON; the
--   flow's `discover` is `find` behind a cache.
-- * pkg/oauth/flow.go and register.go are Oauth.Flow: methods that pass a state and may fail
--   (Flow.Monad), the client in use (Flow.Client), `obtain` with refresh and login (Flow), and the
--   entry points `Token`, `Login`, `Registration` and `Forget` (Flow.Entry). Everything outside the
--   process is the parameter `Outside`: stores, locks, servers, browser and clock, which other
--   processes may change between any two calls. pkg/oauth/store.go gives Oauth.Types, and with
--   keychain.go Oauth.Stores, over a parameter `Vault` for files, keychain and ciphers, with the
--   client registrations and the choice of the token store in Oauth.Stores.Clients, which fills the
--   stores of an `Outside`; Oauth.Stores.Erased shows that these obey the laws `Forgets`.
-- * pkg/oauth/login.go is Oauth.Login: `browserLogin` over the list of the callbacks that come, with
--   a parameter `Browser` for golang.org/x/oauth2 and the listener; Oauth.Flow takes a login's result
--   from its own parameter.
-- * pkg/redact/redact.go is Redact; the regular expression is written out.
-- * pkg/atomicfile/atomicfile.go is Atomicfile: `Write` as the disks that another process can see,
--   one after each system call, any of which may fail.
-- * pkg/app/tomledit.go is App.Toml, profile.go and the resolution in app.go App.Profile,
--   install.go App.Entries (the JSON document), App.Install.Block (the text of a profile) and
--   App.Install.Commands (`Install`, `Uninstall`), over a parameter `Machine` for files and
--   libraries; the warnings of `Uninstall` are App.Install.Warnings. The rest of app.go, and
--   commands.go, is App.Session: `New`, the token provider and the flow of a profile, `Login`,
--   `AccessToken`, `Logout`, `LogoutAll`; App.Session.Peers gives the `Peer` that `Bridge` talks
--   to, App.Session.Shown what `Show` and `ClaudeConfig` print.
-- * cmd/mcpurl/main.go is Cmd.Settings, Cmd.Flags (flags and the target) and Cmd.Exit (commands and
--   exit codes, over a parameter `Program` for what pkg/app does). The loop of `parseTarget` runs on
--   fuel, the number of the arguments and one: every pass takes an argument off.
--
-- Texts are lists of bytes, numbers are natural numbers, signed where the clock of `jitter` is
-- read; the generation of the bridge wraps at 2 ^ 64 and the product in a token's expiry is an
-- int64. Not modelled: two POSTs on the wire at once, debug output, the progress messages of
-- `Install` and `Uninstall`, timeouts and the drain timeout, flock, the start of the browser, the
-- HTTP forms of the token endpoint, and what net/http, encoding/json, net/url,
-- golang.org/x/oauth2, the TOML parser, the keychain and the ciphers do, which are parameters.
pub mod Prelude
pub mod Redact
pub mod Json
pub mod Atomicfile
pub mod App
pub mod Cmd
pub mod Mcp
pub mod Oauth
