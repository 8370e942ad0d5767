-- ===== src/App/Session/Peers.antt =====
-- pkg/app/app.go and commands.go: what the bridge talks to.
use mcpurl.Prelude.{◌+◌, ◌≤◌, ◌≡◌, refl, Bool, true, false, List, [], Option, arith}
use mcpurl.Prelude.Bytes.{Bytes}
use mcpurl.Mcp.Http.{Request, Response}
use mcpurl.Mcp.Client.{
  Grant, granted, denied, static_token, Peer, Failure, Result, World, do_authed, post_request,
}
use mcpurl.Mcp.Client.Asks.{do_authed-Raises}
use mcpurl.Mcp.Transport.{after_post, post}
use mcpurl.Mcp.Bridge.{Codec, Bridge, Output, run_from}
use mcpurl.Oauth.Login.{Browser}
use mcpurl.Oauth.Flow.Monad.{Outside, Flow, ok, err}
use mcpurl.Oauth.Flow.Monad
use mcpurl.Mcp.Client
use mcpurl.Oauth.Flow.Once.{logins}
use mcpurl.Oauth.Flow.Entry.{token}
use mcpurl.Oauth.Flow.Entry.Logins.{token-logins}
use mcpurl.App.Profile.{Platform}
use mcpurl.App.Session.{App, Provider, fixed, nobody, oauth, token_provider, new_flow}

-- The server behind the endpoint.
pub record Site : Type 1 where
  pub Server : Type 0
  pub respond : Server → Request → Option Response × Server
  pub accepts : Bool

pub has_any : Provider → Bool
has_any nobody = false
has_any (fixed t) = true
has_any (oauth cfg) = true

module _ (o : Outside) where
  granted_by : Monad.Result Bytes → Grant
  granted_by (ok t) = granted t
  granted_by (err e) = denied

  -- `TokenProvider.Token`
  pub ask_provider : Provider → Flow o → Bytes → Bytes → Grant × Flow o
  unfolding granted_by
  ask_provider (fixed t) f rejected challenge = (static_token t rejected, f)
  ask_provider nobody f rejected challenge = (denied, f)
  ask_provider (oauth cfg) f rejected challenge =
      let (r, g) = token o cfg rejected challenge f in (granted_by r, g)

  module _ (site : Site) (os : Platform) (b : Browser) (digest : Bytes → Bytes) where
    -- The client that `Bridge` builds: its endpoint, its token provider and its headers.
    abbrev pub peer_of : App → Peer
    peer_of a = record {
      Server = site.Server;
      Provider = Flow o;
      respond = site.respond;
      has_provider = has_any (token_provider os b digest a);
      token = ask_provider (token_provider os b digest a);
      accepts = site.accepts;
      extra = a.headers;
    }

    ask_provider-slow :
        (p : Provider) (f : Flow o) (x c : Bytes)
        → logins ((ask_provider p f x c).1.calls) ≤ 1 + logins f.calls
    unfolding ask_provider
    ask_provider-slow (fixed t) f x c = omega arith
    ask_provider-slow nobody f x c = omega arith
    ask_provider-slow (oauth cfg) f x c = token-logins o cfg x c f

    after_post-provider :
        (peer : Peer) (r : Result Response × World peer)
        → (after_post peer r).1.provider ≡ r.1.provider
    unfolding after_post
    after_post-provider peer (Client.err f, w) = refl
    after_post-provider peer (Client.ok r, w) = refl

    -- While one message is posted, with every retry after a 401, the browser is opened for a login
    -- five times at most, whatever the MCP server, the authorization server and the stores answer.
    pub post-logins :
        (a : App) (payload : Bytes) (w : World (peer_of a))
        → logins ((post (peer_of a) payload w).1.provider.calls) ≤ 5 + logins (w.provider.calls)
    unfolding post
    post-logins a payload w =
        let build = post_request (peer_of a) w.client payload in
        rw (after_post-provider (peer_of a) (do_authed (peer_of a) build w)) (
          do_authed-Raises (peer_of a) (λ f. logins (f.calls))
            (λ f x c. ask_provider-slow (token_provider os b digest a) f x c) build w)

    -- `Bridge`, with the lines of stdin: a new client and a new bridge, run to the end of the lines.
    unfoldable pub app_bridge :
        (a : App) → Codec → site.Server → o.State → List Bytes → Option Failure × List Output
    app_bridge a codec server s lines =
        let start : Bridge (peer_of a) codec = record {
          world = record {
            server = server;
            provider = new_flow os b digest o s;
            client = record { session_id = []; protocol_ver = []; last_event_id = [] };
            sent = [];
            asked = [];
          };
          out = [];
          init_req = [];
          init_note = [];
          req_protocol_ver = [];
          gen = 0;
          sessioned = false;
          init_done = false;
          note_done = false;
        } in
        let (e, c) = run_from (peer_of a) codec lines false start in (e, c.out)
