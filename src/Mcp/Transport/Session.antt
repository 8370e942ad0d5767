-- ===== src/Mcp/Transport/Session.antt =====
-- The session id: only visible ASCII is taken from the server, and only `captureSession` and
-- `clearSession` change it.
use mcpurl.Prelude.{◌/◌, ◌≡◌, true, not, Option, none, some, ◌==◌, arith, if_both}
use mcpurl.Prelude.Bytes.{Bytes}
use mcpurl.Mcp.Http.{Response}
use mcpurl.Mcp.Sse.{Drained, read_events}
use mcpurl.Mcp.Client.{
  Peer, Client, Result, ok, err, do_authed, post_request, listen_request, is_visible,
  capture_session,
}
use mcpurl.Mcp.Client.Leaves.{do_authed-client}
use mcpurl.Mcp.Transport.{Outcome, W, after_post, post, open_stream, after_listen, listen_once}

abbrev pub IsVisible : Client → Type 0
IsVisible c = is_visible c.session_id ≡ true

-- An id from the server is taken only if it is visible ASCII.
capture_session-IsVisible :
    (r : Response) (c : Client) → IsVisible c → IsVisible (capture_session r c)
unfolding capture_session
capture_session-IsVisible r c h = ground arith

module _ (peer : Peer) where
  after_post-IsVisible :
      (r : Result Response × W peer) → IsVisible r.1.client → IsVisible (after_post peer r).1.client
  unfolding after_post
  after_post-IsVisible (err f, w) h = h
  after_post-IsVisible (ok r, w) h = capture_session-IsVisible r w.client h

  -- A session id of visible ASCII is so after a POST, whatever the server sent.
  pub post-IsVisible :
      (payload : Bytes) (w : W peer) → IsVisible w.client → IsVisible (post peer payload w).1.client
  unfolding post
  post-IsVisible payload w h =
      after_post-IsVisible (do_authed peer (post_request peer w.client payload) w)
        (rw (do_authed-client peer (post_request peer w.client payload) w) h)

  open_stream-IsVisible :
      (d : Option Drained) (w : W peer)
      → IsVisible w.client
      → IsVisible (open_stream peer d w).1.client
  unfolding open_stream
  open_stream-IsVisible none w h = h
  open_stream-IsVisible (some d) w h = h

  after_listen-IsVisible :
      (r : Result Response × W peer)
      → IsVisible r.1.client
      → IsVisible (after_listen peer r).1.client
  unfolding after_listen
  after_listen-IsVisible (err f, w) h = h
  after_listen-IsVisible (ok r, w) h =
      let visible : Outcome × W peer → Type 0 = λ o. IsVisible (o.1.client) in
      if_both visible (r.status == 405) h (
        if_both visible (r.status == 404) h (
          if_both visible (not (r.status / 100 == 2)) h (
            open_stream-IsVisible (read_events r.body) _ (capture_session-IsVisible r w.client h))))

  -- A session id of visible ASCII is so after the listening stream, whatever the server sent.
  pub listen_once-IsVisible :
      (w : W peer) → IsVisible w.client → IsVisible (listen_once peer w).1.client
  unfolding listen_once
  listen_once-IsVisible w h =
      after_listen-IsVisible (do_authed peer (listen_request peer w.client) w)
        (rw (do_authed-client peer (listen_request peer w.client) w) h)
