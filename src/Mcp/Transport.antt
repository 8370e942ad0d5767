-- ===== src/Mcp/Transport.antt =====
-- pkg/mcp/client.go: `Post`, `Listen` and `DeleteSession` over `doAuthed`. The calls of `deliver`
-- come back as the list of what was delivered, in order.
pub mod Framing
pub mod Session
pub mod Listen
pub mod Pace
use mcpurl.Prelude.{
  ℕ, zero, suc, ◌+◌, ◌-◌, ◌*◌, ◌/◌, ◌%◌, Bool, true, false, ◌&&◌, ◌||◌, not, List, [], ◌∷◌, ◌++◌,
  Option, none, some, ltb, ◌==◌, if◌then◌else◌,
}
use mcpurl.Prelude.Bytes.{Bytes, codes, is_empty, has_byte, has_prefix}
use mcpurl.Prelude.Space.{trim_space}
use mcpurl.Json.{compact, is_valid}
use mcpurl.Mcp.Http.{get, Request, Response}
use mcpurl.Mcp.Sse.{Stream, ReadErr, eof, failed, Event, Drained, read_events}
use mcpurl.Mcp.Client.{
  Grant, granted, denied, Peer, Client, Failure, http, stream_broken, invalid_json, no_stream,
  session_expired, Result, ok, err, capture, http_error, capture_session, World, post_request,
  listen_request, delete_request, ask, send, do_authed,
}

-- `deliverCompact`: what is handed over, none for a payload that is no JSON.
unfoldable pub deliver_compact : Bytes → Option Bytes
deliver_compact s = if not (has_byte b'\n' s) && is_valid s then some s else compact s

abbrev onto : Option Bytes → List Bytes → List Bytes
onto none l = l
onto (some s) l = s ∷ l

-- The events' payloads; one that is no JSON is dropped.
unfoldable pub deliver_all : List Event → List Bytes
unfolding deliver_compact
deliver_all [] = []
deliver_all (e ∷ es) = onto (deliver_compact e.payload) (deliver_all es)

-- An error, if there was one, and what was delivered.
abbrev pub Outcome : Type 0
Outcome = Option Failure × List Bytes

abbrev stream_error : ReadErr → Option Failure
stream_error eof = none
stream_error failed = some stream_broken

-- The `for` loop over the events of a POST's answer; a drained stream is there always.
post_stream : Option Drained → Outcome
post_stream none = (some stream_broken, [])
post_stream (some d) = (stream_error d.end, deliver_all d.events)

abbrev single : Option Bytes → Outcome
single none = (some invalid_json, [])
single (some m) = (none, m ∷ [])

-- The single JSON message of an answer.
post_single : Bytes → Outcome
post_single s = if is_empty (trim_space s) then (none, []) else single (deliver_compact s)

post_body : Response → Outcome
unfolding post_stream post_single
post_body r =
    if has_prefix (get (codes "Content-Type") r.headers) (codes "text/event-stream")
    then post_stream (read_events r.body)
    else if r.body.broken
    then (some stream_broken, [])
    else post_single r.body.bytes

-- `consumePost`, behind the session header.
unfoldable pub consume_post : Response → Outcome
unfolding post_body
consume_post r =
    if r.status == 202
    then (none, [])
    else if not (r.status / 100 == 2)
    then (some (http (http_error (capture r))), [])
    else post_body r

-- The ids of a stream's events, the last one that is not empty.
unfoldable pub last_id : Bytes → List Event → Bytes
last_id id [] = id
last_id id (e ∷ es) = last_id (if not (is_empty e.id) then e.id else id) es

-- Whether the last request carried a session id.
unfoldable pub had_session : List Request → Bool
had_session [] = false
had_session (q ∷ []) = not (is_empty (get (codes "Mcp-Session-Id") q.headers))
had_session (_ ∷ q ∷ qs) = had_session (q ∷ qs)

module _ (peer : Peer) where
  abbrev pub W : Type 0
  W = World peer

  unfoldable pub after_post : Result Response × W → Outcome × W
  after_post (err f, w) = ((some f, []), w)
  after_post (ok r, w) = (consume_post r, record w { client = capture_session r w.client })

  -- `Post`
  unfoldable pub post : Bytes → W → Outcome × W
  unfolding do_authed consume_post after_post
  post payload w = after_post (do_authed peer (post_request peer w.client payload) w)

  pub open_stream : Option Drained → W → Outcome × W
  open_stream none w = ((some stream_broken, []), w)
  open_stream (some d) w = (
    (stream_error d.end, deliver_all d.events),
    record w {
      client = record (w.client) { last_event_id = last_id w.client.last_event_id d.events };
    },
  )

  pub after_listen : Result Response × W → Outcome × W
  unfolding open_stream
  after_listen (err f, w) = ((some f, []), w)
  after_listen (ok r, w) =
      if r.status == 405
      then ((some no_stream, []), w)
      else if r.status == 404
      then ((some (if had_session w.sent then session_expired else no_stream), []), w)
      else if not (r.status / 100 == 2)
      then ((some (http (http_error (capture r))), []), w)
      else open_stream (read_events r.body) (record w { client = capture_session r w.client })

  -- `listenOnce`
  unfoldable pub listen_once : W → Outcome × W
  unfolding do_authed after_listen
  listen_once w = after_listen (do_authed peer (listen_request peer w.client) w)

  abbrev send_delete : Grant → W → W
  send_delete denied w = w
  send_delete (granted t) w = elim (delete_request peer w.client t) [
    | none ↦ w
    | some req ↦ (send peer req w).1
  ]

  -- `DeleteSession`
  unfoldable pub delete_session : W → W
  delete_session w =
      if is_empty w.client.session_id then w else let (g, w') = ask peer [] [] w in send_delete g w'
