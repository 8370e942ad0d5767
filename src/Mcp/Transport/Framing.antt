-- ===== src/Mcp/Transport/Framing.antt =====
-- Whatever the server sends, each message that is handed over is JSON on one line.
use mcpurl.Prelude.{
  ◌/◌, ◌≡◌, true, false, ◌&&◌, not, List, [], ◌∷◌, Option, none, some, ◌==◌, arith, inl, inr,
  Bool-cases, Option-cases, if_both,
}
use mcpurl.Prelude.Bytes.{Bytes, is_empty, has_byte}
use mcpurl.Prelude.Space.{trim_space}
use mcpurl.Prelude.Lists.{All}
use mcpurl.Json.{compact, is_valid}
use mcpurl.Json.Compact.{compact-newline, compact-compact}
use mcpurl.Mcp.Http.{Response}
use mcpurl.Mcp.Sse.{Event, Drained, read_events}
use mcpurl.Mcp.Client.{Peer, Result, ok, err, do_authed, post_request, listen_request}
use mcpurl.Mcp.Transport.{
  deliver_compact, deliver_all, post_stream, post_single, post_body, consume_post, Outcome, W,
  after_post, post, open_stream, after_listen, listen_once,
}

abbrev pub IsMessage : Bytes → Type 0
IsMessage m = (has_byte b'\n' m ≡ false) × (is_valid m ≡ true)

compact-IsMessage : (s : Bytes) {m : Bytes} → compact s ≡ some m → IsMessage m
compact-IsMessage s h = (compact-newline s h, rw (compact-compact s h))

pub deliver_compact-IsMessage : (s : Bytes) {m : Bytes} → deliver_compact s ≡ some m → IsMessage m
unfolding deliver_compact
deliver_compact-IsMessage s h = elim (Bool-cases (not (has_byte b'\n' s) && is_valid s)) [
  | inl plain ↦ ground arith
  | inr other ↦ compact-IsMessage s (rw other at h)
]

abbrev Hands : Outcome → Type 0
Hands o = All IsMessage o.1

deliver_all-IsMessage : (es : List Event) → All IsMessage (deliver_all es)
unfolding deliver_all
deliver_all-IsMessage [] = tt
deliver_all-IsMessage (e ∷ es) = elim (Option-cases (deliver_compact e.payload)) [
  | inl bad ↦ rw bad (deliver_all-IsMessage es)
  | inr (m, h) ↦ rw h (deliver_compact-IsMessage e.payload h, deliver_all-IsMessage es)
]

post_stream-IsMessage : (d : Option Drained) → All IsMessage (post_stream d).1
unfolding post_stream
post_stream-IsMessage none = tt
post_stream-IsMessage (some d) = deliver_all-IsMessage d.events

post_single-IsMessage : (s : Bytes) → All IsMessage (post_single s).1
unfolding post_single
post_single-IsMessage s = elim (Bool-cases (is_empty (trim_space s))) [
  | inl blank ↦ rw blank tt
  | inr text ↦ rw text (elim (Option-cases (deliver_compact s)) [
    | inl bad ↦ rw bad tt
    | inr (m, h) ↦ rw h (deliver_compact-IsMessage s h, tt)
  ])
]

pub consume_post-IsMessage : (r : Response) → All IsMessage (consume_post r).1
unfolding consume_post post_body
consume_post-IsMessage r = if_both Hands (r.status == 202) tt (
    if_both Hands (not (r.status / 100 == 2)) tt (
      if_both Hands _ (post_stream-IsMessage (read_events r.body))
        (if_both Hands r.body.broken tt (post_single-IsMessage r.body.bytes))))

module _ (peer : Peer) where
  after_post-IsMessage : (r : Result Response × W peer) → All IsMessage (after_post peer r).0.1
  unfolding after_post
  after_post-IsMessage (err f, w) = tt
  after_post-IsMessage (ok r, w) = consume_post-IsMessage r

  -- A POST hands over JSON texts without a newline, whatever the server answers.
  pub post-IsMessage : (payload : Bytes) (w : W peer) → All IsMessage (post peer payload w).0.1
  unfolding post
  post-IsMessage payload w =
      after_post-IsMessage (do_authed peer (post_request peer w.client payload) w)

  open_stream-IsMessage :
      (d : Option Drained) (w : W peer) → All IsMessage (open_stream peer d w).0.1
  unfolding open_stream
  open_stream-IsMessage none w = tt
  open_stream-IsMessage (some d) w = deliver_all-IsMessage d.events

  after_listen-IsMessage : (r : Result Response × W peer) → All IsMessage (after_listen peer r).0.1
  unfolding after_listen
  after_listen-IsMessage (err f, w) = tt
  after_listen-IsMessage (ok r, w) =
      let hands : Outcome × W peer → Type 0 = λ o. Hands (o.0) in
      if_both hands (r.status == 405) tt (
        if_both hands (r.status == 404) tt (
          if_both hands (not (r.status / 100 == 2)) tt
            (open_stream-IsMessage (read_events r.body) _)))

  -- The listening stream hands over JSON texts without a newline, whatever the server answers.
  pub listen_once-IsMessage : (w : W peer) → All IsMessage (listen_once peer w).0.1
  unfolding listen_once
  listen_once-IsMessage w = after_listen-IsMessage (do_authed peer (listen_request peer w.client) w)
