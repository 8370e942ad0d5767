-- ===== src/Mcp/Bridge/Stdout.antt =====
-- pkg/mcp/bridge.go: what the bridge writes to stdout.
use mathlib.Core.List.{Memᴰ}
use mcpurl.Prelude.{
  ℕ, ◌≡◌, Bool, true, false, ◌&&◌, not, List, [], ◌∷◌, Option, none, some, ◌==◌, arith, if_both,
  refl, inl, inr, Bool-cases,
}
use mcpurl.Prelude.Bytes.{Bytes, codes, equal, is_empty}
use mcpurl.Prelude.Lists.{All, All-append, All-Mem}
use mcpurl.Mcp.Client.{Peer, Failure}
use mcpurl.Mcp.Transport.Framing.{IsMessage, post-IsMessage}
use mcpurl.Mcp.Bridge.Replies.{Failed, FailedIf, IsReply, IsLine, Lined, post_to-FailedIf}
use mcpurl.Mcp.Bridge.{
  Codec, message, error_reply, Reinit, renewed, no_request, refused, is_request, Bridge,
  set_version, write_out, synthesize_error, deliver_to, post_to, on_initialized, handle_initialize,
  send_note, on_reinitialized, reinit, on_replayed, on_reinit, on_posted, send, on_handled,
  serial_phase, run_after, run_from, status_of,
}

-- `Asked` holds of the messages that are there to be sent, `Told` of what is replied to a request
-- among them that fails.
module _ (peer : Peer) (codec : Codec) (Asked : Bytes → Type 0) (Told : Bytes → Failure → Type 0)
    (tells : (id : Bytes) (f : Failure) → IsReply peer codec Asked id f → Told id f) where
  abbrev Ruled : Bridge peer codec → Type 0
  Ruled b = Lined peer codec Told b

  -- Whoever handles a message that is one line of JSON keeps what has been written in order.
  abbrev pub Keeps : (Bytes → Bridge peer codec → Bridge peer codec) → Type 0
  Keeps deliver = (m : Bytes) (b : Bridge peer codec) → IsMessage m → Ruled b → Ruled (deliver m b)

  pub write_out-Keeps : Keeps (write_out peer codec)
  write_out-Keeps m b hm h = All-append (IsLine peer codec Told) b.out (message m ∷ []) h (hm, tt)

  set_version-out :
      (m v : Bytes) (b : Bridge peer codec) → (set_version peer codec m v b).out ≡ b.out
  unfolding set_version
  set_version-out m v b = ground arith

  pub deliver_to-Lined :
      (deliver : Bytes → Bridge peer codec → Bridge peer codec) (ms : List Bytes)
      (b : Bridge peer codec)
      → Keeps deliver
      → All IsMessage ms
      → Ruled b
      → Ruled (deliver_to peer codec deliver ms b)
  unfolding deliver_to
  deliver_to-Lined deliver [] b k hm h = h
  deliver_to-Lined deliver (m ∷ ms) b k (hm, hms) h =
      deliver_to-Lined deliver ms (deliver m b) k hms (k m b hm h)

  pub post_to-Lined :
      (payload : Bytes) (deliver : Bytes → Bridge peer codec → Bridge peer codec)
      (b : Bridge peer codec)
      → Keeps deliver
      → Ruled b
      → Ruled (post_to peer codec payload deliver b).1
  unfolding post_to
  post_to-Lined payload deliver b k h =
      deliver_to-Lined deliver _ _ k (post-IsMessage peer payload b.world) h

  pub synthesize_error-Lined :
      (msg : Bytes) (f : Failure) (b : Bridge peer codec)
      → Asked msg
      → Failed peer codec msg f
      → Ruled b
      → Ruled (synthesize_error peer codec msg f b)
  unfolding synthesize_error
  synthesize_error-Lined msg f b a k h = elim (Bool-cases (codec.decode msg).valid) [
    | inr broken ↦ simp broken h
    | inl valid ↦ simp valid (elim (Bool-cases (is_request (codec.decode msg))) [
      | inr told ↦ rw told h
      | inl asks ↦ rw asks (
          All-append (IsLine peer codec Told) b.out (error_reply (codec.decode msg).id f ∷ []) h (
            tells (codec.decode msg).id f (record {
              msg = msg;
              asked = a;
              valid = valid;
              asks = asks;
              same_id = refl;
              failed = k;
            }),
            tt,
          ))
    ])
  ]

  on_initialized-Lined :
      (line : Bytes) (r : Option Failure × Bridge peer codec)
      → Asked line
      → FailedIf peer codec line r.0
      → Ruled r.1
      → Ruled (on_initialized peer codec line r).1
  unfolding on_initialized
  on_initialized-Lined line (some f, b) a k h = synthesize_error-Lined line f b a k h
  on_initialized-Lined line (none, b) a k h = h

  handle_initialize-Lined :
      (line v : Bytes) (b : Bridge peer codec)
      → Asked line
      → Ruled b
      → Ruled (handle_initialize peer codec line v b).1
  unfolding handle_initialize
  handle_initialize-Lined line v b a h =
      let b' = record b { init_req = line; req_protocol_ver = v } in
      let deliver = λ (m : Bytes) (c : Bridge peer codec).
        write_out peer codec m (set_version peer codec m v c) in
      on_initialized-Lined line (post_to peer codec line deliver b') a
        (post_to-FailedIf peer codec line deliver b')
        (post_to-Lined line deliver b'
          (λ m c hm hc.
            write_out-Keeps m (set_version peer codec m v c) hm (rw (set_version-out m v c) hc))
          h)

  pub quiet-Keeps : (v : Bytes) → Keeps (λ m c. set_version peer codec m v c)
  quiet-Keeps v m c hm h = rw (set_version-out m v c) h

  pub send_note-Lined : (b : Bridge peer codec) → Ruled b → Ruled (send_note peer codec b)
  send_note-Lined b h =
      if_both Ruled (is_empty b.init_note) h (post_to-Lined b.init_note _ b (λ m c hm hc. hc) h)

  on_reinitialized-Lined :
      (r : Option Failure × Bridge peer codec) → Ruled r.1 → Ruled (on_reinitialized peer codec r).1
  unfolding on_reinitialized
  on_reinitialized-Lined (some f, b) h = h
  on_reinitialized-Lined (none, b) h = send_note-Lined b h

  reinit-Lined : (g : ℕ) (b : Bridge peer codec) → Ruled b → Ruled (reinit peer codec g b).1
  unfolding reinit
  reinit-Lined g b h =
      let ok : Reinit × Bridge peer codec → Type 0 = λ r. Ruled (r.1) in
      if_both ok (not (b.gen == g)) h (
        if_both ok (is_empty b.init_req) h (
          on_reinitialized-Lined _
            (post_to-Lined b.init_req _ _ (quiet-Keeps b.req_protocol_ver) h)))

  on_replayed-Lined :
      (msg : Bytes) (r : Option Failure × Bridge peer codec)
      → Asked msg
      → FailedIf peer codec msg r.0
      → Ruled r.1
      → Ruled (on_replayed peer codec msg r)
  unfolding on_replayed
  on_replayed-Lined msg (none, b) a k h = h
  on_replayed-Lined msg (some f, b) a k h = synthesize_error-Lined msg f b a k h

  on_reinit-Lined :
      (msg : Bytes) (f : Failure) (r : Reinit × Bridge peer codec)
      → Asked msg
      → Failed peer codec msg f
      → Ruled r.1
      → Ruled (on_reinit peer codec msg f r)
  unfolding on_reinit
  on_reinit-Lined msg f (renewed, b) a k h =
      on_replayed-Lined msg (post_to peer codec msg (write_out peer codec) b) a
        (post_to-FailedIf peer codec msg (write_out peer codec) b)
        (post_to-Lined msg (write_out peer codec) b write_out-Keeps h)
  on_reinit-Lined msg f (no_request, b) a k h = synthesize_error-Lined msg f b a k h
  on_reinit-Lined msg f (refused g, b) a k h = synthesize_error-Lined msg f b a k h

  on_posted-Lined :
      (g : ℕ) (msg : Bytes) (r : Option Failure × Bridge peer codec)
      → Asked msg
      → FailedIf peer codec msg r.0
      → Ruled r.1
      → Ruled (on_posted peer codec g msg r)
  unfolding on_posted
  on_posted-Lined g msg (none, b) a k h = h
  on_posted-Lined g msg (some f, b) a k h =
      if_both Ruled (status_of f == 404 && b.sessioned)
        (on_reinit-Lined msg f _ a k (reinit-Lined g b h)) (synthesize_error-Lined msg f b a k h)

  send-Lined :
      (msg : Bytes) (b : Bridge peer codec) → Asked msg → Ruled b → Ruled (send peer codec msg b)
  unfolding send
  send-Lined msg b a h =
      on_posted-Lined b.gen msg (post_to peer codec msg (write_out peer codec) b) a
        (post_to-FailedIf peer codec msg (write_out peer codec) b)
        (post_to-Lined msg (write_out peer codec) b write_out-Keeps h)

  on_handled-Lined :
      (r : Option Failure × Bridge peer codec) → Ruled r.1 → Ruled (on_handled peer codec r).1
  on_handled-Lined (some f, b) h = h
  on_handled-Lined (none, b) h = h

  serial_phase-Lined :
      (line : Bytes) (b : Bridge peer codec)
      → Asked line
      → Ruled b
      → Ruled (serial_phase peer codec line b).1
  unfolding serial_phase
  serial_phase-Lined line b a h =
      let ok : Option Failure × Bridge peer codec → Type 0 = λ r. Ruled (r.1) in
      if_both ok (equal (codec.decode line).method (codes "initialize"))
        (on_handled-Lined (handle_initialize peer codec line (codec.decode line).protocol_ver b)
          (handle_initialize-Lined line (codec.decode line).protocol_ver b a h))
        (if_both ok (equal (codec.decode line).method (codes "notifications/initialized"))
          (post_to-Lined line (write_out peer codec) (record b { init_note = line }) write_out-Keeps
            h)
          (send-Lined line b a h))

  run_after-Lined :
      (rest : Bool → Bridge peer codec → Option Failure × Bridge peer codec)
      (r : Option Failure × Bridge peer codec)
      → ((x : Bool) (b : Bridge peer codec) → Ruled b → Ruled (rest x b).1)
      → Ruled r.1
      → Ruled (run_after peer codec rest r).1
  unfolding run_after
  run_after-Lined rest (some f, b) k h = h
  run_after-Lined rest (none, b) k h = k _ b h

  pub run_lines-Lined :
      (lines : List Bytes) (handshake : Bool) (b : Bridge peer codec)
      → All Asked lines
      → Ruled b
      → Ruled (run_from peer codec lines handshake b).1
  unfolding run_from
  run_lines-Lined [] handshake b all h = h
  run_lines-Lined (line ∷ lines) true b (a, all) h =
      run_lines-Lined lines true _ all (send-Lined line b a h)
  run_lines-Lined (line ∷ lines) false b (a, all) h =
      run_after-Lined (λ x c. run_from peer codec lines x c) (serial_phase peer codec line b)
        (λ x c k. run_lines-Lined lines x c all k) (serial_phase-Lined line b a h)

-- Whatever stdin and the server say, every line that a run of the bridge adds to stdout is a JSON
-- text without a newline, or the reply to a request among the lines of stdin, with its id and with a
-- failure that a POST of that request gives.
pub run_from-Lined :
    (peer : Peer) (codec : Codec) (lines : List Bytes) (handshake : Bool) (b : Bridge peer codec)
    → Lined peer codec (IsReply peer codec (λ m. Memᴰ m lines)) b
    → Lined peer codec
        (IsReply peer codec (λ m. Memᴰ m lines))
        (run_from peer codec lines handshake b).1
run_from-Lined peer codec lines handshake b h =
    run_lines-Lined peer codec (λ m. Memᴰ m lines) (IsReply peer codec (λ m. Memᴰ m lines))
      (λ id f r. r) lines handshake b (All-Mem lines) h
