-- ===== src/Mcp/Threads/Written.antt =====
-- pkg/mcp/bridge.go: what all goroutines together write to stdout.
use mathlib.Core.List.{Memᴰ}
use mcpurl.Prelude.{
  ℕ, Bool, not, List, [], ◌∷◌, ◌++◌, Option, none, some, ◌==◌, if_both, if◌then◌else◌, subst, sym,
}
use mcpurl.Prelude.Bytes.{Bytes, is_empty}
use mcpurl.Prelude.Lists.{All, All-append, All-prefix, All-suffix, All-Mem}
use mcpurl.Mcp.Client.{Peer, Failure, no_stream, session_expired}
use mcpurl.Mcp.Transport.{Outcome, W, listen_once}
use mcpurl.Mcp.Transport.Framing.{IsMessage, listen_once-IsMessage}
use mcpurl.Mcp.Bridge.{Codec, Bridge, write_out, post_to, status_of}
use mcpurl.Mcp.Bridge.Replies.{IsReply, Lined, Failed, FailedIf, post_to-FailedIf}
use mcpurl.Mcp.Bridge.Stdout.{
  write_out-Keeps, deliver_to-Lined, post_to-Lined, synthesize_error-Lined, quiet-Keeps,
  send_note-Lined,
}
use mcpurl.Mcp.Threads.{
  given_up, resumed, after_stream, senders, Job, sending, listener, Pc, start, replaying, posting,
  failed, waiting, initializing, noting, reporting, listening, streaming, finished, Shared, posted,
  replayed, entered, initialized, noted, listened, unless_locked, advance, System, Step, turn,
  cancel, Reach, begin, later,
}

-- `Asked` holds of the messages that are there to be sent.
module _ (peer : Peer) (codec : Codec) (Asked : Bytes → Type 0) where
  abbrev S : Type 0
  S = Shared peer codec

  abbrev B : Type 0
  B = Bridge peer codec

  abbrev Writ : B → Type 0
  Writ = Lined peer codec (IsReply peer codec Asked)

  abbrev Reply : Bytes → Failure → Type 0
  Reply = IsReply peer codec Asked

  same : (id : Bytes) (f : Failure) → Reply id f → Reply id f
  same id f r = r

  -- What a goroutine carries: a message that is there to be sent, and how a POST of it fails.
  abbrev Carries : Job → Type 0
  Carries (sending msg f) = Asked msg × Failed peer codec msg f
  Carries listener = Unit

  abbrev Bears : Pc → Type 0
  Bears (start msg) = Asked msg
  Bears (replaying msg) = Asked msg
  Bears (posting msg gen) = Asked msg
  Bears (failed msg f gen) = Carries (sending msg f)
  Bears (waiting job gen) = Carries job
  Bears (initializing job gen) = Carries job
  Bears (noting job gen) = Carries job
  Bears (reporting msg f) = Carries (sending msg f)
  Bears listening = Unit
  Bears (streaming gen) = Unit
  Bears finished = Unit

  abbrev Writes : S × Pc → Type 0
  Writes r = Writ r.0.bridge × Bears r.1

  abbrev WritesIf : Option (S × Pc) → Type 0
  WritesIf none = Unit {0}
  WritesIf (some r) = Writes r

  given_up-Bears : (job : Job) → Carries job → Bears (given_up job)
  unfolding given_up
  given_up-Bears (sending msg f) h = h
  given_up-Bears listener h = tt

  resumed-Bears : (job : Job) → Carries job → Bears (resumed job)
  unfolding resumed
  resumed-Bears (sending msg f) (a, k) = a
  resumed-Bears listener h = tt

  unless_locked-WritesIf : (s : S) (r : S × Pc) → Writes r → WritesIf (unless_locked peer codec s r)
  unfolding unless_locked
  unless_locked-WritesIf s r h = if_both WritesIf s.locked tt h

  posted-Writes :
      (s : S) (msg : Bytes) (gen : ℕ) (r : Option Failure × B)
      → Asked msg
      → FailedIf peer codec msg r.0
      → Writ r.1
      → Writes (posted peer codec s msg gen r)
  unfolding posted
  posted-Writes s msg gen (none, b) a k h = (h, tt)
  posted-Writes s msg gen (some f, b) a k h = (h, if_both Bears (status_of f == 404) (a, k) (a, k))

  replayed-Writes :
      (s : S) (msg : Bytes) (r : Option Failure × B)
      → Asked msg
      → FailedIf peer codec msg r.0
      → Writ r.1
      → Writes (replayed peer codec s msg r)
  unfolding replayed
  replayed-Writes s msg (none, b) a k h = (h, tt)
  replayed-Writes s msg (some f, b) a k h = (h, (a, k))

  entered-Writes :
      (s : S) (job : Job) (gen : ℕ)
      → Carries job
      → Writ s.bridge
      → Writes (entered peer codec s job gen)
  unfolding entered
  entered-Writes s job gen c h =
      if_both Writes (not (s.bridge.gen == gen)) (h, resumed-Bears job c)
        (if_both Writes (is_empty s.bridge.init_req) (h, given_up-Bears job c) (h, c))

  initialized-Writes :
      (s : S) (job : Job) (gen : ℕ) (r : Option Failure × B)
      → Carries job
      → Writ r.1
      → Writes (initialized peer codec s job gen r)
  unfolding initialized
  initialized-Writes s job gen (none, b) c h = (h, c)
  initialized-Writes s job gen (some g, b) c h = (h, given_up-Bears job c)

  after_stream-Bears : (f : Option Failure) (gen : ℕ) → Bears (after_stream peer codec f gen)
  unfolding after_stream
  after_stream-Bears none gen = tt
  after_stream-Bears (some no_stream) gen = tt
  after_stream-Bears (some session_expired) gen = tt
  after_stream-Bears (some f) gen = tt

  listened-Writes :
      (s : S) (gen : ℕ) (r : Outcome × W peer)
      → All IsMessage r.0.1
      → Writ s.bridge
      → Writes (listened peer codec s gen r)
  unfolding listened
  listened-Writes s gen ((f, ms), w) k h = (
    deliver_to-Lined peer codec Asked Reply same (write_out peer codec) ms
        (record (s.bridge) { world = w }) (write_out-Keeps peer codec Asked Reply same) k h,
    after_stream-Bears f gen,
  )

  post-Lined :
      (msg : Bytes) (b : B) → Writ b → Writ (post_to peer codec msg (write_out peer codec) b).1
  post-Lined msg b h =
      post_to-Lined peer codec Asked Reply same msg (write_out peer codec) b
        (write_out-Keeps peer codec Asked Reply same) h

  post-FailedIf :
      (msg : Bytes) (b : B)
      → FailedIf peer codec msg (post_to peer codec msg (write_out peer codec) b).0
  post-FailedIf msg b = post_to-FailedIf peer codec msg (write_out peer codec) b

  advance-WritesIf : (s : S) (p : Pc) → Bears p → Writ s.bridge → WritesIf (advance peer codec s p)
  unfolding advance noted
  advance-WritesIf s (start msg) a h = unless_locked-WritesIf s (s, posting msg s.bridge.gen) (h, a)
  advance-WritesIf s (posting msg gen) a h =
      posted-Writes s msg gen _ a (post-FailedIf msg s.bridge) (post-Lined msg s.bridge h)
  advance-WritesIf s (failed msg f gen) c h =
      unless_locked-WritesIf s
        (s, if s.bridge.sessioned then waiting (sending msg f) gen else reporting msg f)
        (h, if_both Bears s.bridge.sessioned c c)
  advance-WritesIf s (waiting job gen) c h =
      unless_locked-WritesIf s (entered peer codec s job gen) (entered-Writes s job gen c h)
  advance-WritesIf s (initializing job gen) c h = initialized-Writes s job gen _ c (
      post_to-Lined peer codec Asked Reply same s.bridge.init_req _ s.bridge
        (quiet-Keeps peer codec Asked Reply same s.bridge.req_protocol_ver) h)
  advance-WritesIf s (noting job gen) c h =
      (send_note-Lined peer codec Asked Reply same s.bridge h, resumed-Bears job c)
  advance-WritesIf s (replaying msg) a h =
      replayed-Writes s msg _ a (post-FailedIf msg s.bridge) (post-Lined msg s.bridge h)
  advance-WritesIf s (reporting msg f) (a, k) h =
      (synthesize_error-Lined peer codec Asked Reply same msg f s.bridge a k h, tt)
  advance-WritesIf s listening c h = unless_locked-WritesIf s (s, streaming s.bridge.gen) (h, tt)
  advance-WritesIf s (streaming gen) c h =
      listened-Writes s gen (listen_once peer s.bridge.world)
        (listen_once-IsMessage peer s.bridge.world) h
  advance-WritesIf s finished c h = tt

  abbrev Held : System peer codec → Type 0
  Held x = Writ x.shared.bridge × All Bears x.threads

  -- One goroutine of a list is replaced by another that bears what it must.
  with_thread :
      (before after : List Pc) (p q : Pc)
      → All Bears (before ++ (p ∷ after))
      → Bears q
      → All Bears (before ++ (q ∷ after))
  with_thread before after p q h b =
      All-append Bears before (q ∷ after) (All-prefix Bears before (p ∷ after) h)
        (b, (All-suffix Bears before (p ∷ after) h).1)

  Step-Held : {x y : System peer codec} → Step peer codec x y → Held x → Held y
  Step-Held {x} {y} (turn before after p q s l e d) (h, all) =
      let here : All Bears (before ++ (p ∷ after)) = subst (All Bears) l all in
      let c = (All-suffix Bears before (p ∷ after) here).0 in
      let (g, b) = subst WritesIf e (advance-WritesIf x.shared p c h) in
      subst Held (sym d) (g, with_thread before after p q here b)
  Step-Held {x} {y} (cancel before after gen l d) (h, all) =
      subst Held (sym d)
        (h, with_thread before after (streaming gen) finished (subst (All Bears) l all) tt)

  senders-Bears : (ms : List Bytes) → All Asked ms → All Bears (senders peer codec ms)
  senders-Bears [] h = tt
  senders-Bears (m ∷ ms) (a, h) = (a, senders-Bears ms h)

  Reach-Held :
      (b : B) (no_sse : Bool) (ms : List Bytes)
      → All Asked ms
      → Writ b
      → {x : System peer codec} → Reach peer codec b no_sse ms x
      → Held x
  Reach-Held b no_sse ms a h begin =
      (h, if_both (All Bears) no_sse (senders-Bears ms a) (tt, senders-Bears ms a))
  Reach-Held b no_sse ms a h (later r st) = Step-Held st (Reach-Held b no_sse ms a h r)

-- However the goroutines interleave, the listener among them, and whatever the server sends: every
-- line that they write to stdout is a JSON text without a newline, or the reply to a request among
-- the messages, with its id and with a failure that a POST of that request gives.
pub Reach-Lined :
    (peer : Peer) (codec : Codec) (b : Bridge peer codec) (no_sse : Bool) (ms : List Bytes)
    → Lined peer codec (IsReply peer codec (λ m. Memᴰ m ms)) b
    → {x : System peer codec} → Reach peer codec b no_sse ms x
    → Lined peer codec (IsReply peer codec (λ m. Memᴰ m ms)) x.shared.bridge
Reach-Lined peer codec b no_sse ms h r =
    (Reach-Held peer codec (λ m. Memᴰ m ms) b no_sse ms (All-Mem ms) h r).0
