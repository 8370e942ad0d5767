-- ===== src/Mcp/Threads/Progress.antt =====
-- The goroutines that run `send` do not run for ever.
use mcpurl.Prelude.{
  ℕ, zero, suc, ◌+◌, ◌*◌, ◌≡◌, ◌≤◌, ◌<◌, refl, Bool, true, false, List, [], ◌∷◌, ◌++◌, Option, none,
  some, ◌==◌, not, arith, subst, if_both,
}
use mcpurl.Prelude.Bytes.{Bytes, is_empty}
use mcpurl.Prelude.Lists.{length}
use mcpurl.Mcp.Client.{
  Peer, Failure, auth, http, bad_request, transport, stream_broken, invalid_json, no_stream,
  session_expired,
}
use mcpurl.Mcp.Transport.{Outcome, W, listen_once}
use mcpurl.Mcp.Bridge.{Codec, Bridge, status_of, post_to, write_out, set_version}
use mcpurl.Mcp.Threads.{
  Job, sending, listener, given_up, resumed, listening, streaming, after_stream, listened, Pc,
  start, posting, failed, waiting, initializing, noting, replaying, reporting, finished, posted,
  replayed, entered, initialized, noted, unless_locked, advance, System, Step, turn, cancel,
  senders, spawn, Reach, begin, later,
}
use mcpurl.Mcp.Threads.Locks.{S}

-- What a `send` has before it in `reinit`; a listener may go on for ever.
abbrev pub scaled : Job → ℕ → ℕ
scaled (sending msg f) n = n
scaled listener n = 0

-- How many steps a goroutine that runs `send` may still take.
abbrev pub rank : Pc → ℕ
rank (start msg) = 8
rank (posting msg gen) = 7
rank (failed msg f gen) = 6
rank (waiting job gen) = scaled job 5
rank (initializing job gen) = scaled job 4
rank (noting job gen) = scaled job 3
rank (replaying msg) = 2
rank (reporting msg f) = 1
rank p = 0

-- A step of such a goroutine counts, one of the listener does not.
abbrev one_of : ℕ → ℕ
one_of zero = 0
one_of (suc n) = 1

abbrev pub work : List Pc → ℕ
work [] = 0
work (p ∷ ps) = rank p + work ps

work-append : (ps qs : List Pc) → work (ps ++ qs) ≡ work ps + work qs
work-append [] qs = omega arith
work-append (p ∷ ps) qs = omega (arith, work-append ps qs)

module _ (peer : Peer) (codec : Codec) where
  abbrev Lowers : Pc → Option (S peer codec × Pc) → Type 0
  Lowers p none = Unit {0}
  Lowers p (some (t, q)) = one_of (rank p) + rank q ≤ rank p

  posted-Lowers :
      (s : S peer codec) (msg : Bytes) (gen : ℕ) (r : Option Failure × Bridge peer codec)
      → rank (posted peer codec s msg gen r).1 < 7
  unfolding posted
  posted-Lowers s msg gen (none, b) = omega arith
  posted-Lowers s msg gen (some f, b) =
      if_both (λ q. rank q < 7) (status_of f == 404) (omega arith) (omega arith)

  replayed-Lowers :
      (s : S peer codec) (msg : Bytes) (r : Option Failure × Bridge peer codec)
      → rank (replayed peer codec s msg r).1 < 2
  unfolding replayed
  replayed-Lowers s msg (none, b) = omega arith
  replayed-Lowers s msg (some f, b) = omega arith

  entered-Lowers :
      (s : S peer codec) (job : Job) (gen : ℕ)
      → rank (entered peer codec s job gen).1 ≤ scaled job 4
  unfolding entered given_up resumed
  entered-Lowers s job gen =
      let low : S peer codec × Pc → Type 0 = λ r. rank (r.1) ≤ scaled job 4 in
      if_both low (not (s.bridge.gen == gen)) (resumed_le job)
        (if_both low (is_empty s.bridge.init_req) (given_up_le job) (omega arith))
    where
      resumed_le : (j : Job) → rank (resumed j) ≤ scaled j 4
      resumed_le (sending msg f) = omega arith
      resumed_le listener = omega arith

      given_up_le : (j : Job) → rank (given_up j) ≤ scaled j 4
      given_up_le (sending msg f) = omega arith
      given_up_le listener = omega arith

  initialized-Lowers :
      (s : S peer codec) (job : Job) (gen : ℕ) (r : Option Failure × Bridge peer codec)
      → rank (initialized peer codec s job gen r).1 ≤ scaled job 3
  unfolding initialized given_up
  initialized-Lowers s job gen (none, b) = omega arith
  initialized-Lowers s (sending msg f) gen (some g, b) = omega arith
  initialized-Lowers s listener gen (some g, b) = omega arith

  after_stream-Lowers : (f : Option Failure) (gen : ℕ) → rank (after_stream peer codec f gen) ≤ 0
  unfolding after_stream
  after_stream-Lowers none gen = omega arith
  after_stream-Lowers (some no_stream) gen = omega arith
  after_stream-Lowers (some session_expired) gen = omega arith
  after_stream-Lowers (some bad_request) gen = omega arith
  after_stream-Lowers (some transport) gen = omega arith
  after_stream-Lowers (some stream_broken) gen = omega arith
  after_stream-Lowers (some invalid_json) gen = omega arith
  after_stream-Lowers (some (auth e)) gen = omega arith
  after_stream-Lowers (some (http e)) gen = omega arith

  listened-Lowers :
      (s : S peer codec) (gen : ℕ) (r : Outcome × W peer) → rank (listened peer codec s gen r).1 ≤ 0
  unfolding listened
  listened-Lowers s gen ((f, ms), w) = after_stream-Lowers f gen

  unless_locked-Lowers :
      (s : S peer codec) (p : Pc) (r : S peer codec × Pc)
      → one_of (rank p) + rank (r.1) ≤ rank p
      → Lowers p (unless_locked peer codec s r)
  unfolding unless_locked
  unless_locked-Lowers s p r h = if_both (Lowers p) s.locked tt h

  -- The first POST of a re-initialization.
  abbrev renewal : S peer codec → Option Failure × Bridge peer codec
  renewal s =
      post_to peer codec s.bridge.init_req
        (λ m c. set_version peer codec m s.bridge.req_protocol_ver c) s.bridge

  advance-Lowers : (s : S peer codec) (p : Pc) → Lowers p (advance peer codec s p)
  unfolding advance noted resumed
  advance-Lowers s (start msg) = unless_locked-Lowers s (start msg) _ (omega arith)
  advance-Lowers s (posting msg gen) =
      omega
        (arith, posted-Lowers s msg gen (post_to peer codec msg (write_out peer codec) s.bridge))
  advance-Lowers s (failed msg f gen) =
      unless_locked-Lowers s (failed msg f gen) _
        (if_both (λ q. 1 + rank q ≤ 6) s.bridge.sessioned (omega arith) (omega arith))
  advance-Lowers s (waiting (sending msg f) gen) =
      unless_locked-Lowers s (waiting (sending msg f) gen)
        (entered peer codec s (sending msg f) gen)
        (omega (arith, entered-Lowers s (sending msg f) gen))
  advance-Lowers s (waiting listener gen) =
      unless_locked-Lowers s (waiting listener gen) (entered peer codec s listener gen)
        (omega (arith, entered-Lowers s listener gen))
  advance-Lowers s (initializing (sending msg f) gen) =
      omega (arith, initialized-Lowers s (sending msg f) gen (renewal s))
  advance-Lowers s (initializing listener gen) =
      omega (arith, initialized-Lowers s listener gen (renewal s))
  advance-Lowers s (noting (sending msg f) gen) = omega arith
  advance-Lowers s (noting listener gen) = omega arith
  advance-Lowers s (replaying msg) =
      omega (arith, replayed-Lowers s msg (post_to peer codec msg (write_out peer codec) s.bridge))
  advance-Lowers s (reporting msg f) = omega arith
  advance-Lowers s listening = unless_locked-Lowers s listening _ (omega arith)
  advance-Lowers s (streaming gen) =
      omega (arith, listened-Lowers s gen (listen_once peer s.bridge.world))
  advance-Lowers s finished = tt

  -- Whether a step is one of `send`.
  abbrev pub sends : {x y : System peer codec} → Step peer codec x y → ℕ
  sends (turn before after p q s l e d) = one_of (rank p)
  sends (cancel before after gen l d) = 0

  Step-work :
      {x y : System peer codec} (t : Step peer codec x y)
      → sends t + work y.threads ≤ work x.threads
  Step-work {x} {y} (turn before after p q s l e d) =
      let low : one_of (rank p) + rank q ≤ rank p =
        subst (Lowers p) e (advance-Lowers x.shared p) in
      rw (l, d) (omega (arith, low, work-append before (p ∷ after), work-append before (q ∷ after)))
  Step-work {x} {y} (cancel before after gen l d) =
      rw (l, d)
        (omega (
          arith,
          work-append before (streaming gen ∷ after),
          work-append before (finished ∷ after),
        ))

  -- How many steps of `send` led to a state.
  pub steps :
      {b : Bridge peer codec} {no_sse : Bool} {ms : List Bytes} {x : System peer codec}
      → Reach peer codec b no_sse ms x
      → ℕ
  steps begin = 0
  steps (later r st) = sends st + steps r

  senders-work : (ms : List Bytes) → work (senders peer codec ms) ≡ 8 * length ms
  senders-work [] = refl
  senders-work (m ∷ ms) = omega (arith, senders-work ms)

  spawn-work : (no_sse : Bool) (ms : List Bytes) → work (spawn peer codec no_sse ms) ≡ 8 * length ms
  spawn-work true ms = senders-work ms
  spawn-work false ms = omega (arith, senders-work ms)

  -- Whatever the interleaving, and however long the listener goes on, the goroutines of `n` messages
  -- take at most `8 * n` steps together.
  pub steps-le :
      (b : Bridge peer codec) (no_sse : Bool) (ms : List Bytes) {x : System peer codec}
      (r : Reach peer codec b no_sse ms x)
      → steps r + work x.threads ≤ 8 * length ms
  unfolding steps
  steps-le b no_sse ms begin = omega (arith, spawn-work no_sse ms)
  steps-le b no_sse ms (later r st) = omega (arith, steps-le b no_sse ms r, Step-work st)
