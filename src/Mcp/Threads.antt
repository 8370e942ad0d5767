-- ===== src/Mcp/Threads.antt =====
-- pkg/mcp/bridge.go: the goroutines that run `send` at once, and the one that listens. A step is one
-- POST or one turn of the listening stream, or what happens between two of them under `handshakeMu`;
-- the steps of all goroutines interleave.
pub mod Locks
pub mod Turns
pub mod Renewals
pub mod Progress
pub mod Unblocked
pub mod Alone
pub mod Written
use mcpurl.Prelude.{
  ℕ, zero, suc, ◌+◌, ◌%◌, ◌≡◌, Bool, true, false, not, List, [], ◌∷◌, ◌++◌, Option, none, some,
  ◌==◌, if◌then◌else◌,
}
use mcpurl.Prelude.Bytes.{Bytes, is_empty}
use mcpurl.Mcp.Client.{Peer, Failure, no_stream, session_expired, clear_session}
use mcpurl.Mcp.Transport.{Outcome, W, listen_once}
use mcpurl.Mcp.Bridge.{
  Codec, Bridge, set_client, set_version, write_out, synthesize_error, deliver_to, post_to,
  send_note, gen_mod, status_of,
}

-- Who calls `reinit`: a `send` with its message and the error of its POST, or the listener.
pub data Job : Type 0 where
  sending : Bytes → Failure → Job
  listener : Job

-- Where a goroutine stands in `send` or in the loop of `startListening`, and in the `reinit` that
-- these call; between `initializing` and `noting` it holds `handshakeMu`.
pub data Pc : Type 0 where
  start replaying : Bytes → Pc
  posting : Bytes → ℕ → Pc
  failed : Bytes → Failure → ℕ → Pc
  waiting initializing noting : Job → ℕ → Pc
  reporting : Bytes → Failure → Pc
  listening : Pc
  streaming : ℕ → Pc
  finished : Pc

-- Where a `reinit` that failed leads, and one that did not.
unfoldable pub given_up : Job → Pc
given_up (sending msg f) = reporting msg f
given_up listener = finished

unfoldable pub resumed : Job → Pc
resumed (sending msg f) = replaying msg
resumed listener = listening

module _ (peer : Peer) (codec : Codec) where
  -- `renewals` are the generations at which a re-initialization succeeded, the last one first.
  pub record Shared : Type 0 where
    pub bridge : Bridge peer codec
    pub locked : Bool
    pub renewals : List ℕ

  abbrev with_bridge : Shared → Bridge peer codec → Shared
  with_bridge s b = record s { bridge = b }

  abbrev Turn : Type 0
  Turn = Option (Shared × Pc)

  -- What `startListening` does with the error of a turn.
  after_stream : Option Failure → ℕ → Pc
  after_stream (some no_stream) gen = finished
  after_stream (some session_expired) gen = waiting listener gen
  after_stream f gen = streaming gen

  -- `Post` from `send`, the first one and the replay.
  posted : Shared → Bytes → ℕ → Option Failure × Bridge peer codec → Shared × Pc
  posted s msg gen (none, b) = (with_bridge s b, finished)
  posted s msg gen (some f, b) =
      (with_bridge s b, if status_of f == 404 then failed msg f gen else reporting msg f)

  replayed : Shared → Bytes → Option Failure × Bridge peer codec → Shared × Pc
  replayed s msg (none, b) = (with_bridge s b, finished)
  replayed s msg (some f, b) = (with_bridge s b, reporting msg f)

  -- `reinit` up to its first POST.
  entered : Shared → Job → ℕ → Shared × Pc
  unfolding given_up resumed
  entered s job gen =
      if not (s.bridge.gen == gen)
      then (s, resumed job)
      else (let b = set_client peer codec (clear_session s.bridge.world.client) s.bridge in
          if is_empty b.init_req
          then (with_bridge s b, given_up job)
          else (record s { bridge = b; locked = true }, initializing job gen))

  initialized : Shared → Job → ℕ → Option Failure × Bridge peer codec → Shared × Pc
  unfolding given_up
  initialized s job gen (none, b) = (with_bridge s b, noting job gen)
  initialized s job gen (some g, b) = (record s { bridge = b; locked = false }, given_up job)

  noted : Shared → Job → ℕ → Bridge peer codec → Shared × Pc
  unfolding gen_mod resumed
  noted s job gen b = (
    record s {
      bridge = record b { gen = (b.gen + 1) % gen_mod };
      locked = false;
      renewals = gen ∷ s.renewals;
    },
    resumed job,
  )

  -- One turn of `Listen`, which goes on after most errors.
  listened : Shared → ℕ → Outcome × W peer → Shared × Pc
  unfolding deliver_to after_stream
  listened s gen ((f, ms), w) = (
    with_bridge s
        (deliver_to peer codec (write_out peer codec) ms (record (s.bridge) { world = w })),
    after_stream f gen,
  )

  unfoldable pub unless_locked : Shared → Shared × Pc → Turn
  unless_locked s r = if s.locked then none else some r

  -- One step of a goroutine, none where it waits for `handshakeMu` or is done.
  unfoldable pub advance : Shared → Pc → Turn
  unfolding posted replayed entered initialized noted listened after_stream unless_locked post_to
      set_version listen_once given_up resumed
  advance s (start msg) = unless_locked s (s, posting msg s.bridge.gen)
  advance s (posting msg gen) =
      some (posted s msg gen (post_to peer codec msg (write_out peer codec) s.bridge))
  advance s (failed msg f gen) =
      unless_locked s
        (s, if s.bridge.sessioned then waiting (sending msg f) gen else reporting msg f)
  advance s (waiting job gen) = unless_locked s (entered s job gen)
  advance s (initializing job gen) = some (
      initialized s job gen (
        post_to peer codec s.bridge.init_req
          (λ m c. set_version peer codec m s.bridge.req_protocol_ver c) s.bridge))
  advance s (noting job gen) = some (noted s job gen (send_note peer codec s.bridge))
  advance s (replaying msg) =
      some (replayed s msg (post_to peer codec msg (write_out peer codec) s.bridge))
  advance s (reporting msg f) =
      some (with_bridge s (synthesize_error peer codec msg f s.bridge), finished)
  advance s listening = unless_locked s (s, streaming s.bridge.gen)
  advance s (streaming gen) = some (listened s gen (listen_once peer s.bridge.world))
  advance s finished = none

  pub record System : Type 0 where
    pub shared : Shared
    pub threads : List Pc

  -- Any goroutine that can do so takes a step; a stream ends when its context does.
  pub data Step (x y : System) : Type 0 where
    turn :
        (before after : List Pc) (p q : Pc) (s : Shared)
        → x.threads ≡ before ++ (p ∷ after)
        → advance x.shared p ≡ some (s, q)
        → y ≡ record { shared = s; threads = before ++ (q ∷ after) }
        → Step x y
    cancel :
        (before after : List Pc) (gen : ℕ)
        → x.threads ≡ before ++ (streaming gen ∷ after)
        → y ≡ record { shared = x.shared; threads = before ++ (finished ∷ after) }
        → Step x y

  abbrev pub senders : List Bytes → List Pc
  senders [] = []
  senders (m ∷ ms) = start m ∷ senders ms

  -- The goroutines behind the handshake: one that listens, unless `NoSSE` is set, and one for each
  -- message.
  abbrev pub spawn : Bool → List Bytes → List Pc
  spawn no_sse ms = if no_sse then senders ms else listening ∷ senders ms

  pub data Reach (b : Bridge peer codec) (no_sse : Bool) (ms : List Bytes) : System → Type 0 where
    begin : Reach b no_sse ms (record {
      shared = record { bridge = b; locked = false; renewals = [] };
      threads = spawn no_sse ms;
    })
    later : {x y : System} → Reach b no_sse ms x → Step x y → Reach b no_sse ms y
