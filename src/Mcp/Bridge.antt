-- ===== src/Mcp/Bridge.antt =====
-- pkg/mcp/bridge.go: lines of stdin become POSTs, what the server sends becomes lines of stdout.
-- A message is handled from its first POST to its last without another in between; a 404 that
-- another message met first shows as a generation given to `reinit` that is not the bridge's.
pub mod Replies
pub mod Stdout
pub mod Renewal
pub mod Answers
use mcpurl.Prelude.{
  ℕ, suc, ◌+◌, ◌%◌, ◌^◌, Bool, true, false, ◌&&◌, ◌||◌, not, List, [], ◌∷◌, ◌++◌, Option, none,
  some, ◌==◌, if◌then◌else◌, get_or,
}
use mcpurl.Prelude.Bytes.{Bytes, codes, equal, is_empty}
use mcpurl.Mcp.Client.{
  Peer, Client, HttpError, Failure, auth, http, clear_session, set_protocol_version, World,
}
use mcpurl.Mcp.Transport.{Outcome, W, post, delete_session}

-- `rpcMeta` as `json.Unmarshal` fills it: what was read before an error stays.
pub record Meta : Type 0 where
  pub valid : Bool
  pub id : Bytes
  pub method : Bytes
  pub protocol_ver : Bytes

-- What the bridge reads of a message with encoding/json: its `rpcMeta`, and the
-- `result.protocolVersion` of a response, none where the text does not fit.
pub record Codec : Type 0 where
  pub decode : Bytes → Meta
  pub result_version : Bytes → Option Bytes

-- A line of stdout: a message of the server, or the -32603 reply to a request.
pub data Output : Type 0 where
  message : Bytes → Output
  error_reply : Bytes → Failure → Output

-- How `reinit` ends.
pub data Reinit : Type 0 where
  renewed no_request : Reinit
  refused : Failure → Reinit

-- The status of the `HTTPError` that `errors.As` finds.
abbrev pub status_of : Failure → ℕ
status_of (http e) = e.status
status_of (auth (some e)) = e.status
status_of _ = 0

unfoldable pub is_request : Meta → Bool
is_request m = not (is_empty m.method) && not (is_empty m.id) && not (equal m.id (codes "null"))

-- `gen` is a uint64.
unfoldable pub gen_mod : ℕ
gen_mod = 2 ^ 64

module _ (peer : Peer) (codec : Codec) where
  pub record Bridge : Type 0 where
    pub world : World peer
    pub out : List Output
    pub init_req : Bytes
    pub init_note : Bytes
    pub req_protocol_ver : Bytes
    pub gen : ℕ
    pub sessioned : Bool
    pub init_done : Bool
    pub note_done : Bool

  -- `Client` and its `session()`.
  abbrev pub set_client : Client → Bridge → Bridge
  set_client c b = record b { world = record (b.world) { client = c } }

  abbrev pub write_out : Bytes → Bridge → Bridge
  write_out m b = record b { out = b.out ++ (message m ∷ []) }

  abbrev first_of : Bytes → Bytes → Bytes
  first_of v fallback = if is_empty v then fallback else v

  -- `setProtocolVersion`
  unfoldable pub set_version : Bytes → Bytes → Bridge → Bridge
  set_version msg fallback b =
      let v = first_of (get_or [] (codec.result_version msg)) fallback in
      if not (is_empty v) then set_client (set_protocol_version v b.world.client) b else b

  -- `synthesizeError`
  unfoldable pub synthesize_error : Bytes → Failure → Bridge → Bridge
  synthesize_error msg cause b =
      let m = codec.decode msg in
      if not m.valid
      then b
      else if not (is_request m)
      then b
      else record b { out = b.out ++ (error_reply m.id cause ∷ []) }

  unfoldable pub deliver_to : (Bytes → Bridge → Bridge) → List Bytes → Bridge → Bridge
  deliver_to deliver [] b = b
  deliver_to deliver (m ∷ ms) b = deliver_to deliver ms (deliver m b)

  -- `b.Client.Post` with a callback.
  unfoldable pub post_to : Bytes → (Bytes → Bridge → Bridge) → Bridge → Option Failure × Bridge
  unfolding deliver_to
  post_to payload deliver b =
      let (o, w) = post peer payload b.world in
      (o.0, deliver_to deliver o.1 (record b { world = w }))

  pub on_initialized : Bytes → Option Failure × Bridge → Option Failure × Bridge
  unfolding synthesize_error
  on_initialized line (some f, b) = (some f, synthesize_error line f b)
  on_initialized line (none, b) =
      (none, record b { sessioned = not (is_empty b.world.client.session_id) })

  -- `handleInitialize`
  unfoldable pub handle_initialize : Bytes → Bytes → Bridge → Option Failure × Bridge
  unfolding post_to on_initialized set_version
  handle_initialize line ver b = on_initialized line (
      post_to line (λ m b'. write_out m (set_version m ver b'))
        (record b { init_req = line; req_protocol_ver = ver }))

  -- The cached notification is sent again, and its failure only logged.
  abbrev pub send_note : Bridge → Bridge
  send_note b = if is_empty b.init_note then b else (post_to b.init_note (λ m b'. b') b).1

  unfoldable pub on_reinitialized : Option Failure × Bridge → Reinit × Bridge
  unfolding gen_mod
  on_reinitialized (some f, b) = (refused f, b)
  on_reinitialized (none, b) =
      let b' = send_note b in (renewed, record b' { gen = (b'.gen + 1) % gen_mod })

  -- `reinit`
  unfoldable pub reinit : ℕ → Bridge → Reinit × Bridge
  unfolding post_to on_reinitialized set_version
  reinit gen b =
      if not (b.gen == gen)
      then (renewed, b)
      else (let b' = set_client (clear_session b.world.client) b in
          if is_empty b'.init_req
          then (no_request, b')
          else on_reinitialized
              (post_to b'.init_req (λ m c. set_version m b'.req_protocol_ver c) b'))

  unfoldable pub on_replayed : Bytes → Option Failure × Bridge → Bridge
  unfolding synthesize_error
  on_replayed msg (none, b) = b
  on_replayed msg (some f, b) = synthesize_error msg f b

  unfoldable pub on_reinit : Bytes → Failure → Reinit × Bridge → Bridge
  unfolding on_replayed
  on_reinit msg f (renewed, b) = on_replayed msg (post_to msg write_out b)
  on_reinit msg f (no_request, b) = synthesize_error msg f b
  on_reinit msg f (refused g, b) = synthesize_error msg f b

  unfoldable pub on_posted : ℕ → Bytes → Option Failure × Bridge → Bridge
  unfolding on_reinit
  on_posted gen msg (none, b) = b
  on_posted gen msg (some f, b) =
      if status_of f == 404 && b.sessioned
      then on_reinit msg f (reinit gen b)
      else synthesize_error msg f b

  -- `send`
  unfoldable pub send : Bytes → Bridge → Bridge
  unfolding post_to on_posted reinit
  send msg b = on_posted b.gen msg (post_to msg write_out b)

  abbrev on_handled : Option Failure × Bridge → Option Failure × Bridge
  on_handled (some f, b) = (some f, b)
  on_handled (none, b) = (none, record b { init_done = true })

  -- `serialPhase`; the handshake is complete once `init_done` and `note_done` hold.
  unfoldable pub serial_phase : Bytes → Bridge → Option Failure × Bridge
  unfolding handle_initialize send
  serial_phase line b =
      let m = codec.decode line in
      if equal m.method (codes "initialize")
      then on_handled (handle_initialize line m.protocol_ver b)
      else if equal m.method (codes "notifications/initialized")
      then (let b' = (post_to line write_out (record b { init_note = line })).1 in
          (none, record b' { note_done = true }))
      else (none, send line b)

  abbrev shut : Bridge → Bridge
  shut b = record b { world = delete_session peer b.world }

  -- The rest of `Run`: the message loop over the lines of stdin, and at their end `DeleteSession`.
  pub run_after :
      (Bool → Bridge → Option Failure × Bridge) → Option Failure × Bridge → Option Failure × Bridge
  run_after rest (some f, b) = (some f, b)
  run_after rest (none, b) = rest (b.init_done && b.note_done) b

  unfoldable pub run_from : List Bytes → Bool → Bridge → Option Failure × Bridge
  unfolding run_after serial_phase
  run_from [] handshake b = (none, shut b)
  run_from (line ∷ lines) true b = run_from lines true (send line b)
  run_from (line ∷ lines) false b = run_after (λ h c. run_from lines h c) (serial_phase line b)
