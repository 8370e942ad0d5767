-- ===== src/Mcp/Client.antt =====
-- pkg/mcp/client.go: one endpoint behind `Post`, `listenOnce` and `DeleteSession`. The server and
-- the token provider are parameters with a state of their own; what is sent and what is asked of
-- the provider is recorded, debug lines are not.
pub mod Ladder
pub mod Leaves
pub mod Asks
pub mod Summary
use mcpurl.Prelude.{
  ℕ, zero, suc, ◌/◌, Bool, true, false, ◌&&◌, ◌||◌, not, List, [], ◌∷◌, ◌++◌, Option, none, some,
  ltb, leb, ◌==◌, if◌then◌else◌,
}
use mcpurl.Prelude.Bytes.{Bytes, codes, equal, is_empty, has_byte, has_prefix}
use mcpurl.Prelude.Lists.{take}
use mcpurl.Prelude.Space.{trim_space}
use mcpurl.Json.{compact, is_valid}
use mcpurl.Mcp.Http.{
  Headers, canonical, get, add, set, Method, post, get_stream, delete, Request, Response,
}
use mcpurl.Mcp.Sse.{Stream, ReadErr, eof, failed, Event, Drained, read_events}

-- `rejected` is empty on the first call for a request, see `TokenProvider`.
pub data Grant : Type 0 where
  granted : Bytes → Grant
  denied : Grant

-- What the client talks to. `respond` answers a request, or fails as `http.Client.Do` does;
-- `has_provider` is `c.Tokens != nil`; `accepts` is false where `http.NewRequest` fails.
pub record Peer : Type 1 where
  pub Server : Type 0
  pub Provider : Type 0
  pub respond : Server → Request → Option Response × Server
  pub has_provider : Bool
  pub token : Provider → Bytes → Bytes → Grant × Provider
  pub accepts : Bool
  pub extra : Headers

pub record Client : Type 0 where
  pub session_id : Bytes
  pub protocol_ver : Bytes
  pub last_event_id : Bytes

pub record HttpError : Type 0 where
  pub status : ℕ
  pub content_type : Bytes
  pub body : Bytes

-- An `AuthError` carries the 401 that the provider gave up on, if there was one.
pub data Failure : Type 0 where
  auth : Option HttpError → Failure
  http : HttpError → Failure
  bad_request transport stream_broken invalid_json no_stream session_expired : Failure

pub data Result (A : Type 0) : Type 0 where
  ok : A → Result A
  err : Failure → Result A

-- `StaticToken`
unfoldable pub static_token : Bytes → Bytes → Grant
static_token t rejected = if not (is_empty rejected) then denied else granted t

abbrev pub max_error_body : ℕ
max_error_body = 4096

abbrev pub max_token_cycles : ℕ
max_token_cycles = 4

-- `capturedBody`: a bounded prefix, after which the stream ends.
abbrev pub capture : Response → Response
capture r = record r { body = record { bytes = take max_error_body r.body.bytes; broken = false } }

abbrev pub http_error : Response → HttpError
http_error r = record {
  status = r.status;
  content_type = get (codes "Content-Type") r.headers;
  body = r.body.bytes;
}

is_visible_byte : ℕ → Bool
is_visible_byte c = not (ltb c 0x21 || ltb 0x7e c)

unfoldable pub is_visible : Bytes → Bool
unfolding is_visible_byte
is_visible [] = true
is_visible (c ∷ s) = is_visible_byte c && is_visible s

-- `captureSession`
unfoldable pub capture_session : Response → Client → Client
unfolding is_visible
capture_session r c =
    let id = get (codes "Mcp-Session-Id") r.headers in
    if is_empty id then c else if not (is_visible id) then c else record c { session_id = id }

-- `clearSession`
abbrev pub clear_session : Client → Client
clear_session c = record c { session_id = []; last_event_id = [] }

-- `setProtocolVersion`
abbrev pub set_protocol_version : Bytes → Client → Client
set_protocol_version v c = record c { protocol_ver = v }

-- The rejected token, as the provider is told.
abbrev pub mark : Bytes → Bytes
mark t = if is_empty t then codes "-" else t

module _ (peer : Peer) where
  open peer use {Server, Provider, respond, has_provider, token, accepts, extra}

  pub record World : Type 0 where
    pub server : Server
    pub provider : Provider
    pub client : Client
    -- the requests sent and the provider's calls (their argument `rejected`), oldest first
    pub sent : List Request
    pub asked : List Bytes

  add_all : Headers → Headers → Headers
  add_all [] h = h
  add_all ((k, v) ∷ more) h = add_all more (add k v h)

  abbrev set_unless_empty : Bytes → Bytes → Bytes → Headers → Headers
  set_unless_empty key v shown h = if not (is_empty v) then set key shown h else h

  -- `prepare`
  unfoldable pub prepare : Client → Bytes → Headers → Headers
  unfolding add_all
  prepare c t h = set_unless_empty (codes "Mcp-Protocol-Version") c.protocol_ver c.protocol_ver (
      set_unless_empty (codes "Mcp-Session-Id") c.session_id c.session_id
        (set_unless_empty (codes "Authorization") t (codes "Bearer " ++ t) (add_all extra h)))

  abbrev request : Method → Headers → Bytes → Option Request
  request m h body =
      if accepts then some (record { method = m; headers = h; body = body }) else none

  -- The requests that `Post`, `listenOnce` and `DeleteSession` build from a token.
  pub post_request : Client → Bytes → Bytes → Option Request
  post_request c payload t =
      request post
        (prepare c t (
          set (codes "Accept") (codes "application/json, text/event-stream")
            (set (codes "Content-Type") (codes "application/json") [])))
        payload

  pub listen_request : Client → Bytes → Option Request
  listen_request c t =
      request get_stream
        (set_unless_empty (codes "Last-Event-Id") c.last_event_id c.last_event_id
          (prepare c t (set (codes "Accept") (codes "text/event-stream") [])))
        []

  pub delete_request : Client → Bytes → Option Request
  delete_request c t = request delete (prepare c t []) []

  -- `c.token`
  pub ask : Bytes → Bytes → World → Grant × World
  ask rejected challenge w =
      if has_provider
      then (let (g, p) = token w.provider rejected challenge in
          (g, record w { provider = p; asked = w.asked ++ (rejected ∷ []) }))
      else (granted [], w)

  -- `c.HTTP.Do`
  pub send : Request → World → Option Response × World
  send req w =
      let (r, s) = respond w.server req in (r, record w { server = s; sent = w.sent ++ (req ∷ []) })

  abbrev Action : Type 0
  Action = World → Result Response × World

  -- The provider's answer to a 401: give up, stop where it offers the rejected token again, or go
  -- round once more.
  pub on_grant : (Bytes → Action) → Bytes → Response → Grant → Action
  on_grant loop t r denied w = (err (auth (some (http_error r))), w)
  on_grant loop t r (granted next) w = if equal next t then (ok r, w) else loop next w

  -- There is no next round where `attempt >= maxTokenCycles`.
  pub on_response : Option (Bytes → Action) → Bytes → Response → Action
  on_response next t r w =
      if r.status / 100 == 2
      then (ok r, w)
      else if not (r.status == 401) || not has_provider
      then (ok (capture r), w)
      else elim next [
        | none ↦ (ok (capture r), w)
        | some loop ↦
            let (g, w') = ask (mark t) (get (codes "Www-Authenticate") r.headers) w in
            on_grant loop t (capture r) g w'
      ]

  pub on_sent : Option (Bytes → Action) → Bytes → Option Response → Action
  on_sent next t none w = (err transport, w)
  on_sent next t (some r) w = on_response next t r w

  pub on_built : Option (Bytes → Action) → Bytes → Option Request → Action
  on_built next t none w = (err bad_request, w)
  on_built next t (some req) w = let (r, w') = send req w in on_sent next t r w'

  -- The `for` loop of `doAuthed`, with the number of rounds that may still follow.
  unfoldable pub cycle : ℕ → (Bytes → Option Request) → Bytes → Action
  unfolding on_built on_sent on_response on_grant ask send
  cycle zero build t w = on_built none t (build t) w
  cycle (suc left) build t w = on_built (some (cycle left build)) t (build t) w

  pub on_first : (Bytes → Option Request) → Grant → Action
  on_first build denied w = (err (auth none), w)
  on_first build (granted t) w = cycle max_token_cycles build t w

  -- `doAuthed`
  unfoldable pub do_authed : (Bytes → Option Request) → Action
  unfolding cycle on_first
  do_authed build w = let (g, w') = ask [] [] w in on_first build g w'
