-- ===== src/Mcp/Tests.antt =====
-- The client, the stream reader and the bridge on one scripted server and token provider.
mod Goroutines
mod Summaries
mod Pipes
use mathlib.Core.List.{Memᴰ}
use mcpurl.Prelude.{
  ℕ, ◌≡◌, refl, true, false, List, [], ◌∷◌, map, Option, none, some, if◌then◌else◌, arith,
}
use mcpurl.Prelude.Int.{pos, negsuc}
use mcpurl.Prelude.Bytes.{Bytes, codes, has_byte, has_infix}
use mcpurl.Prelude.Lists.{All}
use Prim.Native.String.{String}
use mcpurl.Mcp.Http.{Method, Request, Response}
use mcpurl.Mcp.Sse.{Stream, eof, read_events}
use mcpurl.Mcp.Sse.Meaning.{meaning}
use mcpurl.Mcp.Sse.Spec.{read_events-meaning}
use mcpurl.Mcp.Sse.RoundTrip.{
  Message, IsSendable, whole, write, event_of, last_id_of, read_events-write,
}
use mcpurl.Mcp.Client.{Grant, granted, denied, Peer, Client, World, do_authed, is_visible}
use mcpurl.Mcp.Client.Ladder.{Ran, do_authed-Ran}
use mcpurl.Mcp.Transport.{post, listen_once}
use mcpurl.Mcp.Transport.Framing.{IsMessage, post-IsMessage, listen_once-IsMessage}
use mcpurl.Mcp.Transport.Listen.{listen}
use mcpurl.Mcp.Transport.Pace.{IsOrderly, listen-IsOrderly}
use mcpurl.Mcp.Transport.Session.{IsVisible, post-IsVisible, listen_once-IsVisible}
use mcpurl.Mcp.Bridge.{Meta, Codec, Bridge, reinit, run_from}
use mcpurl.Mcp.Bridge.Replies.{IsReply, Lined}
use mcpurl.Mcp.Bridge.Stdout.{run_from-Lined}
use mcpurl.Mcp.Bridge.Renewal.{Renews, reinit-Renews}
use mcpurl.Mcp.Bridge.Answers.{Answers}

-- A server that answers from a script, and a provider that hands out tokens from a list.
abbrev respond : List Response → Request → Option Response × List Response
respond [] q = (none, [])
respond (r ∷ rs) q = (some r, rs)

abbrev next_token : List Bytes → Bytes → Bytes → Grant × List Bytes
next_token [] rejected challenge = (denied, [])
next_token (t ∷ ts) rejected challenge = (granted t, ts)

abbrev scripted : Peer
scripted = record {
  Server = List Response;
  Provider = List Bytes;
  respond = respond;
  has_provider = true;
  token = next_token;
  accepts = true;
  extra = [];
}

abbrev answer : ℕ → String → String → Response
answer status content_type body = record {
  status = status;
  headers = (codes "Content-Type", codes content_type) ∷ (codes "Mcp-Session-Id", codes "s-1") ∷ [];
  body = record { bytes = codes body; broken = false };
}

abbrev client : Client
client = record { session_id = []; protocol_ver = []; last_event_id = [] }

abbrev script : List Response
script =
    answer 401 "text/plain" "stale"
    ∷ answer 200 "application/json" "{\"id\":1,\n\"result\":{}}"
    ∷ answer 202 "" ""
    ∷ answer 404 "" "gone"
    ∷ answer 200 "application/json" "{\"id\":1,\"result\":{}}"
    ∷ answer 202 "" ""
    ∷ answer 200 "text/event-stream" "id: 7\ndata: {\"id\":2,\ndata: \"result\":{}}\n\n"
    ∷ []

abbrev tokens : List Bytes
tokens =
    codes "old"
    ∷ codes "new"
    ∷ codes "new"
    ∷ codes "new"
    ∷ codes "new"
    ∷ codes "new"
    ∷ codes "new"
    ∷ codes "new"
    ∷ []

abbrev world : World scripted
world = record { server = script; provider = tokens; client = client; sent = []; asked = [] }

-- Enough of a decoder for the lines below.
abbrev decode : Bytes → Meta
decode line = record {
  valid = true;
  id = if has_infix (codes "notifications/") line then [] else codes "2";
  method =
      if has_infix (codes "notifications/initialized") line
      then codes "notifications/initialized"
      else if has_infix (codes "initialize") line
      then codes "initialize"
      else codes "tools/list";
  protocol_ver = codes "2025-06-18";
}

abbrev codec : Codec
codec = record { decode = decode; result_version = λ m. none }

abbrev pub lines : List Bytes
lines =
    codes "{\"id\":1,\"method\":\"initialize\"}"
    ∷ codes "{\"method\":\"notifications/initialized\"}"
    ∷ codes "{\"id\":2,\"method\":\"tools/list\"}"
    ∷ []

abbrev bridge : Bridge scripted codec
bridge = record {
  world = world;
  out = [];
  init_req = [];
  init_note = [];
  req_protocol_ver = [];
  gen = 0;
  sessioned = false;
  init_done = false;
  note_done = false;
}

run_from-Lined_example :
    Lined scripted codec
      (IsReply scripted codec (λ m. Memᴰ m lines))
      (run_from scripted codec lines false bridge).1
run_from-Lined_example = run_from-Lined scripted codec lines false bridge tt

-- A caller that saw generation 0, after another one has re-initialized.
abbrev renewed_bridge : Bridge scripted codec
renewed_bridge = record bridge { gen = 1; init_req = codes "{\"id\":1,\"method\":\"initialize\"}" }

reinit-Renews_example :
    Renews scripted codec 1 renewed_bridge (reinit scripted codec 1 renewed_bridge)
reinit-Renews_example = reinit-Renews scripted codec 1 renewed_bridge

abbrev bare_request : Bytes → Request
bare_request t = record {
  method = Method.post;
  headers = (codes "Authorization", t) ∷ [];
  body = [];
}

do_authed-Ran_example :
    Ran scripted bare_request world (do_authed scripted (λ t. some (bare_request t)) world).1
do_authed-Ran_example = do_authed-Ran scripted bare_request world

abbrev body : Stream
body = record { bytes = codes "id: 7\r\ndata: a\r\ndata\r\n\r\n: note\ndata: last"; broken = false }

read_events-meaning_example : read_events body ≡ some (meaning body)
read_events-meaning_example = read_events-meaning body

abbrev note : Message
note = record { id = codes "7"; first = codes "a"; others = codes "b" ∷ [] }

note-IsSendable : IsSendable note
unfolding has_byte
note-IsSendable = record {
  id_plain = ((omega arith, omega arith), tt);
  id_no_nul = refl;
  first_plain = ((omega arith, omega arith), tt);
  others_plain = (((omega arith, omega arith), tt), tt);
}

read_events-write_example :
    read_events (whole (write true (note ∷ [])))
    ≡ some (record {
      events = map event_of (note ∷ []);
      last_id = last_id_of [] (note ∷ []);
      end = eof;
    })
read_events-write_example = read_events-write true (note ∷ []) (note-IsSendable, tt)

listen-IsOrderly_example :
    IsOrderly scripted
      (pos 5 ∷ negsuc 700000000 ∷ [])
      (listen scripted (pos 5 ∷ negsuc 700000000 ∷ []) world)
listen-IsOrderly_example = listen-IsOrderly scripted (pos 5 ∷ negsuc 700000000 ∷ []) world

body-events :
    read_events body
    ≡ some (record {
      events =
          record { id = codes "7"; payload = codes "a\n" }
          ∷ record { id = codes "7"; payload = codes "last" }
          ∷ [];
      last_id = codes "7";
      end = eof;
    })
unfolding read_events
body-events = refl
