-- ===== src/Mcp/Sse/RoundTrip.antt =====
-- Streams that a server writes are read back.
use mathlib.Core.List.{append-nil}
use mcpurl.Prelude.{
  ◌≡◌, ◌≢◌, refl, ap, ◌∙◌, Bool, true, false, List, [], ◌∷◌, ◌++◌, map, Option, none, some,
  if◌then◌else◌, arith,
}
use mcpurl.Prelude.Bytes.{Bytes, codes, has_byte, trim_last}
use mcpurl.Prelude.Lists.{All, All-append}
use mcpurl.Mcp.Sse.{Event, Stream, eof, read_events}
use mcpurl.Mcp.Sse.Lines.{lines, chop, trim_last-concat}
use mcpurl.Mcp.Sse.Meaning.{
  prepend, dispatch, dispatch-blank, dispatch-data, dispatch-id, dispatch_end,
}
use mcpurl.Mcp.Sse.Spec.{read_events-meaning}

-- No newline and no carriage return.
abbrev pub IsPlain : Bytes → Type 0
IsPlain = All (λ c. (c ≢ b'\n') × (c ≢ b'\r'))

abbrev eol : Bool → Bytes → Bytes
eol true rest = b'\r' ∷ b'\n' ∷ rest
eol false rest = b'\n' ∷ rest

chop-eol :
    (crlf : Bool) (l rest : Bytes)
    → IsPlain l
    → chop (l ++ eol crlf rest)
      ≡ ((l ++ (if crlf then b'\r' ∷ [] else [])) ∷ (chop rest).0, (chop rest).1)
unfolding chop
chop-eol true [] rest h = refl
chop-eol false [] rest h = refl
chop-eol crlf (c ∷ l) rest (n, h) = ground (arith, chop-eol crlf l rest h)

trim_last-plain : (l : Bytes) → IsPlain l → trim_last b'\r' l ≡ l
unfolding trim_last
trim_last-plain [] h = refl
trim_last-plain (c ∷ []) h = ground arith
trim_last-plain (c ∷ d ∷ l) (n, h) = ap (◌∷◌ c) (trim_last-plain (d ∷ l) h)

trim_last-eol :
    (crlf : Bool) (l : Bytes)
    → IsPlain l
    → trim_last b'\r' (l ++ (if crlf then b'\r' ∷ [] else [])) ≡ l
trim_last-eol true l h = trim_last-concat b'\r' l
trim_last-eol false l h = rw append-nil (trim_last-plain l h)

abbrev pub whole : Bytes → Stream
whole s = record { bytes = s; broken = false }

-- A line in front of a stream, with either line end.
lines-eol :
    (crlf : Bool) (l rest : Bytes)
    → IsPlain l
    → lines (whole (l ++ eol crlf rest)) ≡ l ∷ lines (whole rest)
lines-eol crlf l rest h = rw (chop-eol crlf l rest h, trim_last-eol crlf l h)

-- An event as a server writes it: its id, and the lines of its data, one at least.
pub record Message : Type 0 where
  pub id : Bytes
  pub first : Bytes
  pub others : List Bytes

pub record IsSendable (m : Message) : Type 0 where
  pub id_plain : IsPlain m.id
  pub id_no_nul : has_byte 0 m.id ≡ false
  pub first_plain : IsPlain m.first
  pub others_plain : All IsPlain m.others

abbrev write_data : Bool → List Bytes → Bytes → Bytes
write_data crlf [] rest = eol crlf rest
write_data crlf (l ∷ ls) rest = codes "data: " ++ (l ++ eol crlf (write_data crlf ls rest))

abbrev pub write : Bool → List Message → Bytes
write crlf [] = []
write crlf (m ∷ ms) =
    codes "id: " ++ (m.id ++ eol crlf (write_data crlf (m.first ∷ m.others) (write crlf ms)))

-- The data lines, joined by newlines.
abbrev pub payload_of : Bytes → List Bytes → Bytes
payload_of first [] = first
payload_of first (l ∷ ls) = payload_of (first ++ (b'\n' ∷ l)) ls

abbrev pub event_of : Message → Event
event_of m = record { id = m.id; payload = payload_of m.first m.others }

abbrev pub last_id_of : Bytes → List Message → Bytes
last_id_of id [] = id
last_id_of id (m ∷ ms) = last_id_of m.id ms

IsPlain-field : (name v : Bytes) → IsPlain name → IsPlain v → IsPlain (name ++ v)
IsPlain-field name v hn hv = All-append _ name v hn hv

-- The first line of a stream, taken off.
dispatch-eol :
    (crlf : Bool) (l rest : Bytes) (p : Option Bytes) (id : Bytes)
    → IsPlain l
    → dispatch (lines (whole (l ++ eol crlf rest))) eof p id
      ≡ dispatch (l ∷ lines (whole rest)) eof p id
dispatch-eol crlf l rest p id h = ap (λ ls. dispatch ls eof p id) (lines-eol crlf l rest h)

dispatch-write_data :
    (crlf : Bool) (ls : List Bytes) (rest id b : Bytes)
    → All IsPlain ls
    → dispatch (lines (whole (write_data crlf ls rest))) eof (some b) id
      ≡ prepend
          (record { id = id; payload = payload_of b ls })
          (dispatch (lines (whole rest)) eof none id)
dispatch-write_data crlf [] rest id b h =
    dispatch-eol crlf [] rest (some b) id tt ∙ dispatch-blank (lines (whole rest)) b id
dispatch-write_data crlf (l ∷ ls) rest id b (hl, h) =
    dispatch-eol crlf (codes "data: " ++ l) (write_data crlf ls rest) (some b) id
      (IsPlain-field (codes "data: ") l (omega arith) hl)
    ∙ dispatch-data l _ (some b) id
    ∙ dispatch-write_data crlf ls rest id (b ++ (b'\n' ∷ l)) h

dispatch-message :
    (crlf : Bool) (m : Message) (rest id : Bytes)
    → IsSendable m
    → dispatch
        (lines
          (whole (codes "id: " ++ (m.id ++ eol crlf (write_data crlf (m.first ∷ m.others) rest)))))
        eof
        none
        id
      ≡ prepend (event_of m) (dispatch (lines (whole rest)) eof none m.id)
dispatch-message crlf m rest id h =
    dispatch-eol crlf (codes "id: " ++ m.id) (write_data crlf (m.first ∷ m.others) rest) none id
      (IsPlain-field (codes "id: ") m.id (omega arith) h.id_plain)
    ∙ dispatch-id m.id _ none id h.id_no_nul
    ∙ dispatch-eol crlf (codes "data: " ++ m.first) (write_data crlf m.others rest) none m.id
        (IsPlain-field (codes "data: ") m.first (omega arith) h.first_plain)
    ∙ dispatch-data m.first _ none m.id
    ∙ dispatch-write_data crlf m.others rest m.id m.first h.others_plain

dispatch-write :
    (crlf : Bool) (ms : List Message) (id : Bytes)
    → All IsSendable ms
    → dispatch (lines (whole (write crlf ms))) eof none id
      ≡ record { events = map event_of ms; last_id = last_id_of id ms; end = eof }
dispatch-write crlf [] id h = dispatch_end id
dispatch-write crlf (m ∷ ms) id (hm, h) =
    dispatch-message crlf m (write crlf ms) id hm
    ∙ ap (prepend (event_of m)) (dispatch-write crlf ms m.id h)

-- Messages whose ids and data lines hold no line end, and whose ids hold no NUL, written with
-- either line end, are read back as the same events in order, and the stream ends in good order.
pub read_events-write :
    (crlf : Bool) (ms : List Message)
    → All IsSendable ms
    → read_events (whole (write crlf ms))
      ≡ some (record { events = map event_of ms; last_id = last_id_of [] ms; end = eof })
read_events-write crlf ms h =
    read_events-meaning (whole (write crlf ms)) ∙ ap some (dispatch-write crlf ms [] h)
