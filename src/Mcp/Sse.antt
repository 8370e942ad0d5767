-- ===== src/Mcp/Sse.antt =====
-- pkg/mcp/sse.go: the reader of `text/event-stream` bodies.
pub mod Lines
pub mod Meaning
pub mod Spec
pub mod RoundTrip
use mcpurl.Prelude.{
  ℕ, zero, suc, Bool, true, false, ◌&&◌, List, [], ◌∷◌, ◌++◌, Option, none, some, ◌==◌,
  if◌then◌else◌,
}
use mcpurl.Prelude.Lists.{length}
use mcpurl.Prelude.Bytes.{Bytes, codes, equal, is_empty, has_byte, trim_last}

pub record Event : Type 0 where
  pub id : Bytes
  pub payload : Bytes

-- A body as a reader sees it: these bytes, and then the end of the stream or a read error.
pub record Stream : Type 0 where
  pub bytes : Bytes
  pub broken : Bool

pub data ReadErr : Type 0 where
  eof failed : ReadErr

pub record Reader : Type 0 where
  pub stream : Stream
  pub last_id : Bytes

-- `ReadBytes('\n')`: the bytes up to the newline and with it, the rest, whether there was one.
unfoldable pub read_bytes : Bytes → Bytes × Bytes × Bool
read_bytes [] = ([], [], false)
read_bytes (c ∷ s) =
    let (line, rest, found) = read_bytes s in
    if c == b'\n' then (c ∷ [], s, true) else (c ∷ line, rest, found)

abbrev pub trim_eol : Bytes → Bytes
trim_eol b = trim_last b'\r' (trim_last b'\n' b)

pub data Read : Type 0 where
  got : Bytes → Stream → Read
  stop : ReadErr → Read

-- What `readLine` makes of the result of `ReadBytes`.
pub read_of : Bool → Bytes × Bytes × Bool → Read
read_of broken (line, rest, found) =
    if found
    then got (trim_eol line) (record { bytes = rest; broken = broken })
    else if broken
    then stop failed
    else if is_empty line
    then stop eof
    else got (trim_eol line) (record { bytes = rest; broken = broken })

unfoldable pub read_line : Stream → Read
unfolding read_bytes read_of trim_last
read_line s = read_of s.broken (read_bytes s.bytes)

-- The bytes before the first colon, and those behind it if there is one.
unfoldable pub cut_colon : Bytes → Bytes × Option Bytes
cut_colon [] = ([], none)
cut_colon (c ∷ s) =
    let (before, after) = cut_colon s in if c == b':' then ([], some s) else (c ∷ before, after)

abbrev strip_blank : Bytes → Bytes
strip_blank [] = []
strip_blank (c ∷ s) = if c == b' ' then s else c ∷ s

unfoldable pub split_field : Bytes → Bytes × Bytes
unfolding cut_colon
split_field line =
    let (before, after) = cut_colon line in
    elim after [ none ↦ (line, []) | some value ↦ (before, strip_blank value) ]

-- One turn of the loop in `Next`: an event, or the loop's variables `data` and `found`.
pub data Progress : Type 0 where
  done : Event → Reader → Progress
  more : Bytes → Bool → Reader → Progress

-- The `switch` on the field's name.
unfoldable pub take_field : Bytes → Bytes → Bytes → Bool → Reader → Progress
unfolding equal has_byte
take_field name value buf found r =
    if equal name (codes "data")
    then more ((if found then buf ++ (b'\n' ∷ []) else buf) ++ value) true r
    else if equal name (codes "id")
    then more buf found (if has_byte 0 value then r else record r { last_id = value })
    else more buf found r

unfoldable pub take_line : Bytes → Bytes → Bool → Reader → Progress
unfolding take_field split_field
take_line [] buf found r =
    if found then done (record { id = r.last_id; payload = buf }) r else more buf found r
take_line (c ∷ line) buf found r =
    if c == b':'
    then more buf found r
    else let (name, value) = split_field (c ∷ line) in take_field name value buf found r

pub data Next : Type 0 where
  event : Event → Reader → Next
  over : ReadErr → Reader → Next
  no_fuel : Next

pub at_end : ReadErr → Bytes → Bool → Reader → Next
at_end eof buf true r = event (record { id = r.last_id; payload = buf }) r
at_end e buf found r = over e r

-- What a turn of the loop makes of a line, and of a read: `loop` is the next turn.
abbrev pub after_line : (Bytes → Bool → Reader → Next) → Progress → Next
after_line loop (done e r) = event e r
after_line loop (more buf found r) = loop buf found r

unfoldable pub after_read : (Bytes → Bool → Reader → Next) → Bytes → Bool → Reader → Read → Next
unfolding at_end
after_read loop buf found r (stop e) = at_end e buf found r
after_read loop buf found r (got line s) =
    after_line loop (take_line line buf found (record r { stream = s }))

-- The loop of `Next`, with its variables. Every turn takes a line off the stream.
unfoldable pub next_from : ℕ → Bytes → Bool → Reader → Next
unfolding after_read
next_from zero buf found r = no_fuel
next_from (suc fuel) buf found r = after_read (next_from fuel) buf found r (read_line r.stream)

unfoldable pub next : ℕ → Reader → Next
unfolding next_from read_line take_line
next fuel = next_from fuel [] false

-- The `for` loop around `Next` in `consumePost` and `listenOnce`: the events in order, the id
-- that the reader saw last, and how the stream ended; `none` where the fuel runs out.
pub record Drained : Type 0 where
  pub events : List Event
  pub last_id : Bytes
  pub end : ReadErr

abbrev pub before : Event → Option Drained → Option Drained
before e none = none
before e (some d) = some (record d { events = e ∷ d.events })

-- One round: `loop` is the next one.
abbrev pub drained : (Reader → Option Drained) → Next → Option Drained
drained loop (event e r) = before e (loop r)
drained loop (over err r) = some (record { events = []; last_id = r.last_id; end = err })
drained loop no_fuel = none

unfoldable pub drain_from : ℕ → ℕ → Reader → Option Drained
drain_from zero fuel r = none
drain_from (suc rounds) fuel r = drained (drain_from rounds fuel) (next fuel r)

-- A fresh reader over a body, read to the end.
unfoldable pub read_events : Stream → Option Drained
unfolding drain_from next
read_events s = let n = suc (length s.bytes) in drain_from n n (record { stream = s; last_id = [] })
