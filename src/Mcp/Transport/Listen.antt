-- ===== src/Mcp/Transport/Listen.antt =====
-- pkg/mcp/client.go: `Listen`, which opens the stream again and again, and how long it waits.
use mcpurl.Prelude.{
  ℕ, suc, ◌+◌, ◌-◌, ◌*◌, ◌/◌, ◌%◌, Bool, true, false, List, [], ◌∷◌, ◌++◌, Option, none, some, ltb,
  if◌then◌else◌,
}
use mcpurl.Prelude.Bytes.{Bytes}
use mcpurl.Prelude.Int.{ℤ, pos, negsuc}
use mcpurl.Mcp.Client.{Peer, Failure, no_stream, session_expired}
use mcpurl.Mcp.Transport.{Outcome, W, listen_once}

-- Nanoseconds.
abbrev pub second : ℕ
second = 1000000000

-- `jitter`, with what `UnixNano` gives: a remainder in Go has the sign of the dividend, and a clock
-- before 1970 is negative. What is left is not negative, since the remainder is below a half.
unfoldable pub jitter : ℤ → ℕ → ℕ
jitter (pos n) d = d + n % (d / 2) - d / 4
jitter (negsuc n) d = d - suc n % (d / 2) - d / 4

-- The backoff of this wait, and that of the next.
abbrev pub settled : Option Failure → ℕ → ℕ
settled none backoff = second
settled (some f) backoff = backoff

abbrev pub doubled : ℕ → ℕ
doubled backoff = if ltb (30 * second) (backoff * 2) then 30 * second else backoff * 2

-- The errors that `Listen` returns at once.
abbrev pub stops : Option Failure → Bool
stops (some no_stream) = true
stops (some session_expired) = true
stops _ = false

module _ (peer : Peer) where
  -- What was delivered and waited until `Listen` returned, none as its error where the context
  -- was cancelled.
  pub record Listened : Type 0 where
    pub failure : Option Failure
    pub delivered : List Bytes
    pub waits : List ℕ
    pub world : W peer

  abbrev prepend_wait : List Bytes → ℕ → Listened → Listened
  prepend_wait ms d l = record l { delivered = ms ++ l.delivered; waits = d ∷ l.waits }

  -- One turn: `next` is the loop after a wait, none where the context is cancelled.
  unfoldable pub after_turn : Option (ℤ × (ℕ → W peer → Listened)) → ℕ → Outcome × W peer → Listened
  after_turn next backoff ((f, ms), w) =
      if stops f then record { failure = f; delivered = ms; waits = []; world = w } else elim next [
        | none ↦ record { failure = none; delivered = ms; waits = []; world = w }
        | some (clock, loop) ↦
            prepend_wait ms (jitter clock (settled f backoff))
              (loop (doubled (settled f backoff)) w)
      ]

  -- The `for` loop, with the readings of the clock at its waits; the context is cancelled in the
  -- wait behind the last of them.
  unfoldable pub listen_from : List ℤ → ℕ → W peer → Listened
  unfolding after_turn
  listen_from [] backoff w = after_turn none backoff (listen_once peer w)
  listen_from (clock ∷ clocks) backoff w =
      after_turn (some (clock, listen_from clocks)) backoff (listen_once peer w)

  -- `Listen`
  unfoldable pub listen : List ℤ → W peer → Listened
  unfolding listen_from
  listen clocks w = listen_from clocks second w
