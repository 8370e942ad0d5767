-- ===== src/Mcp/Transport/Pace.antt =====
-- How fast `Listen` reconnects, and what it delivers.
use native.Mathlib.Nat.{mod-lt}
use mcpurl.Prelude.{
  ℕ, suc, ◌*◌, ◌/◌, ◌%◌, ◌≤◌, ◌<◌, List, [], ◌∷◌, Option, none, some, ltb, arith, inl, inr,
  Bool-cases,
}
use mcpurl.Prelude.Int.{ℤ, pos, negsuc}
use mcpurl.Prelude.Lists.{All, All-append}
use mcpurl.Mcp.Client.{Peer, Failure}
use mcpurl.Mcp.Transport.{Outcome, W, listen_once}
use mcpurl.Mcp.Transport.Framing.{IsMessage, listen_once-IsMessage}
use mcpurl.Mcp.Transport.Listen.{
  second, jitter, settled, doubled, stops, Listened, after_turn, listen_from, listen,
}

abbrev IsBackoff : ℕ → Type 0
IsBackoff b = (second ≤ b) × (b ≤ 30 * second)

-- The shortest wait: three quarters of a second, and a quarter where a reading of the clock is before
-- 1970.
unfoldable pub shortest : List ℤ → ℕ
shortest [] = 750000000
shortest (pos n ∷ clocks) = shortest clocks
shortest (negsuc n ∷ clocks) = 250000000

-- At most 37.5 seconds.
abbrev pub IsPaced : ℕ → ℕ → Type 0
IsPaced low d = (low ≤ d) × (d ≤ 37500000000)

shortest-low : (clocks : List ℤ) → (250000000 ≤ shortest clocks) × (shortest clocks ≤ 750000000)
unfolding shortest
shortest-low [] = (omega arith, omega arith)
shortest-low (pos n ∷ clocks) = shortest-low clocks
shortest-low (negsuc n ∷ clocks) = (omega arith, omega arith)

jitter-IsPaced :
    (clock : ℤ) (clocks : List ℤ) (b : ℕ)
    → IsBackoff b
    → IsPaced (shortest (clock ∷ clocks)) (jitter clock b)
unfolding jitter shortest
jitter-IsPaced (pos n) clocks b (low, high) =
    let small : n % (b / 2) < b / 2 = mod-lt n (omega arith) in
    let (_, most) = shortest-low clocks in (omega arith, omega arith)
jitter-IsPaced (negsuc n) clocks b (low, high) =
    let small : suc n % (b / 2) < b / 2 = mod-lt (suc n) (omega arith) in (omega arith, omega arith)

weaken-IsPaced :
    (clock : ℤ) (clocks : List ℤ) (l : List ℕ)
    → All (IsPaced (shortest clocks)) l
    → All (IsPaced (shortest (clock ∷ clocks))) l
unfolding shortest
weaken-IsPaced (pos n) clocks l h = h
weaken-IsPaced (negsuc n) clocks [] h = tt
weaken-IsPaced (negsuc n) clocks (d ∷ l) ((low, high), h) =
    let (least, _) = shortest-low clocks in
    ((omega arith, high), weaken-IsPaced (negsuc n) clocks l h)

settled-IsBackoff : (f : Option Failure) (b : ℕ) → IsBackoff b → IsBackoff (settled f b)
settled-IsBackoff none b h = (omega arith, omega arith)
settled-IsBackoff (some f) b h = h

doubled-IsBackoff : (b : ℕ) → IsBackoff b → IsBackoff (doubled b)
doubled-IsBackoff b (low, high) = elim (Bool-cases (ltb (30 * second) (b * 2))) [
  | inl above ↦ rw above (omega arith, omega arith)
  | inr below ↦ rw below (ground arith, ground arith)
]

module _ (peer : Peer) where
  -- Every wait is neither a storm nor a stall, and all that was delivered is JSON on one line.
  abbrev pub IsOrderly : List ℤ → Listened peer → Type 0
  IsOrderly clocks l = All (IsPaced (shortest clocks)) l.waits × All IsMessage l.delivered

  after_last-IsOrderly :
      (b : ℕ) (r : Outcome × W peer) → All IsMessage r.0.1 → IsOrderly [] (after_turn peer none b r)
  unfolding after_turn
  after_last-IsOrderly b ((f, ms), w) h = elim (Bool-cases (stops f)) [
    | inl over ↦ rw over (tt, h)
    | inr on ↦ rw on (tt, h)
  ]

  after_wait-IsOrderly :
      (clock : ℤ) (clocks : List ℤ) (loop : ℕ → W peer → Listened peer) (b : ℕ)
      (r : Outcome × W peer)
      → All IsMessage r.0.1
      → IsBackoff b
      → ((c : ℕ) (w : W peer) → IsBackoff c → IsOrderly clocks (loop c w))
      → IsOrderly (clock ∷ clocks) (after_turn peer (some (clock, loop)) b r)
  unfolding after_turn
  after_wait-IsOrderly clock clocks loop b ((f, ms), w) h hb k = elim (Bool-cases (stops f)) [
    | inl over ↦ rw over (tt, h)
    | inr on ↦
        let c = settled f b in
        let hc = settled-IsBackoff f b hb in
        let rest = loop (doubled c) w in
        let (paced, framed) = k (doubled c) w (doubled-IsBackoff c hc) in
        rw on (
          (jitter-IsPaced clock clocks c hc, weaken-IsPaced clock clocks rest.waits paced),
          All-append IsMessage ms rest.delivered h framed,
        )
  ]

  listen_from-IsOrderly :
      (clocks : List ℤ) (b : ℕ) (w : W peer)
      → IsBackoff b
      → IsOrderly clocks (listen_from peer clocks b w)
  unfolding listen_from
  listen_from-IsOrderly [] b w h =
      after_last-IsOrderly b (listen_once peer w) (listen_once-IsMessage peer w)
  listen_from-IsOrderly (clock ∷ clocks) b w h =
      after_wait-IsOrderly clock clocks (listen_from peer clocks) b (listen_once peer w)
        (listen_once-IsMessage peer w) h λ c v k. listen_from-IsOrderly clocks c v k

  -- However the server behaves and whatever the clock shows, `Listen` waits between a quarter of a
  -- second and 37.5 seconds before each reconnect, at least three quarters of a second unless a
  -- reading of the clock is before 1970, and delivers only JSON on one line.
  pub listen-IsOrderly : (clocks : List ℤ) (w : W peer) → IsOrderly clocks (listen peer clocks w)
  unfolding listen
  listen-IsOrderly clocks w = listen_from-IsOrderly clocks second w (omega arith, omega arith)
