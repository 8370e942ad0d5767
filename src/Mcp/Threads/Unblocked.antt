-- ===== src/Mcp/Threads/Unblocked.antt =====
-- The goroutines never block one another for ever.
use mcpurl.Prelude.{
  ℕ, ◌+◌, ◌≡◌, ◌<◌, ◌⊎◌, refl, ap, Bool, true, false, List, [], ◌∷◌, ◌++◌, some, ◌==◌, arith, inl,
  inr, Bool-cases,
}
use mcpurl.Prelude.Bytes.{Bytes}
use mcpurl.Mcp.Client.{Peer}
use mcpurl.Mcp.Bridge.{Codec, Bridge}
use mcpurl.Mcp.Threads.{
  listening, streaming, Pc, start, posting, failed, waiting, initializing, noting, replaying,
  reporting, finished, unless_locked, advance, System, Step, turn, cancel, Reach,
}
use mcpurl.Mcp.Threads.Locks.{holds, S}
use mcpurl.Mcp.Threads.Progress.{rank, work}
use mcpurl.Mcp.Threads.Renewals.{IsSerial, Reach-IsSerial}

-- Whether a goroutine is still there.
abbrev pub running : Pc → ℕ
running finished = 0
running p = 1

abbrev pub alive : List Pc → ℕ
alive [] = 0
alive (p ∷ ps) = running p + alive ps

-- A list with one place in it.
record Place (P : Pc → Type 0) (ps : List Pc) : Type 0 where
  before : List Pc
  after : List Pc
  here : Pc
  splits : ps ≡ before ++ (here ∷ after)
  has : P here

deeper : {P : Pc → Type 0} (p : Pc) (ps : List Pc) → Place P ps → Place P (p ∷ ps)
deeper p ps l = record {
  before = p ∷ l.before;
  after = l.after;
  here = l.here;
  splits = ap (◌∷◌ p) l.splits;
  has = l.has;
}

-- What adds up to something is something somewhere.
module _ (f : Pc → ℕ) where
  abbrev total : List Pc → ℕ
  total [] = 0
  total (p ∷ ps) = f p + total ps

  locate : (ps : List Pc) → 0 < total ps → Place (λ p. 0 < f p) ps
  locate [] h = absurd (omega arith)
  locate (p ∷ ps) h = elim (Bool-cases (f p == 0)) [
    | inr busy ↦ record { before = []; after = ps; here = p; splits = refl; has = ground arith }
    | inl idle ↦ deeper p ps (locate ps (ground arith))
  ]

module _ (peer : Peer) (codec : Codec) where
  -- What a goroutine that can go on does next.
  abbrev Enabled : S peer codec → Pc → Type 0
  Enabled s p = (t : S peer codec) × ((q : Pc) × (advance peer codec s p ≡ some (t, q)))

  holder-Enabled : (s : S peer codec) (p : Pc) → 0 < holds p → Enabled s p
  unfolding advance
  holder-Enabled s (initializing job gen) h = (_, (_, refl))
  holder-Enabled s (noting job gen) h = (_, (_, refl))
  holder-Enabled s (start msg) h = absurd (omega arith)
  holder-Enabled s (posting msg gen) h = absurd (omega arith)
  holder-Enabled s (failed msg f gen) h = absurd (omega arith)
  holder-Enabled s (waiting job gen) h = absurd (omega arith)
  holder-Enabled s (replaying msg) h = absurd (omega arith)
  holder-Enabled s (reporting msg f) h = absurd (omega arith)
  holder-Enabled s listening h = absurd (omega arith)
  holder-Enabled s (streaming gen) h = absurd (omega arith)
  holder-Enabled s finished h = absurd (omega arith)

  unless_locked-Enabled :
      (s : S peer codec) (r : S peer codec × Pc)
      → s.locked ≡ false
      → unless_locked peer codec s r ≡ some r
  unfolding unless_locked
  unless_locked-Enabled s r free = rw free refl

  free-Enabled : (s : S peer codec) (p : Pc) → s.locked ≡ false → 0 < running p → Enabled s p
  unfolding advance
  free-Enabled s (start msg) free h = (_, (_, unless_locked-Enabled s _ free))
  free-Enabled s (posting msg gen) free h = (_, (_, refl))
  free-Enabled s (failed msg f gen) free h = (_, (_, unless_locked-Enabled s _ free))
  free-Enabled s (waiting job gen) free h = (_, (_, unless_locked-Enabled s _ free))
  free-Enabled s (initializing job gen) free h = (_, (_, refl))
  free-Enabled s (noting job gen) free h = (_, (_, refl))
  free-Enabled s (replaying msg) free h = (_, (_, refl))
  free-Enabled s (reporting msg f) free h = (_, (_, refl))
  free-Enabled s listening free h = (_, (_, unless_locked-Enabled s _ free))
  free-Enabled s (streaming gen) free h = (_, (_, refl))
  free-Enabled s finished free h = absurd (omega arith)

  -- Whether a goroutine that holds the lock or runs `send` takes the step.
  abbrev pub drives : {x y : System peer codec} → Step peer codec x y → ℕ
  drives (turn before after p q s l e d) = holds p + rank p
  drives (cancel before after gen l d) = 0

  enabled-Step :
      (x : System peer codec) {P : Pc → Type 0}
      → ((p : Pc) → P p → Enabled x.shared p)
      → Place P x.threads
      → (y : System peer codec) × Step peer codec x y
  enabled-Step x f l =
      let e = f l.here l.has in
      (
        record { shared = e.0; threads = l.before ++ (e.1.0 ∷ l.after) },
        turn l.before l.after l.here (e.1.0) (e.0) l.splits (e.1.1) refl,
      )

  -- A step of the goroutine at a place.
  driven-Step :
      (x : System peer codec) {P : Pc → Type 0} (f : (p : Pc) → P p → Enabled x.shared p)
      → ((p : Pc) → P p → 0 < holds p + rank p)
      → (l : Place P x.threads)
      → (y : System peer codec) × ((st : Step peer codec x y) × (0 < drives st))
  driven-Step x f g l =
      let e = f l.here l.has in
      (
        record { shared = e.0; threads = l.before ++ (e.1.0 ∷ l.after) },
        (turn l.before l.after l.here (e.1.0) (e.0) l.splits (e.1.1) refl, g l.here l.has),
      )

  running_if : (p : Pc) → 0 < rank p → 0 < running p
  running_if (start msg) h = omega arith
  running_if (posting msg gen) h = omega arith
  running_if (failed msg f gen) h = omega arith
  running_if (waiting job gen) h = omega arith
  running_if (initializing job gen) h = omega arith
  running_if (noting job gen) h = omega arith
  running_if (replaying msg) h = omega arith
  running_if (reporting msg f) h = omega arith
  running_if listening h = omega arith
  running_if (streaming gen) h = omega arith
  running_if finished h = absurd (omega arith)

  -- Someone goes on while someone is there, and while a `send` is not done, a goroutine that runs
  -- one or holds the lock does.
  abbrev pub Progresses : System peer codec → Type 0
  Progresses x =
      ((alive x.threads ≡ 0) ⊎ ((y : System peer codec) × Step peer codec x y))
      × ((work x.threads ≡ 0)
          ⊎ ((y : System peer codec) × ((st : Step peer codec x y) × (0 < drives st))))

  module _ (first : ℕ) (x : System peer codec) (i : IsSerial peer codec first x) where
    held_somewhere : x.shared.locked ≡ true → Place (λ p. 0 < holds p) x.threads
    held_somewhere busy = locate holds x.threads (rw (i.held, busy) (omega arith))

    alive-Step : 0 < alive x.threads → (y : System peer codec) × Step peer codec x y
    alive-Step h = elim (Bool-cases x.shared.locked) [
      | inl busy ↦ enabled-Step x (λ p. holder-Enabled x.shared p) (held_somewhere busy)
      | inr free ↦ enabled-Step x (λ p. free-Enabled x.shared p free) (locate running x.threads h)
    ]

    work-Step :
        0 < work x.threads
        → (y : System peer codec) × ((st : Step peer codec x y) × (0 < drives st))
    work-Step h = elim (Bool-cases x.shared.locked) [
      | inl busy ↦
          driven-Step x (λ p. holder-Enabled x.shared p) (λ p q. omega (arith, q))
            (held_somewhere busy)
      | inr free ↦
          driven-Step x (λ p q. free-Enabled x.shared p free (running_if p q))
            (λ p q. omega (arith, q)) (locate rank x.threads h)
    ]

    IsSerial-Progresses : Progresses x
    IsSerial-Progresses = (
      elim (Bool-cases (alive x.threads == 0)) [
        | inl done ↦ inl (ground arith)
        | inr busy ↦ inr (alive-Step (ground arith))
      ],
      elim (Bool-cases (work x.threads == 0)) [
        | inl done ↦ inl (ground arith)
        | inr busy ↦ inr (work-Step (ground arith))
      ],
    )

  -- In every state that the goroutines reach, the listener among them, either all of them are done or
  -- one of them can take a step; and either every `send` is done, or a goroutine that runs one or
  -- holds the lock can take a step: they never all wait for the lock.
  pub Reach-Progresses :
      (b : Bridge peer codec) (no_sse : Bool) (ms : List Bytes) {x : System peer codec}
      → Reach peer codec b no_sse ms x
      → Progresses x
  Reach-Progresses b no_sse ms {x} r =
      IsSerial-Progresses b.gen x (Reach-IsSerial peer codec b no_sse ms r)
