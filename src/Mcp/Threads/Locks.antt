-- ===== src/Mcp/Threads/Locks.antt =====
-- Who holds the lock, and what a step may do to it and to the generation.
use mcpurl.Prelude.{
  ℕ, ◌+◌, ◌%◌, ◌^◌, ◌≡◌, ◌⊎◌, refl, Bool, true, false, List, [], ◌∷◌, ◌++◌, Option, none, some,
  arith,
}
use mcpurl.Prelude.Lists.{All}
use mcpurl.Mcp.Client.{Peer}
use mcpurl.Mcp.Bridge.{Codec}
use mcpurl.Mcp.Threads.{
  Job, sending, listener, given_up, resumed, listening, streaming, Pc, start, posting, failed,
  waiting, initializing, noting, replaying, reporting, finished, Shared,
}

-- The generations at which the session was renewed, the last one first, lead from the first
-- generation to the present one by single steps modulo 2 ^ 64.
abbrev pub Counts : ℕ → List ℕ → ℕ → Type 0
Counts first [] g = g ≡ first
Counts first (r ∷ rs) g = (g ≡ (r + 1) % 2 ^ 64) × Counts first rs r

-- Whether a goroutine holds the lock.
abbrev pub holds : Pc → ℕ
holds (initializing job gen) = 1
holds (noting job gen) = 1
holds p = 0

abbrev pub holders : List Pc → ℕ
holders [] = 0
holders (p ∷ ps) = holds p + holders ps

pub holders-append : (ps qs : List Pc) → holders (ps ++ qs) ≡ holders ps + holders qs
holders-append [] qs = omega arith
holders-append (p ∷ ps) qs = omega (arith, holders-append ps qs)

-- A goroutine that re-initializes does so at the present generation.
abbrev pub Agrees : ℕ → Pc → Type 0
Agrees g (initializing job gen) = gen ≡ g
Agrees g (noting job gen) = gen ≡ g
Agrees g p = Unit {0}

pub Agrees-free : (g : ℕ) (p : Pc) → holds p ≡ 0 → Agrees g p
Agrees-free g (start msg) h = tt
Agrees-free g (replaying msg) h = tt
Agrees-free g (posting msg gen) h = tt
Agrees-free g (failed msg f gen) h = tt
Agrees-free g (waiting job gen) h = tt
Agrees-free g listening h = tt
Agrees-free g (streaming gen) h = tt
Agrees-free g (initializing job gen) h = absurd (omega arith)
Agrees-free g (noting job gen) h = absurd (omega arith)
Agrees-free g (reporting msg f) h = tt
Agrees-free g finished h = tt

-- Neither end of a `reinit` holds the lock.
pub given_up-free : (job : Job) → holds (given_up job) ≡ 0
unfolding given_up
given_up-free (sending msg f) = refl
given_up-free listener = refl

pub resumed-free : (job : Job) → holds (resumed job) ≡ 0
unfolding resumed
resumed-free (sending msg f) = refl
resumed-free listener = refl

pub All-free : (g : ℕ) (ps : List Pc) → holders ps ≡ 0 → All (Agrees g) ps
All-free g [] h = tt
All-free g (p ∷ ps) h = (Agrees-free g p (omega arith), All-free g ps (omega arith))

module _ (peer : Peer) (codec : Codec) where
  abbrev pub S : Type 0
  S = Shared peer codec

  abbrev pub lock_of : Bool → ℕ
  lock_of true = 1
  lock_of false = 0

  -- A step renews nothing and moves the lock with the goroutine, or it renews the generation that
  -- the goroutine saw and gives the lock back.
  abbrev pub Moved : S → Pc → S → Pc → Type 0
  Moved s p t q =
      ((t.bridge.gen ≡ s.bridge.gen)
        × (t.renewals ≡ s.renewals)
        × (lock_of t.locked + holds p ≡ lock_of s.locked + holds q)
        × Agrees s.bridge.gen q)
      ⊎ ((t.bridge.gen ≡ (s.bridge.gen + 1) % 2 ^ 64)
          × (t.renewals ≡ s.bridge.gen ∷ s.renewals)
          × (holds p ≡ 1)
          × (t.locked ≡ false)
          × (holds q ≡ 0))

  abbrev pub Sound : S → Pc → Option (S × Pc) → Type 0
  Sound s p none = Unit {0}
  Sound s p (some (t, q)) = Moved s p t q
