-- ===== src/Mcp/Threads/Renewals.antt =====
-- Concurrent 404s: each generation is renewed at most once, and one goroutine at a time does it.
use mcpurl.Prelude.{
  ℕ, ◌≡◌, ◌≤◌, refl, sym, Bool, true, false, List, [], ◌∷◌, ◌++◌, some, arith, inl, inr, subst,
}
use mcpurl.Prelude.Bytes.{Bytes}
use mcpurl.Prelude.Lists.{All, All-append, All-prefix, All-suffix}
use mcpurl.Mcp.Client.{Peer}
use mcpurl.Mcp.Bridge.{Codec, Bridge}
use mcpurl.Mcp.Threads.{
  Pc, streaming, finished, advance, System, Step, turn, cancel, senders, spawn, Reach, begin, later,
}
use mcpurl.Mcp.Threads.Locks.{
  Counts, holds, holders, holders-append, Agrees, All-free, S, lock_of, Moved, Sound,
}
use mcpurl.Mcp.Threads.Turns.{advance-Sound}

module _ (peer : Peer) (codec : Codec) where
  -- From the first generation the renewals count up to the present one, and as many goroutines
  -- hold the lock as it is held, one at most; the holder renews the present generation.
  pub record IsSerial (first : ℕ) (x : System peer codec) : Type 0 where
    pub counted : Counts first x.shared.renewals x.shared.bridge.gen
    pub held : holders x.threads ≡ lock_of peer codec x.shared.locked
    pub agreed : All (Agrees x.shared.bridge.gen) x.threads

  lock_of-le : (b : Bool) → lock_of peer codec b ≤ 1
  lock_of-le true = omega arith
  lock_of-le false = omega arith

  module _ (first : ℕ) (before after : List Pc) (p q : Pc) (s t : S peer codec) where
    abbrev old : System peer codec
    old = record { shared = s; threads = before ++ (p ∷ after) }

    abbrev new : System peer codec
    new = record { shared = t; threads = before ++ (q ∷ after) }

    Moved-IsSerial : IsSerial first old → Moved peer codec s p t q → IsSerial first new
    Moved-IsSerial i (inl (g, r, l, a)) = record {
      counted = rw (g, r) i.counted;
      held =
          omega (
            arith,
            i.held,
            l,
            holders-append before (p ∷ after),
            holders-append before (q ∷ after),
          );
      agreed = rw g (
          All-append (Agrees s.bridge.gen) before (q ∷ after)
            (All-prefix (Agrees s.bridge.gen) before (p ∷ after) i.agreed)
            (a, (All-suffix (Agrees s.bridge.gen) before (p ∷ after) i.agreed).1));
    }
    Moved-IsSerial i (inr (g, r, h, l, free)) =
        let few = lock_of-le s.locked in
        let sum = holders-append before (p ∷ after) in
        record {
          counted = rw (g, r) (refl, i.counted);
          held = rw l (omega (arith, i.held, h, free, few, sum, holders-append before (q ∷ after)));
          agreed =
              All-free t.bridge.gen (before ++ (q ∷ after))
                (omega (arith, i.held, h, free, few, sum, holders-append before (q ∷ after)));
        }

    advance-IsSerial :
        IsSerial first old → advance peer codec s p ≡ some (t, q) → IsSerial first new
    advance-IsSerial i e =
        let a = (All-suffix (Agrees s.bridge.gen) before (p ∷ after) i.agreed).0 in
        let h : holds p ≤ lock_of peer codec s.locked =
          omega (arith, i.held, holders-append before (p ∷ after)) in
        Moved-IsSerial i (subst (Sound peer codec s p) e (advance-Sound peer codec s p a h))

  Step-IsSerial :
      (first : ℕ) {x y : System peer codec}
      → Step peer codec x y
      → IsSerial first x
      → IsSerial first y
  Step-IsSerial first {x} {y} (cancel before after gen l d) i = subst (IsSerial first) (sym d) (
      Moved-IsSerial first before after (streaming gen) finished x.shared x.shared
        (subst (λ ps. IsSerial first (record { shared = x.shared; threads = ps })) l i)
        (inl (refl, refl, omega arith, tt)))
  Step-IsSerial first {x} {y} (turn before after p q s l e d) i = subst (IsSerial first) (sym d) (
      advance-IsSerial first before after p q x.shared s
        (subst (λ ps. IsSerial first (record { shared = x.shared; threads = ps })) l i) e)

  senders-free : (ms : List Bytes) → holders (senders peer codec ms) ≡ 0
  senders-free [] = refl
  senders-free (m ∷ ms) = omega (arith, senders-free ms)

  spawn-free : (no_sse : Bool) (ms : List Bytes) → holders (spawn peer codec no_sse ms) ≡ 0
  spawn-free true ms = senders-free ms
  spawn-free false ms = omega (arith, senders-free ms)

  -- However the goroutines interleave, the listener among them, and whatever the server answers: the generations at which
  -- the session was renewed are consecutive, so none is renewed twice by several 404s at once; at
  -- most one goroutine is between the start and the end of a re-initialization, exactly when the
  -- lock is held, and it renews the present generation.
  pub Reach-IsSerial :
      (b : Bridge peer codec) (no_sse : Bool) (ms : List Bytes) {x : System peer codec}
      → Reach peer codec b no_sse ms x
      → IsSerial b.gen x
  Reach-IsSerial b no_sse ms begin = record {
    counted = refl;
    held = spawn-free no_sse ms;
    agreed = All-free b.gen (spawn peer codec no_sse ms) (spawn-free no_sse ms);
  }
  Reach-IsSerial b no_sse ms (later r st) = Step-IsSerial b.gen st (Reach-IsSerial b no_sse ms r)
