-- ===== src/Mcp/Client/Asks.antt =====
-- How much the token provider's state may grow in one run of `doAuthed`.
use mcpurl.Prelude.{
  ℕ, zero, suc, ◌+◌, ◌≤◌, ◌/◌, ◌||◌, not, [], Option, none, some, ◌==◌, arith, if_both,
}
use mcpurl.Prelude.Bytes.{Bytes, equal}
use mcpurl.Mcp.Http.{Response, Request}
use mcpurl.Mcp.Client.{
  Grant, granted, denied, Peer, Result, World, ask, send, on_grant, on_response, on_sent, on_built,
  cycle, on_first, do_authed,
}

-- A weight of the provider's state that one call raises by one at most.
module _ (peer : Peer) (weight : peer.Provider → ℕ)
    (slow : (p : peer.Provider) (x c : Bytes) → weight (peer.token p x c).1 ≤ 1 + weight p) where
  abbrev Action : Type 0
  Action = World peer → Result Response × World peer

  -- The weight rises by `n` at most.
  abbrev pub Raises : ℕ → Action → Type 0
  Raises n f = (w : World peer) → weight (f w).1.provider ≤ n + weight w.provider

  ask-slow :
      (x c : Bytes) (w : World peer) → weight (ask peer x c w).1.provider ≤ 1 + weight w.provider
  unfolding ask
  ask-slow x c w =
      if_both (λ (r : Grant × World peer). weight (r.1.provider) ≤ 1 + weight w.provider)
        peer.has_provider (slow w.provider x c) (omega arith)

  on_grant-Raises :
      (n : ℕ) (loop : Bytes → Action) (t : Bytes) (r : Response) (g : Grant)
      → ((u : Bytes) → Raises n (loop u))
      → Raises n (on_grant peer loop t r g)
  unfolding on_grant
  on_grant-Raises n loop t r denied h w = omega arith
  on_grant-Raises n loop t r (granted u) h w =
      if_both (λ (x : Result Response × World peer). weight (x.1.provider) ≤ n + weight w.provider)
        (equal u t) (omega arith) (h u w)

  asked-Raises :
      (n k : ℕ) (loop : Bytes → Action) (t : Bytes) (r : Response) (g : Grant) (w : World peer)
      → ((u : Bytes) → Raises n (loop u))
      → weight w.provider ≤ 1 + k
      → weight (on_grant peer loop t r g w).1.provider ≤ suc n + k
  asked-Raises n k loop t r g w h e =
      let grown = on_grant-Raises n loop t r g h w in omega (arith, grown, e)

  abbrev RaisesNext : ℕ → Option (Bytes → Action) → Type 0
  RaisesNext n none = Unit {0}
  RaisesNext zero (some loop) = ⊥
  RaisesNext (suc n) (some loop) = (u : Bytes) → Raises n (loop u)

  on_response-Raises :
      (n : ℕ) (next : Option (Bytes → Action)) (t : Bytes) (r : Response)
      → RaisesNext n next
      → Raises n (on_response peer next t r)
  unfolding on_response
  on_response-Raises n none t r h w =
      let low : Result Response × World peer → Type 0 =
        λ x. weight (x.1.provider) ≤ n + weight w.provider in
      if_both low (r.status / 100 == 2) (omega arith)
        (if_both low (not (r.status == 401) || not peer.has_provider) (omega arith) (omega arith))
  on_response-Raises zero (some loop) t r h w = absurd h
  on_response-Raises (suc n) (some loop) t r h w =
      let low : Result Response × World peer → Type 0 =
        λ x. weight (x.1.provider) ≤ suc n + weight w.provider in
      if_both low (r.status / 100 == 2) (omega arith) (
        if_both low (not (r.status == 401) || not peer.has_provider) (omega arith)
          (asked-Raises n (weight w.provider) loop t _ _ _ h (ask-slow _ _ w)))

  on_sent-Raises :
      (n : ℕ) (next : Option (Bytes → Action)) (t : Bytes) (r : Option Response)
      → RaisesNext n next
      → Raises n (on_sent peer next t r)
  unfolding on_sent
  on_sent-Raises n next t none h w = omega arith
  on_sent-Raises n next t (some r) h w = on_response-Raises n next t r h w

  on_built-Raises :
      (n : ℕ) (next : Option (Bytes → Action)) (t : Bytes) (q : Option Request)
      → RaisesNext n next
      → Raises n (on_built peer next t q)
  unfolding on_built send
  on_built-Raises n next t none h w = omega arith
  on_built-Raises n next t (some q) h w =
      on_sent-Raises n next t (send peer q w).0 h (send peer q w).1

  cycle-Raises :
      (left : ℕ) (build : Bytes → Option Request) (t : Bytes)
      → Raises left (cycle peer left build t)
  unfolding cycle
  cycle-Raises zero build t w = on_built-Raises 0 none t (build t) tt w
  cycle-Raises (suc left) build t w =
      on_built-Raises (suc left) (some (cycle peer left build)) t (build t)
        (λ u. cycle-Raises left build u) w

  first-Raises :
      (k : ℕ) (build : Bytes → Option Request) (g : Grant) (w : World peer)
      → weight w.provider ≤ 1 + k
      → weight (on_first peer build g w).1.provider ≤ 5 + k
  unfolding on_first
  first-Raises k build denied w e = omega (arith, e)
  first-Raises k build (granted t) w e =
      let grown = cycle-Raises 4 build t w in omega (arith, grown, e)

  -- One run of `doAuthed` raises the weight by five at most.
  pub do_authed-Raises : (build : Bytes → Option Request) → Raises 5 (do_authed peer build)
  unfolding do_authed
  do_authed-Raises build w =
      first-Raises (weight w.provider) build (ask peer [] [] w).0 (ask peer [] [] w).1
        (ask-slow [] [] w)
