-- ===== src/Mcp/Client/Leaves.antt =====
-- `doAuthed` leaves the client's own state alone.
use mcpurl.Prelude.{
  ℕ, zero, suc, ◌/◌, ◌≡◌, refl, ◌∙◌, ◌||◌, not, [], Option, none, some, ◌==◌, arith, if_both,
}
use mcpurl.Prelude.Bytes.{Bytes}
use mcpurl.Mcp.Http.{Response, Request}
use mcpurl.Mcp.Client.{
  Grant, granted, denied, Peer, Result, World, ask, send, on_grant, on_response, on_sent, on_built,
  cycle, on_first, do_authed,
}

module _ (peer : Peer) where
  abbrev Action : Type 0
  Action = World peer → Result Response × World peer

  -- The client's own state is as it was.
  abbrev Leaves : Action → Type 0
  Leaves f = (w : World peer) → (f w).1.client ≡ w.client

  ask-client : (x c : Bytes) (w : World peer) → (ask peer x c w).1.client ≡ w.client
  unfolding ask
  ask-client x c w = ground arith

  on_grant-Leaves :
      (loop : Bytes → Action) (t : Bytes) (r : Response) (g : Grant)
      → ((u : Bytes) → Leaves (loop u))
      → Leaves (on_grant peer loop t r g)
  unfolding on_grant
  on_grant-Leaves loop t r denied h w = refl
  on_grant-Leaves loop t r (granted u) h w = ground (arith, h u w)

  abbrev LeavesNext : Option (Bytes → Action) → Type 0
  LeavesNext none = Unit
  LeavesNext (some loop) = (u : Bytes) → Leaves (loop u)

  on_response-Leaves :
      (next : Option (Bytes → Action)) (t : Bytes) (r : Response)
      → LeavesNext next
      → Leaves (on_response peer next t r)
  unfolding on_response
  on_response-Leaves none t r h w = ground arith
  on_response-Leaves (some loop) t r h w =
      let same : Result Response × World peer → Type 0 = λ o. o.1.client ≡ w.client in
      if_both same (r.status / 100 == 2) refl (
        if_both same (not (r.status == 401) || not peer.has_provider) refl
          (on_grant-Leaves loop t _ _ h _ ∙ ask-client _ _ w))

  on_sent-Leaves :
      (next : Option (Bytes → Action)) (t : Bytes) (o : Option Response)
      → LeavesNext next
      → Leaves (on_sent peer next t o)
  unfolding on_sent
  on_sent-Leaves next t none h w = refl
  on_sent-Leaves next t (some r) h w = on_response-Leaves next t r h w

  on_built-Leaves :
      (next : Option (Bytes → Action)) (t : Bytes) (o : Option Request)
      → LeavesNext next
      → Leaves (on_built peer next t o)
  unfolding on_built on_sent send
  on_built-Leaves next t none h w = refl
  on_built-Leaves next t (some req) h w =
      on_sent-Leaves next t (send peer req w).0 h (send peer req w).1

  cycle-Leaves :
      (left : ℕ) (build : Bytes → Option Request) (t : Bytes) → Leaves (cycle peer left build t)
  unfolding cycle
  cycle-Leaves zero build t = on_built-Leaves none t (build t) tt
  cycle-Leaves (suc left) build t =
      on_built-Leaves (some (cycle peer left build)) t (build t) (λ u. cycle-Leaves left build u)

  on_first-Leaves : (build : Bytes → Option Request) (g : Grant) → Leaves (on_first peer build g)
  unfolding on_first
  on_first-Leaves build denied w = refl
  on_first-Leaves build (granted t) w = cycle-Leaves 4 build t w

  pub do_authed-client :
      (build : Bytes → Option Request) (w : World peer)
      → (do_authed peer build w).1.client ≡ w.client
  unfolding do_authed
  do_authed-client build w = on_first-Leaves build (ask peer [] [] w).0 _ ∙ ask-client [] [] w
