-- ===== src/Mcp/Threads/Alone.antt =====
-- A goroutine that runs without another in between does what `send` does.
use mcpurl.Prelude.{
  ℕ, zero, suc, ◌≡◌, refl, Bool, true, false, not, ◌&&◌, List, Option, none, some, ◌==◌,
  if◌then◌else◌,
}
use mcpurl.Prelude.Bytes.{Bytes, is_empty}
use mcpurl.Mcp.Client.{Peer, Failure, clear_session}
use mcpurl.Mcp.Bridge.{
  Codec, Bridge, set_client, set_version, write_out, synthesize_error, post_to, send_note,
  status_of, Reinit, on_reinitialized, reinit, on_replayed, on_reinit, on_posted, send,
}
use mcpurl.Mcp.Threads.{
  sending, given_up, resumed, Pc, start, failed, noting, reporting, Shared, posted, replayed,
  entered, initialized, noted, unless_locked, advance,
}

-- Two conditionals on the same test are related when their branches are.
ifs_both :
    {A C : Type 0} (R : A → C → Type 0) (t : Bool) {x y : A} {u v : C}
    → R x u
    → R y v
    → R (if t then x else y) (if t then u else v)
ifs_both R true p q = p
ifs_both R false p q = q

module _ (peer : Peer) (codec : Codec) where
  abbrev S : Type 0
  S = Shared peer codec

  abbrev B : Type 0
  B = Bridge peer codec

  pub continued : (S → Pc → B) → S → Option (S × Pc) → B
  continued rest s none = s.bridge
  continued rest s (some (t, q)) = rest t q

  -- One goroutine alone, for a number of steps at most.
  unfoldable pub run_alone : ℕ → S → Pc → B
  unfolding continued
  run_alone zero s p = s.bridge
  run_alone (suc n) s p = continued (run_alone n) s (advance peer codec s p)

  abbrev free : B → List ℕ → S
  free b rs = record { bridge = b; locked = false; renewals = rs }

  abbrev taken : B → List ℕ → S
  taken b rs = record { bridge = b; locked = true; renewals = rs }

  module _ (msg : Bytes) where
    reporting-alone :
        (n : ℕ) (f : Failure) (b : B) (rs : List ℕ)
        → run_alone (suc (suc n)) (free b rs) (reporting msg f)
          ≡ synthesize_error peer codec msg f b
    unfolding run_alone advance continued
    reporting-alone n f b rs = refl

    after_replayed :
        (n : ℕ) (s : S) (r : Option Failure × B)
        → run_alone (suc (suc n)) (replayed peer codec s msg r).0 (replayed peer codec s msg r).1
          ≡ on_replayed peer codec msg r
    unfolding run_alone advance continued replayed on_replayed
    after_replayed n s (none, b) = refl
    after_replayed n s (some f, b) = refl

    noting-alone :
        (f : Failure) (gen : ℕ) (b : B) (rs : List ℕ)
        → run_alone 5 (taken b rs) (noting (sending msg f) gen)
          ≡ on_reinit peer codec msg f (on_reinitialized peer codec (none, b))
    unfolding run_alone advance continued noted resumed on_reinit on_reinitialized
    noting-alone f gen b rs =
        let s = (noted peer codec (taken b rs) (sending msg f) gen (send_note peer codec b)).0 in
        after_replayed 1 s (post_to peer codec msg (write_out peer codec) s.bridge)

    after_initialized :
        (f : Failure) (gen : ℕ) (b : B) (rs : List ℕ) (r : Option Failure × B)
        → run_alone 5
            (initialized peer codec (taken b rs) (sending msg f) gen r).0
            (initialized peer codec (taken b rs) (sending msg f) gen r).1
          ≡ on_reinit peer codec msg f (on_reinitialized peer codec r)
    unfolding initialized given_up on_reinit on_reinitialized run_alone advance continued
    after_initialized f gen b rs (none, c) = noting-alone f gen c rs
    after_initialized f gen b rs (some g, c) = refl

    after_entered :
        (f : Failure) (gen : ℕ) (b : B) (rs : List ℕ)
        → run_alone 6
            (entered peer codec (free b rs) (sending msg f) gen).0
            (entered peer codec (free b rs) (sending msg f) gen).1
          ≡ on_reinit peer codec msg f (reinit peer codec gen b)
    unfolding entered given_up resumed reinit run_alone advance continued on_reinit
    after_entered f gen b rs =
        let c = set_client peer codec (clear_session b.world.client) b in
        let same : S × Pc → Reinit × B → Type 0 =
          λ x y. run_alone 6 (x.0) (x.1) ≡ on_reinit peer codec msg f y in
        ifs_both same (not (b.gen == gen))
          (after_replayed 3 (free b rs) (post_to peer codec msg (write_out peer codec) b))
          (ifs_both same (is_empty b.init_req) refl (
            after_initialized f gen c rs (
              post_to peer codec c.init_req (λ m d. set_version peer codec m c.req_protocol_ver d)
                c)))

    after_failed :
        (b : B) (rs : List ℕ) (gen : ℕ) (f : Failure) (t : Bool)
        → run_alone 8 (free b rs) (if t then failed msg f gen else reporting msg f) ≡ (
            if t && b.sessioned
            then on_reinit peer codec msg f (reinit peer codec gen b)
            else synthesize_error peer codec msg f b)
    unfolding run_alone advance continued unless_locked
    after_failed b rs gen f false = refl
    after_failed b rs gen f true =
        ifs_both (λ p (y : B). run_alone 7 (free b rs) p ≡ y) b.sessioned (after_entered f gen b rs)
          refl

    after_posted :
        (b : B) (rs : List ℕ) (gen : ℕ) (r : Option Failure × B)
        → run_alone 8
            (posted peer codec (free b rs) msg gen r).0
            (posted peer codec (free b rs) msg gen r).1
          ≡ on_posted peer codec gen msg r
    unfolding posted on_posted run_alone advance continued
    after_posted b rs gen (none, c) = refl
    after_posted b rs gen (some f, c) = after_failed c rs gen f (status_of f == 404)

    -- A goroutine that runs `send` with no other in between leaves, after ten steps at most, the bridge
    -- that `send` gives.
    pub run_alone-send :
        (b : B) (rs : List ℕ) → run_alone 10 (free b rs) (start msg) ≡ send peer codec msg b
    unfolding run_alone advance continued unless_locked send
    run_alone-send b rs = after_posted b rs b.gen (post_to peer codec msg (write_out peer codec) b)
