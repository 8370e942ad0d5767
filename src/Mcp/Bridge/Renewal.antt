-- ===== src/Mcp/Bridge/Renewal.antt =====
-- Re-initialization of a session.
use mcpurl.Prelude.{
  ℕ, ◌+◌, ◌%◌, ◌^◌, ◌≡◌, ◌≢◌, ◌⊎◌, refl, ap, ◌∙◌, Bool, List, [], ◌∷◌, ==_iff, Option, none, some,
  ◌==◌, arith, inl, inr, Bool-cases, if_both,
}
use mcpurl.Prelude.Bytes.{Bytes, is_empty}
use mcpurl.Mcp.Client.{Peer, Failure, clear_session}
use mcpurl.Mcp.Transport.{post}
use mcpurl.Mcp.Bridge.{
  Codec, Output, Reinit, renewed, Bridge, set_client, set_version, deliver_to, post_to, send_note,
  on_reinitialized, reinit,
}

module _ (peer : Peer) (codec : Codec) where
  abbrev pub B : Type 0
  B = Bridge peer codec

  -- A value of the bridge that a callback leaves alone, it leaves alone over all messages.
  pub deliver_to_keeps :
      {A : Type 0} (f : B → A) (deliver : Bytes → B → B) (ms : List Bytes) (b : B)
      → ((m : Bytes) (c : B) → f (deliver m c) ≡ f c)
      → f (deliver_to peer codec deliver ms b) ≡ f b
  unfolding deliver_to
  deliver_to_keeps f deliver [] b k = refl
  deliver_to_keeps f deliver (m ∷ ms) b k = deliver_to_keeps f deliver ms (deliver m b) k ∙ k m b

  -- The output and the generation, with what else a handshake may not touch.
  abbrev pub Kept : Type 0
  Kept = record {
    out : List Output;
    gen : ℕ;
    init_req : Bytes;
    init_note : Bytes;
    sessioned : Bool;
  }

  abbrev pub kept : B → Kept
  kept b = record {
    out = b.out;
    gen = b.gen;
    init_req = b.init_req;
    init_note = b.init_note;
    sessioned = b.sessioned;
  }

  pub post_to_keeps :
      {A : Type 0} (f : B → A) (payload : Bytes) (deliver : Bytes → B → B) (b : B)
      → ((m : Bytes) (c : B) → f (deliver m c) ≡ f c)
      → f (record b { world = (post peer payload b.world).1 }) ≡ f b
      → f (post_to peer codec payload deliver b).1 ≡ f b
  unfolding post_to
  post_to_keeps f payload deliver b k e =
      deliver_to_keeps f deliver (post peer payload b.world).0.1 _ k ∙ e

  pub set_version-kept : (m v : Bytes) (b : B) → kept (set_version peer codec m v b) ≡ kept b
  unfolding set_version
  set_version-kept m v b = ground arith

  pub send_note-kept : (b : B) → kept (send_note peer codec b) ≡ kept b
  send_note-kept b =
      if_both (λ (c : B). kept c ≡ kept b) (is_empty b.init_note) refl
        (post_to_keeps kept b.init_note (λ m c. c) b (λ m c. refl) refl)

  -- How `reinit` ends, and what it leaves: with another generation than the given one nothing has
  -- happened; otherwise nothing was written, and the generation is counted up if it succeeded.
  abbrev pub Renews : ℕ → B → Reinit × B → Type 0
  Renews g b (r, c) =
      ((b.gen ≢ g) × (r ≡ renewed) × (c ≡ b))
      ⊎ ((b.gen ≡ g) × (r ≡ renewed) × (kept c ≡ record (kept b) { gen = (b.gen + 1) % 2 ^ 64 }))
      ⊎ ((b.gen ≡ g) × (r ≢ renewed) × (kept c ≡ kept b))

  on_reinitialized-Renews :
      (g : ℕ) (b : B) (r : Option Failure × B)
      → b.gen ≡ g
      → kept r.1 ≡ kept b
      → Renews g b (on_reinitialized peer codec r)
  unfolding on_reinitialized
  on_reinitialized-Renews g b (some f, c) e k = inr (inr (e, cc, k))
  on_reinitialized-Renews g b (none, c) e k =
      let up : Kept → Kept = λ x. record x { gen = (x.gen + 1) % 2 ^ 64 } in
      inr (inl (e, refl, ap up (send_note-kept c ∙ k)))

  -- Concurrent 404s: only a caller that saw the current generation re-initializes; the internal
  -- handshake writes nothing to stdout, and only its success counts the generation up.
  pub reinit-Renews : (g : ℕ) (b : B) → Renews g b (reinit peer codec g b)
  unfolding reinit
  reinit-Renews g b = elim (Bool-cases (b.gen == g)) [
    | inr stale ↦ rw stale (inl (λ e. ground arith, refl, refl))
    | inl current ↦ rw current (elim (Bool-cases (is_empty b.init_req)) [
      | inl bare ↦ rw bare (inr (inr ((==_iff b.gen g).0 current, cc, refl)))
      | inr cached ↦ rw cached (
          on_reinitialized-Renews g b
            (post_to peer codec b.init_req (λ m c. set_version peer codec m b.req_protocol_ver c)
              (set_client peer codec (clear_session b.world.client) b))
            ((==_iff b.gen g).0 current)
            (post_to_keeps kept b.init_req _
              (set_client peer codec (clear_session b.world.client) b)
              (λ m c. set_version-kept m b.req_protocol_ver c) refl))
    ])
  ]
