-- ===== src/Mcp/Threads/Turns.antt =====
-- What one step of a goroutine does to the generation and to the lock.
use mcpurl.Prelude.{
  ℕ, ◌≡◌, ◌≤◌, refl, sym, ap, Bool, true, false, Option, none, some, ◌==◌, ==_iff, if◌then◌else◌,
  arith, inl, inr, Bool-cases, if_both,
}
use mcpurl.Prelude.Bytes.{Bytes, is_empty}
use mcpurl.Mcp.Client.{
  Peer, Failure, auth, http, bad_request, transport, stream_broken, invalid_json, no_stream,
  session_expired,
}
use mcpurl.Mcp.Transport.{Outcome, W, listen_once}
use mcpurl.Mcp.Bridge.{Codec, set_version, write_out, synthesize_error, post_to, status_of}
use mcpurl.Mcp.Bridge.Renewal.{
  B, deliver_to_keeps, post_to_keeps, set_version-kept, send_note-kept, Kept,
}
use mcpurl.Mcp.Threads.{
  Job, sending, given_up, resumed, listening, streaming, after_stream, listened, Pc, start, posting,
  failed, waiting, initializing, noting, replaying, reporting, finished, posted, replayed, entered,
  initialized, noted, unless_locked, advance,
}
use mcpurl.Mcp.Threads.Locks.{
  holds, Agrees, Agrees-free, given_up-free, resumed-free, S, lock_of, Moved, Sound,
}

module _ (peer : Peer) (codec : Codec) where
  gate :
      (P : Option (S peer codec × Pc) → Type 0) (b : Bool) (r : S peer codec × Pc)
      → P none
      → (b ≡ false → P (some r))
      → P (if b then none else some r)
  gate P true r n f = n
  gate P false r n f = f refl

  unless_locked-Sound :
      (s : S peer codec) (p : Pc) (t : S peer codec) (q : Pc)
      → (s.locked ≡ false → Moved peer codec s p t q)
      → Sound peer codec s p (unless_locked peer codec s (t, q))
  unfolding unless_locked
  unless_locked-Sound s p t q h = gate (Sound peer codec s p) s.locked (t, q) tt h

  synthesize_error-gen :
      (msg : Bytes) (f : Failure) (b : B peer codec)
      → (synthesize_error peer codec msg f b).gen ≡ b.gen
  unfolding synthesize_error
  synthesize_error-gen msg f b = ground arith

  post-gen :
      (msg : Bytes) (b : B peer codec)
      → (post_to peer codec msg (write_out peer codec) b).1.gen ≡ b.gen
  post-gen msg b =
      post_to_keeps peer codec (λ (c : B peer codec). c.gen) msg (write_out peer codec) b
        (λ m c. refl) refl

  init-gen :
      (msg v : Bytes) (b : B peer codec)
      → (post_to peer codec msg (λ m c. set_version peer codec m v c) b).1.gen ≡ b.gen
  init-gen msg v b =
      post_to_keeps peer codec (λ (c : B peer codec). c.gen) msg
        (λ m c. set_version peer codec m v c) b
        (λ m c. ap (λ (k : Kept peer codec). k.gen) (set_version-kept peer codec m v c)) refl

  posted-Moved :
      (s : S peer codec) (msg : Bytes) (gen : ℕ) (r : Option Failure × B peer codec)
      → r.1.gen ≡ s.bridge.gen
      → Moved peer codec s
          (posting msg gen)
          (posted peer codec s msg gen r).0
          (posted peer codec s msg gen r).1
  unfolding posted
  posted-Moved s msg gen (none, b) e = inl (e, refl, omega arith, tt)
  posted-Moved s msg gen (some f, b) e = elim (Bool-cases (status_of f == 404)) [
    | inl gone ↦ rw gone (inl (e, refl, omega arith, tt))
    | inr other ↦ rw other (inl (e, refl, omega arith, tt))
  ]

  replayed-Moved :
      (s : S peer codec) (msg : Bytes) (r : Option Failure × B peer codec)
      → r.1.gen ≡ s.bridge.gen
      → Moved peer codec s
          (replaying msg)
          (replayed peer codec s msg r).0
          (replayed peer codec s msg r).1
  unfolding replayed
  replayed-Moved s msg (none, b) e = inl (e, refl, omega arith, tt)
  replayed-Moved s msg (some f, b) e = inl (e, refl, omega arith, tt)

  entered-Moved :
      (s : S peer codec) (job : Job) (gen : ℕ)
      → s.locked ≡ false
      → Moved peer codec s
          (waiting job gen)
          (entered peer codec s job gen).0
          (entered peer codec s job gen).1
  unfolding entered
  entered-Moved s job gen free = elim (Bool-cases (s.bridge.gen == gen)) [
    | inr stale ↦ rw stale (
        inl (
          refl,
          refl,
          omega (arith, resumed-free job),
          Agrees-free s.bridge.gen (resumed job) (resumed-free job),
        ))
    | inl current ↦ rw current (elim (Bool-cases (is_empty s.bridge.init_req)) [
      | inl bare ↦ rw bare (
          inl (
            refl,
            refl,
            omega (arith, given_up-free job),
            Agrees-free s.bridge.gen (given_up job) (given_up-free job),
          ))
      | inr cached ↦
          rw cached
            (inl (refl, refl, rw free (omega arith), sym ((==_iff s.bridge.gen gen).0 current)))
    ])
  ]

  initialized-Moved :
      (s : S peer codec) (job : Job) (gen : ℕ) (r : Option Failure × B peer codec)
      → r.1.gen ≡ s.bridge.gen
      → gen ≡ s.bridge.gen
      → s.locked ≡ true
      → Moved peer codec s
          (initializing job gen)
          (initialized peer codec s job gen r).0
          (initialized peer codec s job gen r).1
  unfolding initialized
  initialized-Moved s job gen (none, b) e h held = inl (e, refl, omega arith, h)
  initialized-Moved s job gen (some g, b) e h held = inl (
    e,
    refl,
    rw held (omega (arith, given_up-free job)),
    Agrees-free s.bridge.gen (given_up job) (given_up-free job),
  )

  after_stream-free : (f : Option Failure) (gen : ℕ) → holds (after_stream peer codec f gen) ≡ 0
  unfolding after_stream
  after_stream-free none gen = refl
  after_stream-free (some no_stream) gen = refl
  after_stream-free (some session_expired) gen = refl
  after_stream-free (some bad_request) gen = refl
  after_stream-free (some transport) gen = refl
  after_stream-free (some stream_broken) gen = refl
  after_stream-free (some invalid_json) gen = refl
  after_stream-free (some (auth e)) gen = refl
  after_stream-free (some (http e)) gen = refl

  listened-Moved :
      (s : S peer codec) (gen : ℕ) (r : Outcome × W peer)
      → Moved peer codec s
          (streaming gen)
          (listened peer codec s gen r).0
          (listened peer codec s gen r).1
  unfolding listened
  listened-Moved s gen ((f, ms), w) =
      let q = after_stream peer codec f gen in
      let free = after_stream-free f gen in
      inl (
        deliver_to_keeps peer codec (λ (c : B peer codec). c.gen) (write_out peer codec) ms
            (record (s.bridge) { world = w }) (λ m c. refl),
        refl,
        omega (arith, free),
        Agrees-free s.bridge.gen q free,
      )

  held : (b : Bool) → 1 ≤ lock_of peer codec b → b ≡ true
  held true h = refl
  held false h = absurd (omega arith)

  pub advance-Sound :
      (s : S peer codec) (p : Pc)
      → Agrees s.bridge.gen p
      → holds p ≤ lock_of peer codec s.locked
      → Sound peer codec s p (advance peer codec s p)
  unfolding advance noted
  advance-Sound s (start msg) a h =
      unless_locked-Sound s (start msg) s (posting msg s.bridge.gen)
        λ free. inl (refl, refl, omega arith, tt)
  advance-Sound s (posting msg gen) a h = posted-Moved s msg gen _ (post-gen msg s.bridge)
  advance-Sound s (failed msg f gen) a h =
      if_both (λ q. Sound peer codec s (failed msg f gen) (unless_locked peer codec s (s, q)))
        s.bridge.sessioned
        (unless_locked-Sound s (failed msg f gen) s (waiting (sending msg f) gen)
          λ free. inl (refl, refl, omega arith, tt))
        (unless_locked-Sound s (failed msg f gen) s (reporting msg f)
          λ free. inl (refl, refl, omega arith, tt))
  advance-Sound s (waiting job gen) a h =
      unless_locked-Sound s (waiting job gen) (entered peer codec s job gen).0
        (entered peer codec s job gen).1 λ free. entered-Moved s job gen free
  advance-Sound s (initializing job gen) a h =
      initialized-Moved s job gen _ (init-gen s.bridge.init_req s.bridge.req_protocol_ver s.bridge)
        a (held s.locked h)
  advance-Sound s (noting job gen) a h =
      let e = ap (λ (k : Kept peer codec). k.gen) (send_note-kept peer codec s.bridge) in
      inr (rw e refl, rw a refl, refl, refl, resumed-free job)
  advance-Sound s listening a h =
      unless_locked-Sound s listening s (streaming s.bridge.gen)
        λ free. inl (refl, refl, omega arith, tt)
  advance-Sound s (streaming gen) a h = listened-Moved s gen (listen_once peer s.bridge.world)
  advance-Sound s (replaying msg) a h = replayed-Moved s msg _ (post-gen msg s.bridge)
  advance-Sound s (reporting msg f) a h =
      inl (synthesize_error-gen msg f s.bridge, refl, omega arith, tt)
  advance-Sound s finished a h = tt
