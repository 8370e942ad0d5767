-- ===== src/Mcp/Client/Ladder.antt =====
-- The 401 ladder of `doAuthed`: which tokens are tried, and how often.
use mathlib.Core.List.{append_assoc, append-nil}
use mcpurl.Prelude.{
  ℕ, zero, suc, ◌≤◌, ◌/◌, ◌≡◌, ◌≢◌, refl, sym, ap, ◌∙◌, true, ◌||◌, not, List, [], ◌∷◌, ◌++◌, map,
  Option, none, some, ◌==◌, if◌then◌else◌, arith, inl, inr, Bool-cases,
}
use mcpurl.Prelude.Bytes.{Bytes, equal, equal_iff}
use mcpurl.Prelude.Lists.{length}
use mcpurl.Mcp.Http.{Request, Response}
use mcpurl.Mcp.Client.{
  Grant, granted, denied, Peer, Result, World, ask, send, mark, on_grant, on_response, on_sent,
  on_built, cycle, on_first, do_authed,
}

-- No token comes twice in a row.
abbrev pub Changing : List Bytes → Type 0
Changing [] = Unit
Changing (t ∷ []) = Unit
Changing (t ∷ u ∷ ts) = (t ≢ u) × Changing (u ∷ ts)

module _ (peer : Peer) where
  pub ask-sent : (x c : Bytes) (w : World peer) → (ask peer x c w).1.sent ≡ w.sent
  unfolding ask
  ask-sent x c w = ground arith

  ask-asked :
      (x c : Bytes) (w : World peer)
      → peer.has_provider ≡ true
      → (ask peer x c w).1.asked ≡ w.asked ++ (x ∷ [])
  unfolding ask
  ask-asked x c w h = rw h

module _ (peer : Peer) (req : Bytes → Request) where
  -- From `w` to `v` the tokens `t ∷ later` were tried in this order, `later` no longer than `left`;
  -- the provider was told of each as rejected, but for the last one perhaps.
  pub record Tried (left : ℕ) (t : Bytes) (w v : World peer) : Type 0 where
    pub later : List Bytes
    pub refused : List Bytes
    pub last : List Bytes
    pub sent_is : v.sent ≡ w.sent ++ map req (t ∷ later)
    pub asked_is : v.asked ≡ w.asked ++ map mark refused
    pub splits : refused ++ last ≡ t ∷ later
    pub last_few : length last ≤ 1
    pub few : length later ≤ left
    pub changing : Changing (t ∷ later)

  module _ (t : Bytes) (w : World peer) where
    -- The state behind one exchange.
    abbrev exchanged : World peer
    exchanged = (send peer (req t) w).1

    Tried-stop : (left : ℕ) → Tried left t w exchanged
    unfolding send
    Tried-stop left = record {
      later = [];
      refused = [];
      last = t ∷ [];
      sent_is = refl;
      asked_is = rw append-nil;
      splits = refl;
      last_few = omega arith;
      few = omega arith;
      changing = tt;
    }

    -- The provider is asked, and nothing more is sent.
    Tried-ask :
        (left : ℕ) (c : Bytes)
        → peer.has_provider ≡ true
        → Tried left t w (ask peer (mark t) c exchanged).1
    unfolding send ask
    Tried-ask left c h = rw h (record {
      later = [];
      refused = t ∷ [];
      last = [];
      sent_is = refl;
      asked_is = refl;
      splits = refl;
      last_few = omega arith;
      few = omega arith;
      changing = tt;
    })

    Tried-more :
        (left : ℕ) (c u : Bytes) (v : World peer)
        → peer.has_provider ≡ true
        → ¬ (u ≡ t)
        → Tried left u (ask peer (mark t) c exchanged).1 v
        → Tried (suc left) t w v
    unfolding send
    Tried-more left c u v h ne r = record {
      later = u ∷ r.later;
      refused = t ∷ r.refused;
      last = r.last;
      sent_is =
          r.sent_is ∙ rw (ask-sent peer) (append_assoc w.sent (req t ∷ []) (map req (u ∷ r.later)));
      asked_is =
          r.asked_is
          ∙ rw (ask-asked peer (mark t) c exchanged h)
              (append_assoc w.asked (mark t ∷ []) (map mark r.refused));
      splits = ap (◌∷◌ t) r.splits;
      last_few = r.last_few;
      few = omega (arith, r.few);
      changing = (λ e. ne (sym e), r.changing);
    }

  -- What `on_built` does with the request of token `t`, by what the peer answers.
  module _ (t : Bytes) (w : World peer) where
    abbrev Loop : ℕ → (Bytes → World peer → Result Response × World peer) → Type 0
    Loop left loop = (u : Bytes) (v : World peer) → Tried left u v (loop u v).1

    on_grant-Tried :
        (left : ℕ) (loop : Bytes → World peer → Result Response × World peer) (r : Response)
        (c : Bytes) (g : Grant)
        → Loop left loop
        → peer.has_provider ≡ true
        → Tried (suc left) t w (on_grant peer loop t r g (ask peer (mark t) c (exchanged t w)).1).1
    unfolding on_grant
    on_grant-Tried left loop r c denied go h = Tried-ask t w (suc left) c h
    on_grant-Tried left loop r c (granted u) go h = elim (Bool-cases (equal u t)) [
      | inl e ↦ rw e (Tried-ask t w (suc left) c h)
      | inr e ↦ rw e (Tried-more t w left c u _ h (λ p. ground (arith, equal_iff u t)) (go u _))
    ]

    on_sent-Tried :
        (left : ℕ) (loop : Bytes → World peer → Result Response × World peer) (o : Option Response)
        → Loop left loop
        → Tried (suc left) t w (on_sent peer (some loop) t o (exchanged t w)).1
    unfolding on_sent on_response
    on_sent-Tried left loop none go = Tried-stop t w (suc left)
    on_sent-Tried left loop (some r) go = elim (Bool-cases (r.status / 100 == 2)) [
      | inl fine ↦ rw fine (Tried-stop t w (suc left))
      | inr bad ↦ rw bad (elim (Bool-cases (not (r.status == 401) || not peer.has_provider)) [
        | inl over ↦ rw over (Tried-stop t w (suc left))
        | inr refused ↦ rw refused (on_grant-Tried left loop _ _ _ go (ground arith))
      ])
    ]

    on_sent_last-Tried :
        (o : Option Response) → Tried 0 t w (on_sent peer none t o (exchanged t w)).1
    unfolding on_sent on_response
    on_sent_last-Tried none = Tried-stop t w 0
    on_sent_last-Tried (some r) = elim (Bool-cases (r.status / 100 == 2)) [
      | inl fine ↦ rw fine (Tried-stop t w 0)
      | inr bad ↦ rw bad (elim (Bool-cases (not (r.status == 401) || not peer.has_provider)) [
        | inl over ↦ rw over (Tried-stop t w 0)
        | inr refused ↦ rw refused (Tried-stop t w 0)
      ])
    ]

  cycle-Tried :
      (left : ℕ) (t : Bytes) (w : World peer)
      → Tried left t w (cycle peer left (λ u. some (req u)) t w).1
  unfolding cycle on_built
  cycle-Tried zero t w = on_sent_last-Tried t w (send peer (req t) w).0
  cycle-Tried (suc left) t w =
      on_sent-Tried t w left (cycle peer left (λ u. some (req u))) (send peer (req t) w).0
        (λ u v. cycle-Tried left u v)

  -- What a run of `doAuthed` sends: the requests built from at most five tokens, the next always
  -- another than the one before; and the provider is told of each as rejected, in order, but for
  -- the last one perhaps.
  pub record Ran (w v : World peer) : Type 0 where
    pub tried : List Bytes
    pub refused : List Bytes
    pub last : List Bytes
    pub sent_is : v.sent ≡ w.sent ++ map req tried
    pub asked_is :
        v.asked ≡ (w.asked ++ (if peer.has_provider then [] ∷ [] else [])) ++ map mark refused
    pub splits : refused ++ last ≡ tried
    pub last_few : length last ≤ 1
    pub few : length tried ≤ 5
    pub changing : Changing tried

  on_first-Ran :
      (g : Grant) (w u : World peer)
      → u.sent ≡ w.sent
      → u.asked ≡ w.asked ++ (if peer.has_provider then [] ∷ [] else [])
      → Ran w (on_first peer (λ t. some (req t)) g u).1
  unfolding on_first
  on_first-Ran denied w u e f = record {
    tried = [];
    refused = [];
    last = [];
    sent_is = e ∙ sym (append-nil w.sent);
    asked_is = f ∙ sym (append-nil _);
    splits = refl;
    last_few = omega arith;
    few = omega arith;
    changing = tt;
  }
  on_first-Ran (granted t) w u e f =
      let r = cycle-Tried 4 t u in
      record {
        tried = t ∷ r.later;
        refused = r.refused;
        last = r.last;
        sent_is = rw (← e) r.sent_is;
        asked_is = rw (← f) r.asked_is;
        splits = r.splits;
        last_few = r.last_few;
        few = omega (arith, r.few);
        changing = r.changing;
      }

  ask_first-asked :
      (w : World peer)
      → (ask peer [] [] w).1.asked ≡ w.asked ++ (if peer.has_provider then [] ∷ [] else [])
  unfolding ask
  ask_first-asked w = elim (Bool-cases peer.has_provider) [
    | inl h ↦ rw h refl
    | inr h ↦ rw h (sym (append-nil w.asked))
  ]

  -- Where a request can be built from every token, a run of `doAuthed` sends the requests of at
  -- most five tokens, none of them twice in a row; after its first call the provider is told of
  -- these tokens as rejected, in this order, but for the last one perhaps.
  pub do_authed-Ran : (w : World peer) → Ran w (do_authed peer (λ t. some (req t)) w).1
  unfolding do_authed
  do_authed-Ran w =
      on_first-Ran (ask peer [] [] w).0 w (ask peer [] [] w).1 (ask-sent peer [] [] w)
        (ask_first-asked w)
