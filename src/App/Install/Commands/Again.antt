-- ===== src/App/Install/Commands/Again.antt =====
-- An install that is run again.
use mcpurl.Prelude.{
  ℕ, ◌≡◌, refl, sym, true, false, List, [], ◌∷◌, Option, none, some, inl, inr, Bool-cases, arith,
  ==_iff, subst,
}
use mcpurl.Prelude.Bytes.{Bytes, equal, equal_self, equal_iff}
use mcpurl.App.Profile.{Profile, Profiles, find_profile, overlay, overlay_port}
use mcpurl.App.Install.{
  Machine, State, Result, set_profile, merge_profile, same_list, same_profile, and_then,
}
use mcpurl.App.Install.Block.{profile_toml}
use mcpurl.App.Install.Commands.{keep_profile, save_block, save_profile, ensured, ensure_profile}

find-set_profile :
    (name : Bytes) (p : Profile) (ps : Profiles)
    → find_profile (set_profile name p ps) name ≡ some p
unfolding find_profile set_profile
find-set_profile name p [] = rw (equal_self name) refl
find-set_profile name p ((n, q) ∷ ps) = elim (Bool-cases (equal n name)) [
  | inl same ↦ rw (same, same) refl
  | inr apart ↦ rw (apart, apart) (find-set_profile name p ps)
]

same_list_self : (l : List Bytes) → same_list l l ≡ true
unfolding same_list
same_list_self [] = refl
same_list_self (s ∷ l) = rw (equal_self s, same_list_self l) refl

overlay_twice : {A : Type 0} (f o : List A) → overlay f (overlay f o) ≡ overlay f o
overlay_twice [] o = refl
overlay_twice (x ∷ f) o = refl

overlay_self : {A : Type 0} (f : List A) → overlay f f ≡ f
overlay_self [] = refl
overlay_self (x ∷ f) = refl

overlay_port_twice : (f o : ℕ) → overlay_port f (overlay_port f o) ≡ overlay_port f o
overlay_port_twice f o = ground arith

overlay_port_self : (f : ℕ) → overlay_port f f ≡ f
overlay_port_self f = ground arith

same_list_of : (l k : List Bytes) → l ≡ k → same_list l k ≡ true
same_list_of l k e = subst (λ t. same_list l t ≡ true) e (same_list_self l)

same_fields :
    (a b : Profile)
    → a.url ≡ b.url
    → a.client_id ≡ b.client_id
    → a.callback_port ≡ b.callback_port
    → a.issuer ≡ b.issuer
    → a.bearer_env ≡ b.bearer_env
    → a.scopes ≡ b.scopes
    → same_profile a b ≡ true
unfolding same_profile
same_fields a b u c p i e s =
    rw
      (
        (equal_iff a.url b.url).1 u,
        (equal_iff a.client_id b.client_id).1 c,
        (==_iff a.callback_port b.callback_port).1 p,
        (equal_iff a.issuer b.issuer).1 i,
        (equal_iff a.bearer_env b.bearer_env).1 e,
        same_list_of a.scopes b.scopes s,
      )
      refl

-- A profile that has what an install would give it.
abbrev Settles : Profile → Profile → Type 0
Settles fresh p = same_profile p (merge_profile p fresh) ≡ true

merged-Settles :
    (name : Bytes) (old fresh : Profile)
    → Settles fresh (record (merge_profile old fresh) { name = name })
unfolding merge_profile
merged-Settles name old fresh =
    let p : Profile = record (merge_profile old fresh) { name = name } in
    same_fields p (merge_profile p fresh) refl (sym (overlay_twice fresh.client_id old.client_id))
      (sym (overlay_port_twice fresh.callback_port old.callback_port))
      (sym (overlay_twice fresh.issuer old.issuer))
      (sym (overlay_twice fresh.bearer_env old.bearer_env))
      (sym (overlay_twice fresh.scopes old.scopes))

fresh-Settles : (name : Bytes) (fresh : Profile) → Settles fresh (record fresh { name = name })
unfolding merge_profile
fresh-Settles name fresh =
    let p : Profile = record fresh { name = name } in
    same_fields p (merge_profile p fresh) refl (sym (overlay_self fresh.client_id))
      (sym (overlay_port_self fresh.callback_port)) (sym (overlay_self fresh.issuer))
      (sym (overlay_self fresh.bearer_env)) (sym (overlay_self fresh.scopes))

module _ (m : Machine) where
  -- Once it has succeeded, the same call changes nothing.
  abbrev IsSettled : Bytes → Profile → Result → Type 0
  IsSettled name fresh r = r.0 ≡ none → ensure_profile m false name fresh r.1 ≡ (none, r.1)

  module _ (name : Bytes) (fresh : Profile) where
    stored-IsSettled :
        (p : Profile) (s : State)
        → Settles fresh p
        → find_profile s.profiles name ≡ some p
        → ensure_profile m false name fresh s ≡ (none, s)
    unfolding ensure_profile ensured
    stored-IsSettled p s h e = rw (e, h) refl

    kept-IsSettled :
        (p : Profile) (r : Result)
        → Settles fresh p
        → IsSettled name fresh (and_then m r (keep_profile m name p))
    unfolding and_then
    kept-IsSettled p (some e, s) h = λ k. absurd (ground (arith, k))
    kept-IsSettled p (none, s) h = λ k.
        stored-IsSettled p (record s { profiles = set_profile name p s.profiles }) h
          (find-set_profile name p s.profiles)

    ensured-IsSettled :
        (s : State) (o : Option Profile)
        → find_profile s.profiles name ≡ o
        → IsSettled name fresh (ensured m false name fresh s o)
    unfolding ensured save_profile
    ensured-IsSettled s none e =
        let p : Profile = record fresh { name = name } in
        kept-IsSettled p (save_block m name false (profile_toml m name p) s)
          (fresh-Settles name fresh)
    ensured-IsSettled s (some old) e =
        let p : Profile = record (merge_profile old fresh) { name = name } in
        elim (Bool-cases (same_profile old (merge_profile old fresh))) [
          | inl same ↦ rw same (λ k. stored-IsSettled old s same e)
          | inr changed ↦ rw changed (
              kept-IsSettled p (save_block m name true (profile_toml m name p) s)
                (merged-Settles name old fresh))
        ]

    -- Where ensureProfile has succeeded, the same call on what it leaves succeeds and changes
    -- nothing.
    pub ensure_profile-again :
        (s : State)
        → (ensure_profile m false name fresh s).0 ≡ none
        → ensure_profile m false name fresh (ensure_profile m false name fresh s).1
          ≡ (none, (ensure_profile m false name fresh s).1)
    unfolding ensure_profile
    ensure_profile-again s h = ensured-IsSettled s (find_profile s.profiles name) refl h
