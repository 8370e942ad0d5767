-- ===== src/Oauth/Scopes.antt =====
-- pkg/oauth/discovery.go and flow.go: which scopes are requested, and which were granted.
use mcpurl.Prelude.{
  ◌≡◌, refl, Bool, true, ◌&&◌, ◌||◌, not, List, [], ◌∷◌, ◌++◌, if◌then◌else◌, arith, inl, inr,
  Bool-cases, ◌∙◌,
}
use mcpurl.Prelude.Bytes.{Bytes, codes, equal, equal-cases, is_empty, contains}
use mcpurl.Prelude.Space.{fields}
use mcpurl.Oauth.Challenge.{parse_challenge}

abbrev pub scope_offline : Bytes
scope_offline = codes "offline_access"

-- `withOffline`
unfoldable pub with_offline : List Bytes → List Bytes → List Bytes
with_offline supported scopes =
    if contains scopes scope_offline || not (contains supported scope_offline)
    then scopes
    else scopes ++ (scope_offline ∷ [])

-- `resolveScopes`: the override, what the server supports, the scopes of the protected resource's
-- metadata, whether the document was OIDC's, and the challenge.
unfoldable pub resolve_scopes : List Bytes → List Bytes → List Bytes → Bool → Bytes → List Bytes
unfolding with_offline
resolve_scopes override supported prm from_oidc challenge =
    let asked = (parse_challenge challenge).scope in
    if not (is_empty override)
    then override
    else if not (is_empty asked)
    then with_offline supported (fields asked)
    else if not (is_empty prm)
    then with_offline supported prm
    else if from_oidc
    then with_offline supported (codes "openid" ∷ codes "profile" ∷ [])
    else []

-- `grantedScopes`
unfoldable pub granted_scopes : Bytes → List Bytes → List Bytes
granted_scopes answer requested = if is_empty answer then requested else fields answer

contains-append :
    (xs ys : List Bytes) (s : Bytes) → contains (xs ++ ys) s ≡ (contains xs s || contains ys s)
unfolding contains
contains-append [] ys s = refl
contains-append (x ∷ xs) ys s = ground (arith, contains-append xs ys s)

-- Only `offline_access` is ever added to the scopes that were asked for; it is, exactly where the
-- server supports it, and no scope is lost.
pub contains-with_offline :
    (supported scopes : List Bytes) (s : Bytes)
    → contains (with_offline supported scopes) s
      ≡ (contains scopes s || (equal scope_offline s && contains supported scope_offline))
unfolding with_offline
contains-with_offline supported scopes s = elim (Bool-cases (contains scopes scope_offline)) [
  | inl has ↦ rw has (already has)
  | inr lacks ↦ elim (Bool-cases (contains supported scope_offline)) [
    | inr unsupported ↦ rw (lacks, unsupported) (ground arith)
    | inl offered ↦
        rw (lacks, offered)
          (contains-append scopes (scope_offline ∷ []) s ∙ unfold contains in ground arith)
  ]
]
  where
    already :
        contains scopes scope_offline ≡ true
        → contains scopes s
          ≡ (contains scopes s || (equal scope_offline s && contains supported scope_offline))
    already h = elim (equal-cases scope_offline s) [
      | inl (e, same) ↦ rw (← same, h) refl
      | inr (e, differ) ↦ rw e (ground arith)
    ]
