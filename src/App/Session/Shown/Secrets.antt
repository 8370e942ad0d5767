-- ===== src/App/Session/Shown/Secrets.antt =====
-- The values of the headers in the configuration do not show.
use mcpurl.Prelude.{◌≡◌, refl, ap, ◌∙◌, List, [], ◌∷◌, Option, none, some, inl, inr, Bool-cases}
use mcpurl.Prelude.Bytes.{Bytes, equal, is_empty, trim_first}
use mcpurl.Oauth.Login.{Browser}
use mcpurl.Oauth.Types.{Registration}
use mcpurl.Oauth.Flow.Monad.{Outside}
use mcpurl.App.Profile.{
  Profile, Profiles, Problem, Checked, ok, wrong, unknown_profile, found_or, find_profile,
  get_profile, resolve, on_stored, is_http_url,
}
use mcpurl.App.Install.{Machine}
use mcpurl.App.Session.{flow_for}
use mcpurl.App.Session.Names.{sorted_keys, inserted}
use mcpurl.App.Session.Shown.{
  list_lines, listed_url, client_line, other_lines, shown, show, rendered, claude_config,
}

-- Headers without their values.
abbrev pub without_values : List (Bytes × Bytes) → List (Bytes × Bytes)
without_values [] = []
without_values ((k, v) ∷ h) = (k, []) ∷ without_values h

abbrev pub cleared : Profile → Profile
cleared p = record p { headers = without_values p.headers }

abbrev pub cleared_all : Profiles → Profiles
cleared_all [] = []
cleared_all ((n, p) ∷ ps) = (n, cleared p) ∷ cleared_all ps

abbrev cleared_if : Option Profile → Option Profile
cleared_if none = none
cleared_if (some p) = some (cleared p)

abbrev cleared_ok : Checked Profile → Checked Profile
cleared_ok (wrong e) = wrong e
cleared_ok (ok p) = ok (cleared p)

find-cleared_all :
    (cfg : Profiles) (n : Bytes)
    → find_profile (cleared_all cfg) n ≡ cleared_if (find_profile cfg n)
unfolding find_profile
find-cleared_all [] n = refl
find-cleared_all ((k, p) ∷ ps) n = elim (Bool-cases (equal k n)) [
  | inl e ↦ rw e refl
  | inr e ↦ rw e (find-cleared_all ps n)
]

sorted-without_values : (h : List (Bytes × Bytes)) → sorted_keys (without_values h) ≡ sorted_keys h
unfolding sorted_keys
sorted-without_values [] = refl
sorted-without_values ((k, v) ∷ h) = ap (inserted k) (sorted-without_values h)

sorted-cleared_all : (cfg : Profiles) → sorted_keys (cleared_all cfg) ≡ sorted_keys cfg
unfolding sorted_keys
sorted-cleared_all [] = refl
sorted-cleared_all ((n, p) ∷ ps) = ap (inserted n) (sorted-cleared_all ps)

empty-without_values : (h : List (Bytes × Bytes)) → is_empty (without_values h) ≡ is_empty h
empty-without_values [] = refl
empty-without_values ((k, v) ∷ h) = refl

empty-cleared_all : (cfg : Profiles) → is_empty (cleared_all cfg) ≡ is_empty cfg
empty-cleared_all [] = refl
empty-cleared_all ((n, p) ∷ ps) = refl

found_or-cleared :
    (e : Problem) (p : Option Profile) → found_or e (cleared_if p) ≡ cleared_ok (found_or e p)
unfolding found_or
found_or-cleared e none = refl
found_or-cleared e (some p) = refl

get-cleared_all :
    (cfg : Profiles) (n : Bytes) → get_profile (cleared_all cfg) n ≡ cleared_ok (get_profile cfg n)
unfolding get_profile
get-cleared_all cfg n =
    ap (found_or (unknown_profile (trim_first b'@' n))) (find-cleared_all cfg (trim_first b'@' n))
    ∙ found_or-cleared (unknown_profile (trim_first b'@' n)) (find_profile cfg (trim_first b'@' n))

module _ (m : Machine) (b : Browser) (digest : Bytes → Bytes) where
  listed_url-cleared :
      (p : Option Profile) → listed_url m b digest (cleared_if p) ≡ listed_url m b digest p
  unfolding listed_url
  listed_url-cleared none = refl
  listed_url-cleared (some p) = refl

  list_lines-cleared :
      (cfg : Profiles) (ns : List Bytes)
      → list_lines m b digest (cleared_all cfg) ns ≡ list_lines m b digest cfg ns
  unfolding list_lines
  list_lines-cleared cfg [] = refl
  list_lines-cleared cfg (n ∷ ns) =
      rw
        (find-cleared_all cfg n, listed_url-cleared (find_profile cfg n), list_lines-cleared cfg ns)
        refl

  module _ (o : Outside) (date_of : Registration → Bytes) where
    other_lines-cleared :
        (p : Profile)
        → other_lines m b digest o date_of (cleared p) ≡ other_lines m b digest o date_of p
    unfolding other_lines
    other_lines-cleared p =
        rw (empty-without_values p.headers, sorted-without_values p.headers) refl

    shown-cleared :
        (s : o.State) (r : Checked Profile)
        → shown m b digest o date_of s (cleared_ok r) ≡ shown m b digest o date_of s r
    unfolding shown client_line flow_for
    shown-cleared s (wrong e) = refl
    shown-cleared s (ok p) = rw (other_lines-cleared p) refl

    show-cleared :
        (cfg : Profiles) (name : Bytes) (s : o.State)
        → show m b digest o date_of (cleared_all cfg) name s ≡ show m b digest o date_of cfg name s
    unfolding show
    show-cleared cfg name s =
        rw
          (
            empty-cleared_all cfg,
            sorted-cleared_all cfg,
            list_lines-cleared cfg (sorted_keys cfg),
            get-cleared_all cfg name,
            shown-cleared s (get_profile cfg name),
          )
          refl

  on_stored-cleared :
      (target : Bytes) (r : Checked Profile)
      → on_stored m.platform target (cleared_ok r) ≡ cleared_ok (on_stored m.platform target r)
  unfolding on_stored
  on_stored-cleared target (wrong e) = refl
  on_stored-cleared target (ok p) = elim (Bool-cases (is_empty p.url)) [
    | inl e ↦ rw e refl
    | inr e ↦ rw e refl
  ]

  resolve-cleared :
      (cfg : Profiles) (target : Bytes)
      → resolve m.platform (cleared_all cfg) target ≡ cleared_ok (resolve m.platform cfg target)
  unfolding resolve
  resolve-cleared cfg target = elim (Bool-cases (is_http_url m.platform target)) [
    | inl url ↦ rw url refl
    | inr name ↦ rw name (elim (Bool-cases (is_empty (trim_first b'@' target))) [
      | inl e ↦ rw e refl
      | inr e ↦ rw e (
          ap (on_stored m.platform target) (get-cleared_all cfg target)
          ∙ on_stored-cleared target (get_profile cfg target))
    ])
  ]

  rendered-cleared :
      (target name : Bytes) (r : Checked Profile)
      → rendered m b digest target name (cleared_ok r) ≡ rendered m b digest target name r
  unfolding rendered
  rendered-cleared target name (wrong e) = refl
  rendered-cleared target name (ok p) = refl

  claude_config-cleared :
      (cfg : Profiles) (target name : Bytes)
      → claude_config m b digest (cleared_all cfg) target name
        ≡ claude_config m b digest cfg target name
  unfolding claude_config
  claude_config-cleared cfg target name =
      ap (rendered m b digest target name) (resolve-cleared cfg target)
      ∙ rendered-cleared target name (resolve m.platform cfg target)

  -- What `show` and `claude-config` print, errors included, does not depend on the values of the
  -- headers in the configuration: it stays the same when all of them are cleared.
  pub show-claude_config-cleared :
      (o : Outside) (date_of : Registration → Bytes) (cfg : Profiles) (name : Bytes) (s : o.State)
      (target label : Bytes)
      → (show m b digest o date_of (cleared_all cfg) name s ≡ show m b digest o date_of cfg name s)
        × (claude_config m b digest (cleared_all cfg) target label
            ≡ claude_config m b digest cfg target label)
  show-claude_config-cleared o date_of cfg name s target label =
      (show-cleared o date_of cfg name s, claude_config-cleared cfg target label)
