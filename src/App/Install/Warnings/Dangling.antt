-- ===== src/App/Install/Warnings/Dangling.antt =====
-- pkg/app/install.go: the entries that `warnOtherClients` reports.
use mcpurl.Prelude.{
  ◌≡◌, refl, sym, ap, ◌∙◌, subst, ◌↔◌, inl, inr, false, Bool-cases, List, [], ◌∷◌, Option, none,
  some,
}
use mcpurl.Prelude.Bytes.{Bytes, equal, equal-cases}
use mathlib.Core.List.{Memᴰ}
use mathlib.Core.List.Memᴰ
use mcpurl.App.Entries.{Value, Members, lookup, servers, entry_profile}
use mcpurl.App.Install.{Machine, State, Loaded, absent, refused, loaded, load_client_config}
use mcpurl.App.Install.Warnings.{
  known_clients, Warning, still_names, naming, root_of, config_of, of_document, of_path, of_clients,
  warn_other_clients,
}
use mcpurl.App.Install.Warnings.Keys.{keys-lookup, lookup-keys}

module _ (client prof path : Bytes) (ms : Members) where
  mem-naming :
      (k : Bytes) (l : List Bytes)
      → Memᴰ k l
      → entry_profile (lookup k ms) ≡ prof
      → Memᴰ (still_names client k prof path) (naming client prof path ms l)
  unfolding naming
  mem-naming k [] h e = elim h [ ]
  mem-naming k (n ∷ l) h e = elim (equal-cases (entry_profile (lookup n ms)) prof) [
    | inl q ↦ rw q.0 (elim (Memᴰ.cases_cons h) [
      | inl o ↦ Memᴰ.head (ap (λ x. still_names client x prof path) o)
      | inr t ↦ Memᴰ.tail (mem-naming k l t e)
    ])
    | inr q ↦ rw q.0 (elim (Memᴰ.cases_cons h) [
      | inl o ↦ absurd (q.1 (ap (λ x. entry_profile (lookup x ms)) (sym o) ∙ e))
      | inr t ↦ mem-naming k l t e
    ])
  ]

  names :
      (w : Warning) (l : List Bytes)
      → Memᴰ w (naming client prof path ms l)
      → (k : Bytes) × Memᴰ k l
        × (w ≡ still_names client k prof path)
        × (entry_profile (lookup k ms) ≡ prof)
  unfolding naming
  names w [] h = absurd (Memᴰ.not-nil h)
  names w (n ∷ l) h = elim (equal-cases (entry_profile (lookup n ms)) prof) [
    | inl q ↦ elim (Memᴰ.cases_cons (rw q.0 at h)) [
      | inl o ↦ (n, Memᴰ.head refl, o, q.1)
      | inr t ↦ (let r = names w l t in (r.0, Memᴰ.tail r.1, r.2, r.3))
    ]
    | inr q ↦ (let r = names w l (rw q.0 at h) in (r.0, Memᴰ.tail r.1, r.2, r.3))
  ]

-- An entry in the file of a known client other than `skip` that names the profile.
pub data Dangling (m : Machine) (skip prof : Bytes) (s : State) : Warning → Type 0 where
  dangling :
      {client path k original : Bytes} {root : Option Members} {entry : Value}
      → Memᴰ client known_clients
      → equal client skip ≡ false
      → config_of m m.home client ≡ some path
      → load_client_config m path (s.files path) ≡ loaded root original
      → lookup k (servers (root_of root)) ≡ some entry
      → entry_profile (some entry) ≡ prof
      → Dangling m skip prof s (still_names client k prof path)

module _ (m : Machine) (skip prof : Bytes) (s : State) where
  in_document :
      (client path : Bytes) (w : Warning) (d : Loaded m)
      → Memᴰ client known_clients
      → equal client skip ≡ false
      → config_of m m.home client ≡ some path
      → load_client_config m path (s.files path) ≡ d
      → Memᴰ w (of_document m client prof path d)
      → Dangling m skip prof s w
  unfolding of_document
  in_document client path w absent c o p e h = absurd (Memᴰ.not-nil h)
  in_document client path w (refused t) c o p e h = absurd (Memᴰ.not-nil h)
  in_document client path w (loaded root original) c o p e h =
      let (k, n, q, r) = names client prof path (servers (root_of root)) w _ h in
      let (v, l) = lookup-keys k (servers (root_of root)) n in
      subst (Dangling m skip prof s) (sym q) (dangling c o p e l (ap entry_profile (sym l) ∙ r))

  in_file :
      (client : Bytes) (w : Warning) (path : Option Bytes)
      → Memᴰ client known_clients
      → equal client skip ≡ false
      → config_of m m.home client ≡ path
      → Memᴰ w (of_path m client prof s path)
      → Dangling m skip prof s w
  unfolding of_path
  in_file client w none c o p h = absurd (Memᴰ.not-nil h)
  in_file client w (some path) c o p h = in_document client path w _ c o p refl h

  among :
      (w : Warning) (cs : List Bytes)
      → ((c : Bytes) → Memᴰ c cs → Memᴰ c known_clients)
      → Memᴰ w (of_clients m skip prof s cs)
      → Dangling m skip prof s w
  unfolding of_clients
  among w [] i h = absurd (Memᴰ.not-nil h)
  among w (c ∷ cs) i h = elim (Bool-cases (equal c skip)) [
    | inl e ↦ among w cs (λ x t. i x (Memᴰ.tail t)) (rw e at h)
    | inr e ↦ elim (Memᴰ.append_cases (of_path m c prof s (config_of m m.home c)) (rw e at h)) [
      | inl t ↦ in_file c w _ (i c (Memᴰ.head refl)) e refl t
      | inr t ↦ among w cs (λ x t. i x (Memᴰ.tail t)) t
    ]
  ]

  reported :
      (client : Bytes) (w : Warning) (cs : List Bytes)
      → Memᴰ client cs
      → equal client skip ≡ false
      → Memᴰ w (of_path m client prof s (config_of m m.home client))
      → Memᴰ w (of_clients m skip prof s cs)
  unfolding of_clients
  reported client w [] t o h = elim t [ ]
  reported client w (c ∷ cs) (Memᴰ.head q) o h = rw (ap (λ x. equal x skip) (sym q) ∙ o) (
      Memᴰ.append_left (of_clients m skip prof s cs)
        (subst (λ x. Memᴰ w (of_path m x prof s (config_of m m.home x))) q h))
  reported client w (c ∷ cs) (Memᴰ.tail t) o h = Memᴰ.append_right _ (reported client w cs t o h)

  found : (w : Warning) → Dangling m skip prof s w → Memᴰ w (warn_other_clients m skip prof s)
  unfolding warn_other_clients of_path of_document
  found w (dangling {client} {path} {k} {original} {root} {entry} c o p e l r) =
      reported client _ known_clients c o (
        rw p (
          rw e (
            mem-naming client prof path (servers (root_of root)) k _ (keys-lookup k entry _ l)
              (ap entry_profile l ∙ r))))

  -- After an uninstall of a profile, the warnings about the other clients are exactly those for the
  -- entries, in the files of known clients other than the one it was for, that still name the profile;
  -- files that cannot be found, read or parsed count as having none.
  pub warn_other_clients-Dangling :
      (w : Warning) → Memᴰ w (warn_other_clients m skip prof s) ↔ Dangling m skip prof s w
  unfolding warn_other_clients
  warn_other_clients-Dangling w = (among w known_clients (λ c t. t), found w)
