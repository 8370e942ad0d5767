-- ===== src/App/Profile/Marker.antt =====
-- The "@" that may stand before a profile's name.
use mcpurl.Prelude.{ℕ, ◌≡◌, refl, sym, ap, ◌∙◌, false, ◌∷◌, ◌==◌}
use mcpurl.Prelude.Bytes.{Bytes, trim_first}
use mcpurl.App.Profile.{
  Platform, Profile, Profiles, Checked, ok, wrong, not_a_target, unknown_profile, find_profile,
  found_or, is_http_url, on_stored, get_profile, resolve,
}

trim-marked : (s : Bytes) → trim_first b'@' (b'@' ∷ s) ≡ s
unfolding trim_first
trim-marked s = refl

trim-plain : (c : ℕ) (s : Bytes) → (c == b'@') ≡ false → trim_first b'@' (c ∷ s) ≡ c ∷ s
unfolding trim_first
trim-plain c s other = rw other refl

on_stored-trim :
    (os : Platform) (s t : Bytes) (r : Checked Profile)
    → trim_first b'@' s ≡ trim_first b'@' t
    → on_stored os s r ≡ on_stored os t r
unfolding on_stored
on_stored-trim os s t (wrong e) h = ap (λ n. wrong (not_a_target n)) h
on_stored-trim os s t (ok p) h = refl

-- A target that is not a URL is looked up under its bare name.
resolve-name :
    (os : Platform) (cfg : Profiles) (c : ℕ) (name t : Bytes)
    → is_http_url os t ≡ false
    → trim_first b'@' t ≡ c ∷ name
    → resolve os cfg t
      ≡ on_stored os t (found_or (unknown_profile (c ∷ name)) (find_profile cfg (c ∷ name)))
unfolding resolve get_profile
resolve-name os cfg c name t plain bare = rw (plain, bare) refl

-- The "@" before a profile's name makes no difference, where neither spelling is a URL and the
-- name itself does not begin with one.
pub resolve-marked :
    (os : Platform) (cfg : Profiles) (c : ℕ) (name : Bytes)
    → (c == b'@') ≡ false
    → is_http_url os (b'@' ∷ c ∷ name) ≡ false
    → is_http_url os (c ∷ name) ≡ false
    → resolve os cfg (b'@' ∷ c ∷ name) ≡ resolve os cfg (c ∷ name)
resolve-marked os cfg c name other marked plain =
    let t = b'@' ∷ c ∷ name in
    let bare = trim-plain c name other in
    let cut = trim-marked (c ∷ name) in
    let found = found_or (unknown_profile (c ∷ name)) (find_profile cfg (c ∷ name)) in
    resolve-name os cfg c name t marked cut
    ∙ on_stored-trim os t (c ∷ name) found (cut ∙ sym bare)
    ∙ sym (resolve-name os cfg c name (c ∷ name) plain bare)
