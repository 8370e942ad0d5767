-- ===== src/Oauth/Stores/RoundTrip.antt =====
-- A token that a store has saved is the one that it loads.
use mcpurl.Prelude.{
  ℕ, ◌≡◌, refl, ap, ◌∙◌, Bool, true, false, not, ◌||◌, [], ◌∷◌, ◌++◌, Option, none, some, ltb, inl,
  inr, if◌then◌else◌, Bool-cases, arith, subst,
}
use mcpurl.Prelude.Bytes.{Bytes, equal_self}
use mcpurl.Prelude.Lists.{length, take, length-append}
use mcpurl.Oauth.Types.{Token}
use mcpurl.Oauth.Flow.Monad.{found}
use mcpurl.Oauth.Stores.{
  Vault, Disk, placed, without_first, is_key, nonce_size, write_file_atomic, decoded, read_with,
  plain_name, sealed_name, file_load, write_encoded, file_save, Master, missing, lost, key_is,
  from_item, minted, on_item, master_key, with_nonce, encrypt, decrypt, opened, unlocked,
  keychain_load, seal_with, keychain_save,
}

-- Decoding JSON undoes encoding the token at hand.
abbrev pub Decodes : Vault → Token → Type 0
Decodes v t = (c : Bytes) → v.encode t ≡ some c → v.decode c ≡ some t

-- What the libraries are documented to do: each decoder undoes its encoder, for JSON on the token at
-- hand, and random bytes are as many as were asked for.
pub record IsFaithful (v : Vault) (t : Token) : Type 0 where
  pub decodes : Decodes v t
  pub texts : (k : Bytes) → v.from_text (v.to_text k) ≡ some k
  pub opens : (k n p : Bytes) → v.gcm_open k n (v.gcm_seal k n p) ≡ some p
  pub sized : (n : ℕ) (r : Bytes) → v.random n ≡ some r → length r ≡ n

take-prefix : (xs ys : Bytes) → take (length xs) (xs ++ ys) ≡ xs
take-prefix [] ys = refl
take-prefix (x ∷ xs) ys = ap (◌∷◌ x) (take-prefix xs ys)

without_first-prefix : (xs ys : Bytes) → without_first (length xs) (xs ++ ys) ≡ ys
unfolding without_first
without_first-prefix [] ys = refl
without_first-prefix (x ∷ xs) ys = without_first-prefix xs ys

module _ (v : Vault) (t : Token) where
  -- A write that succeeds leaves a file with that content.
  record Wrote (name content : Bytes) (s : Disk) (r : Bool × Disk) : Type 0 where
    file : r.1.files (v.join v.dir name) ≡ some content
    item : r.1.item ≡ s.item

  write-Wrote :
      (name content : Bytes) (s : Disk)
      → (write_file_atomic v name content s).0 ≡ true
      → Wrote name content s (write_file_atomic v name content s)
  unfolding write_file_atomic placed
  write-Wrote name content s = elim (Bool-cases (v.can_write (v.join v.dir name))) [
    | inl fine ↦
        rw fine (λ h. record { file = rw (equal_self (v.join v.dir name)) refl; item = refl })
    | inr bad ↦ rw bad (λ h. absurd (ground (arith, h)))
  ]

  -- The file may be read.
  abbrev pub Readable : Bytes → Type 0
  Readable name = v.can_read (v.join v.dir name) ≡ true

  encoded-Loads :
      (key : Bytes) (s : Disk) (c : Option Bytes)
      → Decodes v t
      → Readable (plain_name v key)
      → v.encode t ≡ c
      → (write_encoded v (plain_name v key) c s).0 ≡ true
      → file_load v key (write_encoded v (plain_name v key) c s).1 ≡ found t
  unfolding write_encoded file_load read_with decoded
  encoded-Loads key s none undone may e h = absurd (ground (arith, h))
  encoded-Loads key s (some c) undone may e h =
      let w = write-Wrote (plain_name v key) c s h in rw (w.file, may, undone c e) refl

  -- A token that the file store has saved is the one that it loads, where its file may be read and
  -- decoding JSON undoes encoding the token.
  pub file_load-save :
      (key : Bytes) (s : Disk)
      → Decodes v t
      → Readable (plain_name v key)
      → (file_save v key t s).0 ≡ true
      → file_load v key (file_save v key t s).1 ≡ found t
  unfolding file_save
  file_load-save key s undone may h = encoded-Loads key s (v.encode t) undone may refl h

module _ (v : Vault) (t : Token) (faithful : IsFaithful v t) where
  -- The key that was given is found again.
  abbrev Ready : Master → Disk → Type 0
  Ready (key_is k) s = (master_key v false s).0 ≡ key_is k
  Ready m s = Unit {0}

  found-Ready :
      (s : Disk) (text : Bytes) (k : Option Bytes)
      → v.available ≡ true
      → s.item ≡ some text
      → v.from_text text ≡ k
      → Ready (from_item v k) s
  unfolding from_item master_key on_item
  found-Ready s text none a e f = tt
  found-Ready s text (some k) a e f = rw (a, e, f) refl

  minted-Ready :
      (s : Disk) (k : Option Bytes) → v.available ≡ true → Ready (minted v k s).0 (minted v k s).1
  unfolding minted master_key on_item from_item
  minted-Ready s none a = tt
  minted-Ready s (some k) a = elim (Bool-cases v.keeps_key) [
    | inl fine ↦ rw fine (rw (a, faithful.texts k) refl)
    | inr bad ↦ rw bad tt
  ]

  on_item-Ready :
      (s : Disk) (i : Option Bytes)
      → v.available ≡ true
      → s.item ≡ i
      → Ready (on_item v true s i).0 (on_item v true s i).1
  unfolding on_item
  on_item-Ready s (some text) a e = found-Ready s text (v.from_text text) a e refl
  on_item-Ready s none a e = minted-Ready s (v.random 32) a

  master_key-Ready : (s : Disk) → Ready (master_key v true s).0 (master_key v true s).1
  unfolding master_key
  master_key-Ready s = elim (Bool-cases v.available) [
    | inl fine ↦ rw fine (on_item-Ready s s.item fine refl)
    | inr bad ↦ rw bad tt
  ]

  decrypt-parts :
      (k sealed nonce c : Bytes)
      → is_key k ≡ true
      → ltb (length sealed) nonce_size ≡ false
      → take nonce_size sealed ≡ nonce
      → without_first nonce_size sealed ≡ c
      → decrypt v k sealed ≡ v.gcm_open k nonce c
  unfolding decrypt
  decrypt-parts k sealed nonce c fits long front back =
      if_opened (is_key k) (ltb (length sealed) nonce_size) fits long
      ∙ ap (λ n. v.gcm_open k n (without_first nonce_size sealed)) front
      ∙ ap (v.gcm_open k nonce) back
    where
      if_opened :
          {x : Option Bytes} (a b : Bool)
          → a ≡ true
          → b ≡ false
          → (if not a || b then none else x) ≡ x
      if_opened true false e f = refl
      if_opened true true e f = absurd (ground (arith, f))
      if_opened false b e f = absurd (ground (arith, e))

  on_item-same : (s u : Disk) (i : Option Bytes) → (on_item v false s i).0 ≡ (on_item v false u i).0
  unfolding on_item
  on_item-same s u none = refl
  on_item-same s u (some text) = refl

  -- The files do not matter to the key.
  master_key-item :
      (s u : Disk) → u.item ≡ s.item → (master_key v false u).0 ≡ (master_key v false s).0
  unfolding master_key
  master_key-item s u e = elim (Bool-cases v.available) [
    | inl fine ↦ rw fine (ap (λ i. (on_item v false u i).0) e ∙ on_item-same u s s.item)
    | inr bad ↦ rw bad refl
  ]

  -- What is sealed with a fresh nonce is opened again.
  decrypt-sealed :
      (k plain nonce : Bytes)
      → is_key k ≡ true
      → v.random nonce_size ≡ some nonce
      → decrypt v k (nonce ++ v.gcm_seal k nonce plain) ≡ some plain
  unfolding decrypt
  decrypt-sealed k plain nonce fits r =
      let c = v.gcm_seal k nonce plain in
      let sealed = nonce ++ c in
      let sized = faithful.sized nonce_size nonce r in
      let long : ltb (length sealed) nonce_size ≡ false =
        ground (arith, length-append nonce c, sized) in
      decrypt-parts k sealed nonce c fits long
        (subst (λ n. take n sealed ≡ nonce) sized (take-prefix nonce c))
        (subst (λ n. without_first n sealed ≡ c) sized (without_first-prefix nonce c))
      ∙ faithful.opens k nonce plain

  with_nonce-Loads :
      (key : Bytes) (s : Disk) (k plain : Bytes) (nonce : Option Bytes)
      → Readable v t (sealed_name v key)
      → v.encode t ≡ some plain
      → is_key k ≡ true
      → Ready (key_is k) s
      → v.random nonce_size ≡ nonce
      → (write_encoded v (sealed_name v key) (with_nonce v k plain nonce) s).0 ≡ true
      → keychain_load v key (write_encoded v (sealed_name v key) (with_nonce v k plain nonce) s).1
        ≡ found t
  unfolding write_encoded with_nonce keychain_load read_with unlocked opened decoded
  with_nonce-Loads key s k plain none may e fits ready r h = absurd (ground (arith, h))
  with_nonce-Loads key s k plain (some nonce) may e fits ready r h =
      let w = write-Wrote v t (sealed_name v key) (nonce ++ v.gcm_seal k nonce plain) s h in
      let after =
        (write_file_atomic v (sealed_name v key) (nonce ++ v.gcm_seal k nonce plain) s).1 in
      let same = master_key-item s after w.item ∙ ready in
      rw (w.file, may, same, decrypt-sealed k plain nonce fits r, faithful.decodes plain e) refl

  encrypted-Loads :
      (key : Bytes) (s : Disk) (k plain : Bytes)
      → Readable v t (sealed_name v key)
      → v.encode t ≡ some plain
      → Ready (key_is k) s
      → (write_encoded v (sealed_name v key) (encrypt v k plain) s).0 ≡ true
      → keychain_load v key (write_encoded v (sealed_name v key) (encrypt v k plain) s).1 ≡ found t
  unfolding encrypt write_encoded
  encrypted-Loads key s k plain may e ready = elim (Bool-cases (is_key k)) [
    | inl fits ↦
        rw fits (with_nonce-Loads key s k plain (v.random nonce_size) may e fits ready refl)
    | inr bad ↦ rw bad (λ h. absurd (ground (arith, h)))
  ]

  seal_with-Loads :
      (key : Bytes) (plain : Option Bytes) (m : Master) (s : Disk)
      → Readable v t (sealed_name v key)
      → v.encode t ≡ plain
      → Ready m s
      → (seal_with v (sealed_name v key) plain (m, s)).0 ≡ true
      → keychain_load v key (seal_with v (sealed_name v key) plain (m, s)).1 ≡ found t
  unfolding seal_with
  seal_with-Loads key plain missing s may e ready h = absurd (ground (arith, h))
  seal_with-Loads key plain lost s may e ready h = absurd (ground (arith, h))
  seal_with-Loads key none (key_is k) s may e ready h = absurd (ground (arith, h))
  seal_with-Loads key (some plain) (key_is k) s may e ready h =
      encrypted-Loads key s k plain may e ready h

  -- A token that the keychain store has saved is the one that it loads, also where the save has made
  -- the key: if its file may be read, decoding JSON undoes encoding the token, the text form of the
  -- key and the cipher are undone too, and random bytes are as many as were asked for.
  pub keychain_load-save :
      (key : Bytes) (s : Disk)
      → Readable v t (sealed_name v key)
      → (keychain_save v key t s).0 ≡ true
      → keychain_load v key (keychain_save v key t s).1 ≡ found t
  unfolding keychain_save
  keychain_load-save key s may h =
      seal_with-Loads key (v.encode t) (master_key v true s).0 (master_key v true s).1 may refl
        (master_key-Ready s) h
