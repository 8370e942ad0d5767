-- ===== src/Oauth/Stores.antt =====
-- pkg/oauth/store.go and keychain.go: tokens as plain files, and as files that are encrypted with a
-- key from the keychain. The libraries are the parameter `Vault`; atomicfile.Write appears as one
-- write that succeeds or changes nothing.
pub mod RoundTrip
pub mod Clients
pub mod Erased
use mcpurl.Prelude.{
  ℕ, zero, suc, Bool, true, false, not, ◌||◌, List, [], ◌∷◌, ◌++◌, Option, none, some, ◌==◌, ltb,
  if◌then◌else◌,
}
use mcpurl.Prelude.Bytes.{Bytes, codes, equal}
use mcpurl.Prelude.Lists.{length, take}
use mcpurl.Oauth.Types.{Token}
use mcpurl.Oauth.Flow.Monad.{Lookup, found, not_found, corrupt, unreadable}

-- JSON, base64, AES-GCM, random bytes and paths; `random` gives none where `rand.Read` fails,
-- `available` is whether the keychain answers.
pub record Vault : Type 0 where
  pub encode : Token → Option Bytes
  pub decode : Bytes → Option Token
  pub to_text : Bytes → Bytes
  pub from_text : Bytes → Option Bytes
  pub gcm_seal : Bytes → Bytes → Bytes → Bytes
  pub gcm_open : Bytes → Bytes → Bytes → Option Bytes
  pub random : ℕ → Option Bytes
  pub join : Bytes → Bytes → Bytes
  pub dir : Bytes
  pub can_read : Bytes → Bool
  pub can_write : Bytes → Bool
  pub can_remove : Bytes → Bool
  pub available : Bool
  pub keeps_key : Bool

-- The files by path, and the item of the keychain, which is base64.
pub record Disk : Type 0 where
  pub files : Bytes → Option Bytes
  pub item : Option Bytes

unfoldable pub placed : Bytes → Option Bytes → Disk → Disk
unfolding equal
placed path content s = record s { files = λ q. if equal path q then content else s.files q }

unfoldable pub without_first : ℕ → Bytes → Bytes
without_first zero s = s
without_first (suc n) [] = []
without_first (suc n) (c ∷ s) = without_first n s

-- `aes.NewCipher` takes keys of 16, 24 and 32 bytes; the nonce has 12.
abbrev pub is_key : Bytes → Bool
is_key k = length k == 16 || length k == 24 || length k == 32

abbrev pub nonce_size : ℕ
nonce_size = 12

-- What `masterKey` gives: `missing` is `ErrNotFound`, `lost` another error.
pub data Master : Type 0 where
  missing lost : Master
  key_is : Bytes → Master

module _ (v : Vault) where
  -- `writeFileAtomic`
  unfoldable pub write_file_atomic : Bytes → Bytes → Disk → Bool × Disk
  unfolding placed
  write_file_atomic name content s =
      let path = v.join v.dir name in
      if v.can_write path then (true, placed path (some content) s) else (false, s)

  remove_content : Bytes → Disk → Option Bytes → Bool × Disk
  unfolding placed
  remove_content path s none = (true, s)
  remove_content path s (some content) =
      if v.can_remove path then (true, placed path none s) else (false, s)

  -- `os.Remove`, where a file that is not there is no error.
  unfoldable pub remove_file : Bytes → Disk → Bool × Disk
  unfolding remove_content
  remove_file path s = remove_content path s (s.files path)

  decoded : Option Token → Lookup Token
  decoded none = corrupt
  decoded (some t) = found t

  -- `os.ReadFile`, and what is made of the content.
  unfoldable pub read_with : {A : Type 0} → (Bytes → Lookup A) → Bytes → Option Bytes → Lookup A
  read_with go path none = not_found
  read_with go path (some content) = if v.can_read path then go content else unreadable

  pub plain_name : Bytes → Bytes
  plain_name key = key ++ codes ".json"

  pub sealed_name : Bytes → Bytes
  sealed_name key = key ++ codes ".enc"

  -- `FileStore`
  unfoldable pub file_load : Bytes → Disk → Lookup Token
  unfolding read_with decoded plain_name
  file_load key s =
      let path = v.join v.dir (plain_name key) in
      read_with (λ content. decoded (v.decode content)) path (s.files path)

  write_encoded : Bytes → Option Bytes → Disk → Bool × Disk
  unfolding write_file_atomic
  write_encoded name none s = (false, s)
  write_encoded name (some content) s = write_file_atomic name content s

  unfoldable pub file_save : Bytes → Token → Disk → Bool × Disk
  unfolding write_encoded plain_name
  file_save key t s = write_encoded (plain_name key) (v.encode t) s

  unfoldable pub file_delete : Bytes → Disk → Bool × Disk
  unfolding remove_file plain_name
  file_delete key s = remove_file (v.join v.dir (plain_name key)) s

  from_item : Option Bytes → Master
  from_item none = lost
  from_item (some k) = key_is k

  minted : Option Bytes → Disk → Master × Disk
  minted none s = (lost, s)
  minted (some k) s =
      if v.keeps_key then (key_is k, record s { item = some (v.to_text k) }) else (lost, s)

  on_item : Bool → Disk → Option Bytes → Master × Disk
  unfolding from_item minted
  on_item create s (some text) = (from_item (v.from_text text), s)
  on_item true s none = minted (v.random 32) s
  on_item false s none = (missing, s)

  -- `masterKey`
  unfoldable pub master_key : Bool → Disk → Master × Disk
  unfolding on_item
  master_key create s = if v.available then on_item create s s.item else (lost, s)

  with_nonce : Bytes → Bytes → Option Bytes → Option Bytes
  with_nonce k plain none = none
  with_nonce k plain (some nonce) = some (nonce ++ v.gcm_seal k nonce plain)

  unfoldable pub encrypt : Bytes → Bytes → Option Bytes
  unfolding with_nonce
  encrypt k plain = if is_key k then with_nonce k plain (v.random nonce_size) else none

  unfoldable pub decrypt : Bytes → Bytes → Option Bytes
  unfolding without_first
  decrypt k sealed =
      if not (is_key k) || ltb (length sealed) nonce_size
      then none
      else v.gcm_open k (take nonce_size sealed) (without_first nonce_size sealed)

  opened : Option Bytes → Lookup Token
  unfolding decoded
  opened none = corrupt
  opened (some plain) = decoded (v.decode plain)

  unlocked : Bytes → Master → Lookup Token
  unfolding opened decrypt
  unlocked sealed missing = not_found
  unlocked sealed lost = unreadable
  unlocked sealed (key_is k) = opened (decrypt k sealed)

  -- `KeychainStore`
  unfoldable pub keychain_load : Bytes → Disk → Lookup Token
  unfolding read_with unlocked master_key sealed_name
  keychain_load key s =
      let path = v.join v.dir (sealed_name key) in
      read_with (λ sealed. unlocked sealed (master_key false s).0) path (s.files path)

  seal_with : Bytes → Option Bytes → Master × Disk → Bool × Disk
  unfolding write_encoded encrypt
  seal_with name plain (missing, s) = (false, s)
  seal_with name plain (lost, s) = (false, s)
  seal_with name none (key_is k, s) = (false, s)
  seal_with name (some plain) (key_is k, s) = write_encoded name (encrypt k plain) s

  unfoldable pub keychain_save : Bytes → Token → Disk → Bool × Disk
  unfolding seal_with master_key sealed_name
  keychain_save key t s = seal_with (sealed_name key) (v.encode t) (master_key true s)

  unfoldable pub keychain_delete : Bytes → Disk → Bool × Disk
  unfolding remove_file sealed_name
  keychain_delete key s = remove_file (v.join v.dir (sealed_name key)) s
