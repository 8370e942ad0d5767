-- ===== src/Oauth/Tests/Saved.antt =====
-- A vault whose ciphers leave a text as it is.
use mcpurl.Prelude.{ℕ, zero, suc, ◌≡◌, refl, sym, ap, ◌∙◌, true, [], ◌∷◌, Option, none, some}
use mcpurl.Prelude.Bytes.{Bytes, codes}
use mcpurl.Prelude.Lists.{length}
use mcpurl.Oauth.Types.{Token}
use mcpurl.Oauth.Flow.Monad.{found}
use mcpurl.Oauth.Stores.{
  Vault, Disk, file_load, file_save, keychain_load, keychain_save, write_file_atomic, master_key,
  encrypt,
}
use mcpurl.Oauth.Stores.RoundTrip.{IsFaithful, file_load-save, keychain_load-save}

abbrev saved : Token
saved = record {
  access_token = codes "t";
  refresh_token = codes "r";
  expiry = none;
  issuer = codes "https://as";
  client_id = codes "app";
  scopes = [];
}

abbrev sevens : ℕ → Bytes
sevens zero = []
sevens (suc n) = 7 ∷ sevens n

length-sevens : (n : ℕ) → length (sevens n) ≡ n
length-sevens zero = refl
length-sevens (suc n) = ap suc (length-sevens n)

abbrev vault : Vault
vault = record {
  encode = λ t. some (codes "{}");
  decode = λ c. some saved;
  to_text = λ k. k;
  from_text = λ k. some k;
  gcm_seal = λ k n p. p;
  gcm_open = λ k n c. some c;
  random = λ n. some (sevens n);
  join = λ dir name. name;
  dir = [];
  can_read = λ path. true;
  can_write = λ path. true;
  can_remove = λ path. true;
  available = true;
  keeps_key = true;
}

bytes_of : Option Bytes → Bytes
bytes_of none = []
bytes_of (some r) = r

vault-IsFaithful : IsFaithful vault saved
unfolding bytes_of
vault-IsFaithful = record {
  decodes = λ c e. refl;
  texts = λ k. refl;
  opens = λ k n p. refl;
  sized = λ n r e. ap (λ x. length (bytes_of x)) (sym e) ∙ length-sevens n;
}

abbrev blank : Disk
blank = record { files = λ path. none; item = none }

file_load-save_example :
    file_load vault (codes "k") (file_save vault (codes "k") saved blank).1 ≡ found saved
unfolding file_save write_file_atomic
file_load-save_example =
    file_load-save vault saved (codes "k") blank vault-IsFaithful.decodes refl refl

keychain_load-save_example :
    keychain_load vault (codes "k") (keychain_save vault (codes "k") saved blank).1 ≡ found saved
unfolding keychain_save write_file_atomic master_key encrypt
keychain_load-save_example =
    keychain_load-save vault saved vault-IsFaithful (codes "k") blank refl refl
