-- ===== src/Oauth/Stores/Clients.antt =====
-- pkg/oauth/register.go, store.go and keychain.go: the client registrations, the choice of the token
-- store, and a `Flow` whose stores are the files.
use mcpurl.Prelude.{ℕ, Bool, false, not, ◌&&◌, ◌||◌, List, ◌++◌, Option, none, some, if◌then◌else◌}
use mcpurl.Prelude.Bytes.{Bytes, codes, is_empty}
use mcpurl.Oauth.Discovery.{Web}
use mcpurl.Oauth.Types.{Token, Registration, Discovery}
use mcpurl.Oauth.Flow.Monad.{Lookup, found, corrupt, Reply, Answer, Outside}
use mcpurl.Oauth.Stores.{
  Vault, Disk, write_file_atomic, remove_file, read_with, file_load, file_save, file_delete,
  keychain_load, keychain_save, keychain_delete,
}

-- JSON for registrations, the second directory, and the system; `within` tells whether a path lies
-- in a directory.
pub record Layout : Type 0 where
  pub encode_client : Registration → Option Bytes
  pub decode_client : Bytes → Option Registration
  pub clients_dir : Bytes
  pub windows : Bool
  pub within : Bytes → Bytes → Bool

-- `Store`
pub record Store : Type 0 where
  pub load : Bytes → Disk → Lookup Token
  pub save : Bytes → Token → Disk → Bool × Disk
  pub delete : Bytes → Disk → Bool × Disk

module _ (v : Vault) (l : Layout) where
  client_file : Bytes → Bytes
  client_file key = key ++ codes ".json"

  -- `ClientStore.path`
  unfoldable pub client_path : Bytes → Bytes
  unfolding client_file
  client_path key = v.join l.clients_dir (client_file key)

  checked : Option Registration → Lookup Registration
  checked none = corrupt
  checked (some r) = if is_empty r.client_id then corrupt else found r

  -- `ClientStore`
  unfoldable pub client_load : Bytes → Disk → Lookup Registration
  unfolding read_with checked client_path
  client_load key s =
      let path = client_path key in
      read_with v (λ content. checked (l.decode_client content)) path (s.files path)

  -- The vault with the other directory.
  abbrev in_clients : Vault
  in_clients = record v { dir = l.clients_dir }

  write_client : Bytes → Option Bytes → Disk → Bool × Disk
  unfolding write_file_atomic
  write_client name none s = (false, s)
  write_client name (some content) s = write_file_atomic in_clients name content s

  unfoldable pub client_save : Bytes → Registration → Disk → Bool × Disk
  unfolding write_client client_file
  client_save key r s = write_client (client_file key) (l.encode_client r) s

  unfoldable pub client_delete : Bytes → Disk → Bool × Disk
  unfolding remove_file client_path
  client_delete key s = remove_file v (client_path key) s

  abbrev pub file_store : Store
  file_store = record { load = file_load v; save = file_save v; delete = file_delete v }

  abbrev pub keychain_store : Store
  keychain_store = record {
    load = keychain_load v;
    save = keychain_save v;
    delete = keychain_delete v;
  }

  -- `NewStore`
  unfoldable pub new_store : Bool → Store
  new_store no_keychain =
      if no_keychain || l.windows || not v.available then file_store else keychain_store

  -- `WipeFiles`
  unfoldable pub wipe_files : Disk → Disk
  wipe_files s = record s {
    files = λ path.
        if v.can_remove path && (l.within v.dir path || l.within l.clients_dir path)
        then none
        else s.files path;
  }

-- The rest of what a `Flow` calls: locks, servers, the browser and the clock.
pub record Net (S : Type 0) : Type 0 where
  pub now : S → ℕ
  pub acquire : Bytes → S → Bool × S
  pub web : Web S
  pub post_refresh : Discovery → Bytes → Bytes → Bytes → S → Reply × S
  pub post_register : Bytes → Bytes → S → Answer × S
  pub login : Discovery → Bytes → List Bytes → S → Option Token × S

module _ {W : Type 0} (v : Vault) (l : Layout) (net : Net (Disk × W)) where
  unfoldable pub on_disk : {A : Type 0} → (Disk → A × Disk) → Disk × W → A × (Disk × W)
  on_disk act (s, w) = let (a, t) = act s in (a, (t, w))

  -- A `Flow` has the store that `NewStore` chose, and the client registrations.
  abbrev pub stored_outside : Store → Outside
  stored_outside store = record {
    State = Disk × W;
    now = net.now;
    load = λ key s. (store.load key (s.0), s);
    save = λ key t. on_disk (store.save key t);
    delete = λ key. on_disk (store.delete key);
    load_client = λ key s. (client_load v l key (s.0), s);
    save_client = λ key r. on_disk (client_save v l key r);
    delete_client = λ key. on_disk (client_delete v l key);
    acquire = net.acquire;
    web = net.web;
    post_refresh = net.post_refresh;
    post_register = net.post_register;
    login = net.login;
  }
