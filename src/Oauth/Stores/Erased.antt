-- ===== src/Oauth/Stores/Erased.antt =====
-- What is deleted from the stores is gone.
use mcpurl.Prelude.{
  ◌≡◌, refl, ap, Bool, true, not, ◌||◌, Option, none, some, inl, inr, Bool-cases, if_both, arith,
}
use mcpurl.Prelude.Bytes.{Bytes, equal_self}
use mcpurl.Oauth.Flow.Monad.{not_found}
use mcpurl.Oauth.Flow.Entry.Forgotten.{Forgets}
use mcpurl.Oauth.Stores.{
  Vault, Disk, placed, remove_content, remove_file, read_with, plain_name, sealed_name, file_load,
  file_delete, keychain_load, keychain_delete,
}
use mcpurl.Oauth.Stores.Clients.{
  Layout, Store, client_path, client_load, client_delete, file_store, keychain_store, new_store,
  Net, on_disk, stored_outside,
}

module _ (v : Vault) where
  content_removed :
      (path : Bytes) (s : Disk) (content : Option Bytes)
      → s.files path ≡ content
      → (remove_content v path s content).0 ≡ true
      → (remove_content v path s content).1.files path ≡ none
  unfolding remove_content placed
  content_removed path s none e = λ h. e
  content_removed path s (some c) e = elim (Bool-cases (v.can_remove path)) [
    | inl fine ↦ rw (fine, equal_self path) (λ h. refl)
    | inr bad ↦ rw bad (λ h. absurd (ground (arith, h)))
  ]

  removed_is :
      (path : Bytes) (s : Disk)
      → (remove_file v path s).0 ≡ true
      → (remove_file v path s).1.files path ≡ none
  unfolding remove_file
  removed_is path s = content_removed path s (s.files path) refl

  removed_again : (path : Bytes) (s : Disk) → s.files path ≡ none → remove_file v path s ≡ (true, s)
  unfolding remove_file remove_content
  removed_again path s gone = rw gone refl

  -- A store that loses what is deleted from it.
  record Loses (store : Store) : Type 0 where
    gone :
        (key : Bytes) (s : Disk)
        → (store.delete key s).0 ≡ true
        → store.load key (store.delete key s).1 ≡ not_found
    again :
        (key : Bytes) (s : Disk)
        → (store.delete key s).0 ≡ true
        → store.delete key (store.delete key s).1 ≡ (true, (store.delete key s).1)

  module _ (l : Layout) where
    file_store-Loses : Loses (file_store v l)
    unfolding file_load file_delete read_with
    file_store-Loses = record {
      gone = λ key s h. rw (removed_is (v.join v.dir (plain_name v key)) s h) refl;
      again = λ key s h.
          removed_again (v.join v.dir (plain_name v key)) _
            (removed_is (v.join v.dir (plain_name v key)) s h);
    }

    keychain_store-Loses : Loses (keychain_store v l)
    unfolding keychain_load keychain_delete read_with
    keychain_store-Loses = record {
      gone = λ key s h. rw (removed_is (v.join v.dir (sealed_name v key)) s h) refl;
      again = λ key s h.
          removed_again (v.join v.dir (sealed_name v key)) _
            (removed_is (v.join v.dir (sealed_name v key)) s h);
    }

    new_store-Loses : (no_keychain : Bool) → Loses (new_store v l no_keychain)
    unfolding new_store
    new_store-Loses no_keychain =
        if_both Loses (no_keychain || l.windows || not v.available) file_store-Loses
          keychain_store-Loses

    client_gone :
        (key : Bytes) (s : Disk)
        → (client_delete v l key s).0 ≡ true
        → client_load v l key (client_delete v l key s).1 ≡ not_found
    unfolding client_load client_delete read_with
    client_gone key s h = rw (removed_is (client_path v l key) s h) refl

    -- The stores of the program lose what is deleted from them.
    pub stored_outside-Forgets :
        {W : Type 0} (net : Net (Disk × W)) (no_keychain : Bool)
        → Forgets (stored_outside v l net (new_store v l no_keychain))
    unfolding on_disk
    stored_outside-Forgets net no_keychain =
        let loses = new_store-Loses no_keychain in
        record {
          load_still = λ key s. refl;
          client_still = λ key s. refl;
          erased = λ key s h. loses.gone key (s.0) h;
          settled = λ key s h. ap (λ r. (r.0, (r.1, s.1))) (loses.again key (s.0) h);
          client_erased = λ key s h. client_gone key (s.0) h;
        }
