-- ===== src/App/Entries/Laws.antt =====
-- What an entry's insertion and removal leave of the rest of a document.
use mcpurl.Prelude.{
  ◌≡◌, refl, sym, ap, ◌∙◌, true, false, Option, none, some, if◌then◌else◌, inl, inr, Bool-cases,
  subst,
}
use mcpurl.Prelude.Bytes.{Bytes, equal, equal_self, equal_iff, has_prefix, trim_first}
use mcpurl.App.Entries.{
  Value, object, Members, empty, member, lookup, set_member, delete_member, as_object, servers_key,
  servers, upserted, deleted, server_entry, first_reference, entry_profile,
}

-- A key that is the first of two different ones is not the second.
unequal : (k key j : Bytes) → equal k key ≡ true → equal key j ≡ false → equal k j ≡ false
unequal k key j same e = subst (λ x. equal x j ≡ false) (sym ((equal_iff k key).0 same)) e

pub lookup-set_member :
    (key : Bytes) (v : Value) (m : Members) → lookup key (set_member key v m) ≡ some v
unfolding lookup set_member
lookup-set_member key v empty = rw (equal_self key) refl
lookup-set_member key v (member k w m) = elim (Bool-cases (equal k key)) [
  | inl same ↦ rw (same, same) refl
  | inr apart ↦ rw (apart, apart) (lookup-set_member key v m)
]

pub lookup-set_other :
    (key j : Bytes) (v : Value) (m : Members)
    → equal key j ≡ false
    → lookup j (set_member key v m) ≡ lookup j m
unfolding lookup set_member
lookup-set_other key j v empty e = rw e refl
lookup-set_other key j v (member k w m) e = elim (Bool-cases (equal k key)) [
  | inl same ↦ rw (same, unequal k key j same e) refl
  | inr apart ↦ rw apart (ap (λ r. if equal k j then some w else r) (lookup-set_other key j v m e))
]

pub lookup-delete_member : (key : Bytes) (m : Members) → lookup key (delete_member key m) ≡ none
unfolding lookup delete_member
lookup-delete_member key empty = refl
lookup-delete_member key (member k w m) = elim (Bool-cases (equal k key)) [
  | inl same ↦ rw same (lookup-delete_member key m)
  | inr apart ↦ rw (apart, apart) (lookup-delete_member key m)
]

pub lookup-delete_other :
    (key j : Bytes) (m : Members)
    → equal key j ≡ false
    → lookup j (delete_member key m) ≡ lookup j m
unfolding lookup delete_member
lookup-delete_other key j empty e = refl
lookup-delete_other key j (member k w m) e = elim (Bool-cases (equal k key)) [
  | inl same ↦ rw (same, unequal k key j same e) (lookup-delete_other key j m e)
  | inr apart ↦ rw apart (ap (λ r. if equal k j then some w else r) (lookup-delete_other key j m e))
]

pub servers-upserted :
    (name : Bytes) (entry : Value) (root : Members)
    → servers (upserted name entry root) ≡ set_member name entry (servers root)
unfolding servers upserted
servers-upserted name entry root =
    ap as_object
      (lookup-set_member servers_key (object (set_member name entry (servers root))) root)

pub servers-deleted :
    (name : Bytes) (root : Members)
    → servers (deleted name root) ≡ delete_member name (servers root)
unfolding servers deleted
servers-deleted name root =
    ap as_object (lookup-set_member servers_key (object (delete_member name (servers root))) root)

-- What uninstall reads of an entry that install wrote is the profile that install named.
pub entry_profile-server_entry :
    (exe profile : Bytes) → entry_profile (some (server_entry exe profile)) ≡ profile
unfolding entry_profile lookup first_reference has_prefix trim_first equal
entry_profile-server_entry exe profile = refl

-- A document in which only one entry may differ: the other entries and the other members are the
-- old ones.
pub record Differs (name : Bytes) (entry : Option Value) (root out : Members) : Type 0 where
  pub here : lookup name (servers out) ≡ entry
  pub entries :
      (j : Bytes) → equal name j ≡ false → lookup j (servers out) ≡ lookup j (servers root)
  pub members : (k : Bytes) → equal servers_key k ≡ false → lookup k out ≡ lookup k root

pub upserted-Differs :
    (name : Bytes) (entry : Value) (root : Members)
    → Differs name (some entry) root (upserted name entry root)
unfolding upserted
upserted-Differs name entry root =
    let at = servers-upserted name entry root in
    record {
      here = ap (lookup name) at ∙ lookup-set_member name entry (servers root);
      entries = λ j e. ap (lookup j) at ∙ lookup-set_other name j entry (servers root) e;
      members = λ k e.
          lookup-set_other servers_key k (object (set_member name entry (servers root))) root e;
    }

pub deleted-Differs : (name : Bytes) (root : Members) → Differs name none root (deleted name root)
unfolding deleted
deleted-Differs name root =
    let at = servers-deleted name root in
    record {
      here = ap (lookup name) at ∙ lookup-delete_member name (servers root);
      entries = λ j e. ap (lookup j) at ∙ lookup-delete_other name j (servers root) e;
      members =
          λ k e. lookup-set_other servers_key k (object (delete_member name (servers root))) root e;
    }

-- Removing the entry that install wrote gives a document with the members and the entries of the
-- old one but for that name, which has none; in between the name has the entry, and uninstall
-- reads from it the profile that install named.
pub deleted-upserted :
    (name exe profile : Bytes) (root : Members)
    → Differs name none root (deleted name (upserted name (server_entry exe profile) root))
      × (entry_profile (lookup name (servers (upserted name (server_entry exe profile) root)))
          ≡ profile)
deleted-upserted name exe profile root =
    let entry = server_entry exe profile in
    let up = upserted-Differs name entry root in
    let down = deleted-Differs name (upserted name entry root) in
    (
      record {
        here = down.here;
        entries = λ j e. down.entries j e ∙ up.entries j e;
        members = λ k e. down.members k e ∙ up.members k e;
      },
      ap entry_profile up.here ∙ entry_profile-server_entry exe profile,
    )
