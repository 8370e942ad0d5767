-- ===== src/App/Entries.antt =====
-- pkg/app/install.go: the entries under "mcpServers" in a client's JSON document. A document is what
-- encoding/json makes of it; numbers, truth values and null are kept as their text.
pub mod Laws
use mcpurl.Prelude.{Bool, true, false, List, [], ◌∷◌, ◌++◌, Option, none, some, if◌then◌else◌}
use mcpurl.Prelude.Bytes.{Bytes, codes, equal, is_empty, has_prefix, has_suffix, trim_first}

mutual
  pub data Value : Type 0 where
    text scalar : Bytes → Value
    array : Values → Value
    object : Members → Value

  pub data Values : Type 0 where
    end : Values
    item : Value → Values → Values

  -- A `map[string]any`.
  pub data Members : Type 0 where
    empty : Members
    member : Bytes → Value → Members → Members

unfoldable pub lookup : Bytes → Members → Option Value
lookup key empty = none
lookup key (member k v m) = let rest = lookup key m in if equal k key then some v else rest

unfoldable pub set_member : Bytes → Value → Members → Members
set_member key v empty = member key v empty
set_member key v (member k w m) =
    let rest = set_member key v m in if equal k key then member k v m else member k w rest

unfoldable pub delete_member : Bytes → Members → Members
delete_member key empty = empty
delete_member key (member k v m) =
    let rest = delete_member key m in if equal k key then rest else member k v rest

-- `v.(map[string]any)`, the empty map where it is none.
abbrev pub as_object : Option Value → Members
as_object (some (object m)) = m
as_object _ = empty

abbrev pub servers_key : Bytes
servers_key = codes "mcpServers"

unfoldable pub servers : Members → Members
unfolding lookup
servers root = as_object (lookup servers_key root)

-- The document that `upsertServerEntry` writes.
unfoldable pub upserted : Bytes → Value → Members → Members
unfolding set_member servers
upserted name entry root =
    set_member servers_key (object (set_member name entry (servers root))) root

-- `delete(servers, name)`, where `servers` is the map that stands in the document.
unfoldable pub deleted : Bytes → Members → Members
unfolding set_member delete_member servers
deleted name root = set_member servers_key (object (delete_member name (servers root))) root

-- `serverEntry` as JSON, with the reference to a profile that install writes.
abbrev pub server_entry : Bytes → Bytes → Value
server_entry exe profile = object (
    member (codes "command") (text exe)
      (member (codes "args") (array (item (text (b'@' ∷ profile)) end)) empty))

first_reference : Values → Bytes
unfolding has_prefix trim_first
first_reference end = []
first_reference (item (text s) vs) =
    let rest = first_reference vs in if has_prefix s (codes "@") then trim_first b'@' s else rest
first_reference (item _ vs) = first_reference vs

abbrev as_array : Option Value → Values
as_array (some (array vs)) = vs
as_array _ = end

-- `entryProfile`
unfoldable pub entry_profile : Option Value → Bytes
unfolding first_reference lookup
entry_profile entry = first_reference (as_array (lookup (codes "args") (as_object entry)))
