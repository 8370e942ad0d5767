-- ===== src/Mcp/Http.antt =====
-- What the client uses of net/http: header maps, requests and responses.
use mcpurl.Prelude.{
  ℕ, ◌+◌, ◌-◌, Bool, true, false, ◌&&◌, ◌||◌, not, List, [], ◌∷◌, ◌++◌, leb, ◌==◌, if◌then◌else◌,
  ◌≡◌, refl, arith, inl, inr, Bool-cases,
}
use mcpurl.Prelude.Bytes.{Bytes, equal, equal_iff}
use mcpurl.Mcp.Sse.{Stream}

-- Values by canonical key, those of one key in the order of their addition.
abbrev pub Headers : Type 0
Headers = List (Bytes × Bytes)

abbrev is_lower : ℕ → Bool
is_lower c = leb b'a' c && leb c b'z'

abbrev is_upper : ℕ → Bool
is_upper c = leb b'A' c && leb c b'Z'

-- The bytes that a header's name may hold.
is_token_byte : ℕ → Bool
is_token_byte c =
    is_lower c
    || is_upper c
    || leb b'0' c && leb c b'9'
    || c == b'!'
    || c == b'#'
    || c == b'$'
    || c == b'%'
    || c == b'&'
    || c == 39
    || c == b'*'
    || c == b'+'
    || c == b'-'
    || c == b'.'
    || c == b'^'
    || c == b'_'
    || c == b'`'
    || c == b'|'
    || c == b'~'

is_token : Bytes → Bool
is_token [] = true
is_token (c ∷ s) = is_token_byte c && is_token s

-- The flag says that the byte begins a word.
recase : Bool → Bytes → Bytes
recase first [] = []
recase first (c ∷ s) =
    (if first && is_lower c then c - 32 else if not first && is_upper c then c + 32 else c)
    ∷ recase (c == b'-') s

-- `textproto.CanonicalMIMEHeaderKey`
unfoldable pub canonical : Bytes → Bytes
unfolding is_token is_token_byte recase
canonical key = if is_token key then recase true key else key

unfoldable pub get : Bytes → Headers → Bytes
unfolding equal
get key [] = []
get key ((k, v) ∷ h) = if equal k key then v else get key h

unfoldable pub remove : Bytes → Headers → Headers
unfolding equal
remove key [] = []
remove key ((k, v) ∷ h) = let rest = remove key h in if equal k key then rest else (k, v) ∷ rest

abbrev pub add : Bytes → Bytes → Headers → Headers
add key v h = h ++ ((canonical key, v) ∷ [])

-- `Set` with a key that is canonical already.
abbrev pub set : Bytes → Bytes → Headers → Headers
set key v h = remove key h ++ ((key, v) ∷ [])

pub data Method : Type 0 where
  post get_stream delete : Method

pub record Request : Type 0 where
  pub method : Method
  pub headers : Headers
  pub body : Bytes

pub record Response : Type 0 where
  pub status : ℕ
  pub headers : Headers
  pub body : Stream

-- A header that is set is read back, and the others are as they were.
pub get-concat :
    (j k v : Bytes) (h : Headers) → equal k j ≡ false → get j (h ++ ((k, v) ∷ [])) ≡ get j h
unfolding get
get-concat j k v [] e = rw e
get-concat j k v ((i, w) ∷ h) e = ground (arith, get-concat j k v h e)

pub get-remove : (j k : Bytes) (h : Headers) → equal k j ≡ false → get j (remove k h) ≡ get j h
unfolding get remove
get-remove j k [] e = refl
get-remove j k ((i, w) ∷ h) e =
    ground (arith, get-remove j k h e, equal_iff i k, equal_iff i j, equal_iff k j)

get-remove_self : (k v : Bytes) (h : Headers) → get k (remove k h ++ ((k, v) ∷ [])) ≡ v
unfolding get remove
get-remove_self k v [] = ground (arith, equal_iff k k)
get-remove_self k v ((i, w) ∷ h) = ground (arith, get-remove_self k v h)

pub get-set : (j k v : Bytes) (h : Headers) → get j (set k v h) ≡ (if equal k j then v else get j h)
get-set j k v h = elim (Bool-cases (equal k j)) [
  | inl e ↦ rw (e, (equal_iff k j).0 e) (get-remove_self j v h)
  | inr e ↦ rw (e, get-concat j k v (remove k h) e) (get-remove j k h e)
]
