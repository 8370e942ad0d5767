-- ===== src/Oauth/Challenge.antt =====
-- pkg/oauth/discovery.go: what is read of a WWW-Authenticate header. The regular expression
-- `(\w+)="([^"]*)"` is a scanner: a match begins with a whole run of word bytes.
use mcpurl.Prelude.{
  ℕ, zero, suc, ◌+◌, Bool, ◌&&◌, ◌||◌, not, List, [], ◌∷◌, ◌++◌, leb, ◌==◌, if◌then◌else◌,
}
use mcpurl.Prelude.Bytes.{Bytes, codes, equal, is_empty, has_infix}
use mcpurl.Redact.{tokens}

is_word : ℕ → Bool
is_word c =
    leb b'a' c && leb c b'z' || leb b'A' c && leb c b'Z' || leb b'0' c && leb c b'9' || c == b'_'

-- A run of word bytes (none at all outside), such a run with `=` behind it, and inside a value.
pub data Mode : Type 0 where
  run behind : Bytes → Mode
  value : Bytes → Bytes → Mode

next_mode : Mode → ℕ → Mode
next_mode (run w) c =
    if is_word c
    then run (w ++ (c ∷ []))
    else if c == b'=' && not (is_empty w)
    then behind w
    else run []
next_mode (behind w) c =
    if c == b'"' then value w [] else if is_word c then run (c ∷ []) else run []
next_mode (value w v) c = if c == b'"' then run [] else value w (v ++ (c ∷ []))

abbrev Params : Type 0
Params = List (Bytes × Bytes)

emit : Mode → ℕ → Params → Params
emit (value w v) c rest = if c == b'"' then (w, v) ∷ rest else rest
emit m c rest = rest

-- `FindAllStringSubmatch`
scan : Mode → Bytes → Params
scan m [] = []
scan m (c ∷ s) = emit m c (scan (next_mode m c) s)

pub record BearerChallenge : Type 0 where
  pub resource_metadata : Bytes
  pub scope : Bytes
  pub error : Bytes
  pub error_description : Bytes

set_param : Bytes → Bytes → BearerChallenge → BearerChallenge
set_param k v c =
    if equal k (codes "resource_metadata")
    then record c { resource_metadata = v }
    else if equal k (codes "scope")
    then record c { scope = v }
    else if equal k (codes "error")
    then record c { error = v }
    else if equal k (codes "error_description")
    then record c { error_description = v }
    else c

collect : Params → BearerChallenge → BearerChallenge
collect [] c = c
collect ((k, v) ∷ more) c = collect more (set_param k v c)

unfoldable pub parse_challenge : Bytes → BearerChallenge
unfolding scan emit next_mode is_word collect set_param equal
parse_challenge h =
    collect (scan (run []) h)
      (record { resource_metadata = []; scope = []; error = []; error_description = [] })

-- `detail`
unfoldable pub detail : BearerChallenge → Bytes
detail c =
    if is_empty c.error
    then []
    else if is_empty c.error_description
    then c.error
    else tokens (c.error ++ (codes ": " ++ c.error_description))

lower_byte : ℕ → ℕ
lower_byte c = if leb b'A' c && leb c b'Z' then c + 32 else c

-- `strings.ToLower`, as far as ASCII results go: U+0130 becomes `i` and U+212A `k`. The number
-- counts the bytes of such a letter that are still to be dropped.
lower_from : ℕ → Bytes → Bytes
lower_from k [] = []
lower_from (suc k) (c ∷ s) = lower_from k s
lower_from zero (c ∷ []) = lower_byte c ∷ []
lower_from zero (c ∷ d ∷ []) =
    if c == 0xc4 && d == 0xb0 then b'i' ∷ [] else lower_byte c ∷ lower_from zero (d ∷ [])
lower_from zero (c ∷ d ∷ e ∷ s) =
    let wide = c == 0xc4 && d == 0xb0 in
    let kelvin = c == 0xe2 && d == 0x84 && e == 0xaa in
    (if wide then b'i' else if kelvin then b'k' else lower_byte c)
    ∷ lower_from (if wide then 1 else if kelvin then 2 else 0) (d ∷ e ∷ s)

-- `staleToken`
unfoldable pub stale_token : BearerChallenge → Bool
unfolding lower_from lower_byte equal has_infix
stale_token c =
    equal c.error (codes "invalid_token")
    && has_infix (lower_from 0 c.error_description) (codes "expir")
