-- ===== src/Json.antt =====
-- What the program uses of `encoding/json` on whole texts: `json.Valid` and `json.Compact`, as the
-- scanner of that package, a byte at a time over a stack of open objects and arrays.
pub mod Compact
use mcpurl.Prelude.{
  ℕ, suc, zero, Bool, true, false, ◌&&◌, ◌||◌, List, [], ◌∷◌, ◌++◌, Option, none, some, is_some,
  ltb, leb, ◌==◌, if◌then◌else◌,
}
use mcpurl.Prelude.Bytes.{Bytes}
use mcpurl.Prelude.Lists.{length}

-- What an open bracket waits for: the key or the value of an object's member, an array's element.
pub data Open : Type 0 where
  object_key object_value array_value : Open

pub data Mode : Type 0 where
  begin_value begin_value_or_empty begin_string begin_string_or_empty end_value end_top : Mode
  in_string in_escape : Mode
  -- so many hexadecimal digits of `\u` are still due
  in_unicode : ℕ → Mode
  -- inside `true`, `false` and `null`
  in_t in_tr in_tru in_f in_fa in_fal in_fals in_n in_nu in_nul : Mode
  minus nought digits dot fraction exponent exponent_sign exponent_digits : Mode

pub record Scanner : Type 0 where
  pub mode : Mode
  pub open_values : List Open

-- A byte is refused, or taken, and then kept or skipped by `Compact`.
pub data Step : Type 0 where
  refuse : Step
  keep skip : Scanner → Step

abbrev max_depth : ℕ
max_depth = 10000

unfoldable pub is_blank : ℕ → Bool
is_blank c = c == b' ' || c == b'\t' || c == b'\r' || c == b'\n'

is_digit : ℕ → Bool
is_digit c = leb b'0' c && leb c b'9'

is_hex : ℕ → Bool
is_hex c = leb b'0' c && leb c b'9' || leb b'a' c && leb c b'f' || leb b'A' c && leb c b'F'

abbrev to : Mode → List Open → Step
to m st = keep (record { mode = m; open_values = st })

-- `pushParseState`
abbrev push : Open → Mode → List Open → Step
push o m st = if leb (suc (length st)) max_depth then to m (o ∷ st) else refuse

-- `popParseState`
abbrev popped : List Open → Scanner
popped [] = record { mode = end_top; open_values = [] }
popped (o ∷ st) = record { mode = end_value; open_values = o ∷ st }

start_value : ℕ → List Open → Step
start_value c st =
    if c == b'{'
    then push object_key begin_string_or_empty st
    else if c == b'['
    then push array_value begin_value_or_empty st
    else if c == b'"'
    then to in_string st
    else if c == b'-'
    then to minus st
    else if c == b'0'
    then to nought st
    else if c == b't'
    then to in_t st
    else if c == b'f'
    then to in_f st
    else if c == b'n'
    then to in_n st
    else if leb b'1' c && leb c b'9'
    then to digits st
    else refuse

start_string : ℕ → List Open → Step
start_string c st = if c == b'"' then to in_string st else refuse

abbrev blank_or : ℕ → Mode → List Open → Step → Step
blank_or c m st other = if is_blank c then skip (record { mode = m; open_values = st }) else other

-- `stateEndValue`, behind a complete value.
after_value : ℕ → List Open → Step
after_value c [] = blank_or c end_top [] refuse
after_value c (object_key ∷ st) =
    blank_or c end_value (object_key ∷ st)
      (if c == b':' then to begin_value (object_value ∷ st) else refuse)
after_value c (object_value ∷ st) = blank_or c end_value (object_value ∷ st) (
    if c == b','
    then to begin_string (object_key ∷ st)
    else if c == b'}'
    then keep (popped st)
    else refuse)
after_value c (array_value ∷ st) = blank_or c end_value (array_value ∷ st) (
    if c == b','
    then to begin_value (array_value ∷ st)
    else if c == b']'
    then keep (popped st)
    else refuse)

-- `stateBeginStringOrEmpty` at a closing brace: the member is taken for complete.
abbrev close_empty : List Open → Step
close_empty [] = refuse
close_empty (_ ∷ st) = keep (popped st)

is_escape : ℕ → Bool
is_escape c =
    c == b'b'
    || c == b'f'
    || c == b'n'
    || c == b'r'
    || c == b't'
    || c == b'\\'
    || c == b'/'
    || c == b'"'

-- The exponent mark behind digits, or the end of the number.
after_digits : ℕ → List Open → Step
unfolding after_value
after_digits c st = if c == b'e' || c == b'E' then to exponent st else after_value c st

step_in : Mode → ℕ → List Open → Step
unfolding is_digit is_hex is_escape start_value start_string after_value after_digits
step_in begin_value c st = blank_or c begin_value st (start_value c st)
step_in begin_value_or_empty c st =
    blank_or c begin_value_or_empty st (if c == b']' then after_value c st else start_value c st)
step_in begin_string c st = blank_or c begin_string st (start_string c st)
step_in begin_string_or_empty c st =
    blank_or c begin_string_or_empty st (if c == b'}' then close_empty st else start_string c st)
step_in end_value c st = after_value c st
step_in end_top c st = blank_or c end_top st refuse
step_in in_string c st =
    if c == b'"'
    then to end_value st
    else if c == b'\\'
    then to in_escape st
    else if ltb c 0x20
    then refuse
    else to in_string st
step_in in_escape c st =
    if is_escape c then to in_string st else if c == b'u' then to (in_unicode 4) st else refuse
step_in (in_unicode zero) c st = refuse
step_in (in_unicode (suc zero)) c st = if is_hex c then to in_string st else refuse
step_in (in_unicode (suc (suc n))) c st = if is_hex c then to (in_unicode (suc n)) st else refuse
step_in in_t c st = if c == b'r' then to in_tr st else refuse
step_in in_tr c st = if c == b'u' then to in_tru st else refuse
step_in in_tru c st = if c == b'e' then to end_value st else refuse
step_in in_f c st = if c == b'a' then to in_fa st else refuse
step_in in_fa c st = if c == b'l' then to in_fal st else refuse
step_in in_fal c st = if c == b's' then to in_fals st else refuse
step_in in_fals c st = if c == b'e' then to end_value st else refuse
step_in in_n c st = if c == b'u' then to in_nu st else refuse
step_in in_nu c st = if c == b'l' then to in_nul st else refuse
step_in in_nul c st = if c == b'l' then to end_value st else refuse
step_in minus c st =
    if c == b'0' then to nought st else if leb b'1' c && leb c b'9' then to digits st else refuse
step_in digits c st =
    if is_digit c then to digits st else if c == b'.' then to dot st else after_digits c st
step_in nought c st = if c == b'.' then to dot st else after_digits c st
step_in dot c st = if is_digit c then to fraction st else refuse
step_in fraction c st = if is_digit c then to fraction st else after_digits c st
step_in exponent c st =
    if c == b'+' || c == b'-'
    then to exponent_sign st
    else if is_digit c
    then to exponent_digits st
    else refuse
step_in exponent_sign c st = if is_digit c then to exponent_digits st else refuse
step_in exponent_digits c st = if is_digit c then to exponent_digits st else after_value c st

unfoldable pub step : Scanner → ℕ → Step
unfolding step_in is_blank
step p c = step_in p.mode c p.open_values

abbrev is_top : Mode → Bool
is_top end_top = true
is_top _ = false

abbrev ends_top : Step → Bool
ends_top refuse = false
ends_top (keep q) = is_top q.mode
ends_top (skip q) = is_top q.mode

-- `eof`: the text is complete if a blank would end it.
pub at_end : Scanner → Bool
unfolding step
at_end p = ends_top (step p b' ')

abbrev pub begin : Scanner
begin = record { mode = begin_value; open_values = [] }

abbrev onto : Option Bytes → ℕ → Option Bytes
onto none c = none
onto (some s) c = some (c ∷ s)

-- What one byte contributes: `rest` is what the bytes behind it do.
abbrev pub compact_step : (Scanner → Option Bytes) → ℕ → Step → Option Bytes
compact_step rest c refuse = none
compact_step rest c (keep q) = onto (rest q) c
compact_step rest c (skip q) = rest q

-- The bytes that `Compact` writes, none where the text is refused.
unfoldable pub compact_from : Scanner → Bytes → Option Bytes
unfolding step at_end
compact_from p [] = if at_end p then some [] else none
compact_from p (c ∷ s) = compact_step (λ q. compact_from q s) c (step p c)

unfoldable pub compact : Bytes → Option Bytes
unfolding compact_from
compact = compact_from begin

-- `json.Valid`
abbrev pub is_valid : Bytes → Bool
is_valid s = is_some (compact s)
