-- ===== src/Cmd/Flags.antt =====
-- The flags of the commands, `flag.FlagSet.Parse`, and `parseTarget`.
pub mod Anywhere
use mcpurl.Prelude.{
  ℕ, zero, suc, ◌+◌, Bool, true, false, not, ◌&&◌, ◌||◌, List, [], ◌∷◌, ◌++◌, Option, none, some,
  ◌==◌, if◌then◌else◌, map,
}
use mcpurl.Prelude.Bytes.{Bytes, codes, equal, is_empty, contains}
use mcpurl.Prelude.Space.{trim_space}
use mcpurl.Prelude.Lists.{length}
use mcpurl.Cmd.Settings.{
  Settings, Command, defaults, comma_list, parse_bool, Kind, unknown, switch, valued, kind_of,
}

-- A flag as it is written.
pub data Word : Type 0 where
  positional final malformed : Word
  plain : Bytes → Word
  assigned : Bytes → Bytes → Word

name_of : Bytes → Bytes → Word
name_of acc [] = plain acc
name_of acc (c ∷ s) =
    let more = name_of (acc ++ (c ∷ [])) s in if c == b'=' then assigned acc s else more

flag_word : Bytes → Word
unfolding name_of
flag_word [] = malformed
flag_word (c ∷ s) = if c == b'-' || c == b'=' then malformed else name_of (c ∷ []) s

-- How `parseOne` reads an argument.
unfoldable pub word_of : Bytes → Word
unfolding flag_word
word_of (a ∷ b ∷ s) =
    if not (a == b'-')
    then positional
    else if b == b'-'
    then (if is_empty s then final else flag_word s)
    else flag_word (b ∷ s)
word_of _ = positional

-- What one argument does: it ends the flags, and is left or not; it is an error; it sets a value;
-- or it names a flag whose value is the next argument.
pub data Turn : Type 0 where
  stop done fail : Turn
  proceed : Settings → Turn
  await : Bytes → Turn

-- What `flag.FlagSet.Parse` gives: the arguments that are left, none where there is an error.
abbrev pub Left : Type 0
Left = Option (Settings × List Bytes)

on_value : (Settings → Left) → Option Settings → Left
on_value go none = none
on_value go (some o) = go o

on_turn : (Option Bytes → Settings → Left) → Bytes → List Bytes → Settings → Turn → Left
on_turn go arg rest o stop = some (o, arg ∷ rest)
on_turn go arg rest o done = some (o, rest)
on_turn go arg rest o fail = none
on_turn go arg rest o (proceed p) = go none p
on_turn go arg rest o (await flag) = go (some flag) o

-- What `parseTarget` returns; `unfinished` is left over where the fuel runs out.
pub data Parsed : Type 0 where
  parsed : Settings → Bytes → Parsed
  flag_error unfinished : Parsed
  extra_argument : Bytes → Parsed

-- `strconv.ParseInt` and `time.ParseDuration`, none where they fail.
pub record Numbers : Type 0 where
  pub parse_int : Bytes → Option ℕ
  pub parse_duration : Bytes → Option ℕ

module _ (numbers : Numbers) where
  with_switch : Bytes → Settings → Bool → Settings
  unfolding equal
  with_switch flag o b =
      if equal flag (codes "no-oauth")
      then record o { no_oauth = b }
      else if equal flag (codes "no-keychain")
      then record o { no_keychain = b }
      else if equal flag (codes "no-sse")
      then record o { no_sse = b }
      else if equal flag (codes "allow-http")
      then record o { allow_http = b }
      else if equal flag (codes "v")
      then record o { verbose = b }
      else if equal flag (codes "all")
      then record o { all = b }
      else record o { dry_run = b }

  with_value : Bytes → Bytes → Settings → Option Settings
  unfolding equal comma_list
  with_value flag v o =
      if equal flag (codes "client-id")
      then some (record o { client_id = v })
      else if equal flag (codes "scopes")
      then some (record o { scopes = comma_list v })
      else if equal flag (codes "callback-port")
      then elim (numbers.parse_int v) [
        | none ↦ none
        | some n ↦ some (record o { callback_port = n })
      ]
      else if equal flag (codes "issuer")
      then some (record o { issuer = v })
      else if equal flag (codes "header")
      then some (record o { headers = o.headers ++ (v ∷ []) })
      else if equal flag (codes "bearer-env")
      then some (record o { bearer_env = v })
      else if equal flag (codes "timeout")
      then elim (numbers.parse_duration v) [
        | none ↦ none
        | some n ↦ some (record o { timeout = n })
      ]
      else if equal flag (codes "client")
      then some (record o { client = v })
      else some (record o { name = v })

  set_switch : Bytes → Settings → Option Bool → Turn
  unfolding with_switch
  set_switch flag o none = fail
  set_switch flag o (some b) = proceed (with_switch flag o b)

  set_value : Option Settings → Turn
  set_value none = fail
  set_value (some o) = proceed o

  plain_turn : Bytes → Settings → Kind → Turn
  unfolding with_switch
  plain_turn flag o unknown = fail
  plain_turn flag o switch = proceed (with_switch flag o true)
  plain_turn flag o valued = await flag

  assigned_turn : Bytes → Bytes → Settings → Kind → Turn
  unfolding set_switch parse_bool set_value with_value
  assigned_turn flag v o unknown = fail
  assigned_turn flag v o switch = set_switch flag o (parse_bool v)
  assigned_turn flag v o valued = set_value (with_value flag v o)

  module _ (command : Command) where
    turn_of : Settings → Word → Turn
    unfolding plain_turn assigned_turn kind_of
    turn_of o positional = stop
    turn_of o final = done
    turn_of o malformed = fail
    turn_of o (plain flag) = plain_turn flag o (kind_of command flag)
    turn_of o (assigned flag v) = assigned_turn flag v o (kind_of command flag)

    -- `flag.FlagSet.Parse`. A flag that waits for its value comes first.
    unfoldable pub parse_from : Option Bytes → List Bytes → Settings → Left
    unfolding word_of turn_of on_value on_turn
    parse_from (some flag) [] o = none
    parse_from (some flag) (v ∷ rest) o =
        on_value (λ q. parse_from none rest q) (with_value flag v o)
    parse_from none [] o = some (o, [])
    parse_from none (arg ∷ rest) o =
        on_turn (λ p q. parse_from p rest q) arg rest o (turn_of o (word_of arg))

    -- One pass of the loop, behind `fs.Parse`.
    after_parse : (Settings → Bytes → List Bytes → Parsed) → Bytes → Left → Parsed
    after_parse go target none = flag_error
    after_parse go target (some (o, [])) = parsed o target
    after_parse go target (some (o, t ∷ rest)) =
        if not (is_empty target) then extra_argument t else go o t rest

    unfoldable pub target_from : ℕ → Settings → Bytes → List Bytes → Parsed
    unfolding after_parse parse_from
    target_from zero o target args = unfinished
    target_from (suc n) o target args = after_parse (target_from n) target (parse_from none args o)

    -- `parseTarget`: every pass takes an argument off.
    unfoldable pub parse_target : List Bytes → Parsed
    unfolding target_from
    parse_target args = target_from (suc (length args)) defaults [] args
