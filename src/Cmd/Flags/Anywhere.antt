-- ===== src/Cmd/Flags/Anywhere.antt =====
-- `parseTarget` comes to an end, and takes the target anywhere among the flags.
use mcpurl.Prelude.{
  ℕ, zero, suc, ◌+◌, ◌≡◌, ◌≤◌, ◌<◌, refl, sym, ap, ◌∙◌, not, List, [], ◌∷◌, ◌++◌, Option, none,
  some, arith, if_both,
}
use mcpurl.Prelude.Bytes.{Bytes, is_empty}
use mcpurl.Prelude.Lists.{length, length-append}
use mcpurl.Cmd.Settings.{Settings, Command, defaults}
use mcpurl.Cmd.Flags.{
  Numbers, positional, word_of, Turn, stop, done, fail, proceed, await, turn_of, Left, on_value,
  on_turn, with_value, parse_from, Parsed, parsed, unfinished, after_parse, target_from,
  parse_target,
}

-- What is left is not longer than what was given.
abbrev Shorter : List Bytes → Left → Type 0
Shorter args none = Unit {0}
Shorter args (some (o, rest)) = length rest ≤ length args

Shorter-more :
    (arg : Bytes) (args : List Bytes) (l : Left) → Shorter args l → Shorter (arg ∷ args) l
Shorter-more arg args none h = tt
Shorter-more arg args (some (o, rest)) h = omega arith

on_value-Shorter :
    (go : Settings → Left) (args : List Bytes) (v : Option Settings)
    → ((o : Settings) → Shorter args (go o))
    → Shorter args (on_value go v)
unfolding on_value
on_value-Shorter go args none h = tt
on_value-Shorter go args (some o) h = h o

on_turn-Shorter :
    (go : Option Bytes → Settings → Left) (arg : Bytes) (rest : List Bytes) (o : Settings)
    (t : Turn)
    → ((p : Option Bytes) (q : Settings) → Shorter (arg ∷ rest) (go p q))
    → Shorter (arg ∷ rest) (on_turn go arg rest o t)
unfolding on_turn
on_turn-Shorter go arg rest o stop h = omega arith
on_turn-Shorter go arg rest o done h = omega arith
on_turn-Shorter go arg rest o fail h = tt
on_turn-Shorter go arg rest o (proceed p) h = h none p
on_turn-Shorter go arg rest o (await flag) h = h (some flag) o

-- Flags that are used up, and then a target with what is behind it.
abbrev Passed : Bytes → List Bytes → Left → Left → Type 0
Passed t more l r = (q : Settings) → l ≡ some (q, []) → r ≡ some (q, t ∷ more)

on_value-Passed :
    (t : Bytes) (more : List Bytes) (f g : Settings → Left) (v : Option Settings)
    → ((o : Settings) → Passed t more (f o) (g o))
    → Passed t more (on_value f v) (on_value g v)
unfolding on_value
on_value-Passed t more f g none h = λ q e. absurd (ground (arith, e))
on_value-Passed t more f g (some o) h = h o

pair_in : Settings → Left → Settings × List Bytes
pair_in o none = (o, [])
pair_in o (some r) = r

-- The settings are the same when a target is behind.
passed :
    (t : Bytes) (more : List Bytes) (o q : Settings) (rest : List Bytes) (l : Left)
    → l ≡ some (o, rest)
    → l ≡ some (q, [])
    → ◌≡◌ {A = Left} (some (o, rest ++ (t ∷ more))) (some (q, t ∷ more))
unfolding pair_in
passed t more o q rest l e f =
    ap (λ (x : Settings × List Bytes). some (x.0, x.1 ++ (t ∷ more))) (ap (pair_in o) (sym e ∙ f))

on_turn-Passed :
    (t arg : Bytes) (rest more : List Bytes) (o : Settings) (f g : Option Bytes → Settings → Left)
    (w : Turn)
    → ((p : Option Bytes) (q : Settings) → Passed t more (f p q) (g p q))
    → Passed t more (on_turn f arg rest o w) (on_turn g arg (rest ++ (t ∷ more)) o w)
unfolding on_turn pair_in
on_turn-Passed t arg rest more o f g stop h =
    λ q e. absurd (omega (arith, ap (λ (l : Left). length (pair_in o l).1) e))
on_turn-Passed t arg rest more o f g done h = λ q e. passed t more o q rest (some (o, rest)) refl e
on_turn-Passed t arg rest more o f g fail h = λ q e. absurd (ground (arith, e))
on_turn-Passed t arg rest more o f g (proceed p) h = h none p
on_turn-Passed t arg rest more o f g (await flag) h = h (some flag) o

-- The fuel did not run out.
abbrev pub IsFinished : Parsed → Type 0
IsFinished unfinished = ⊥
IsFinished p = Unit {0}

module _ (numbers : Numbers) (command : Command) where
  parse_from-Shorter :
      (p : Option Bytes) (args : List Bytes) (o : Settings)
      → Shorter args (parse_from numbers command p args o)
  unfolding parse_from
  parse_from-Shorter (some flag) [] o = tt
  parse_from-Shorter (some flag) (v ∷ rest) o =
      on_value-Shorter (λ q. parse_from numbers command none rest q) (v ∷ rest)
        (with_value numbers flag v o) λ q. Shorter-more v rest _ (parse_from-Shorter none rest q)
  parse_from-Shorter none [] o = omega arith
  parse_from-Shorter none (arg ∷ rest) o =
      on_turn-Shorter (λ p q. parse_from numbers command p rest q) arg rest o
        (turn_of numbers command o (word_of arg))
        λ p q. Shorter-more arg rest _ (parse_from-Shorter p rest q)

  -- A target behind flags that are used up is what is left.
  parse_from-Passed :
      (t : Bytes) (more : List Bytes)
      → word_of t ≡ positional
      → (p : Option Bytes) (args : List Bytes) (o : Settings)
      → Passed t more
          (parse_from numbers command p args o)
          (parse_from numbers command p (args ++ (t ∷ more)) o)
  unfolding parse_from turn_of on_turn
  parse_from-Passed t more w (some flag) [] o = λ q e. absurd (ground (arith, e))
  parse_from-Passed t more w (some flag) (v ∷ rest) o =
      on_value-Passed t more (λ q. parse_from numbers command none rest q)
        (λ q. parse_from numbers command none (rest ++ (t ∷ more)) q) (with_value numbers flag v o)
        (parse_from-Passed t more w none rest)
  parse_from-Passed t more w none [] o = λ q e.
      ap
        (λ w'.
          on_turn (λ p r. parse_from numbers command p more r) t more o
            (turn_of numbers command o w'))
        w
      ∙ passed t more o q [] (some (o, [])) refl e
  parse_from-Passed t more w none (arg ∷ rest) o =
      on_turn-Passed t arg rest more o (λ p q. parse_from numbers command p rest q)
        (λ p q. parse_from numbers command p (rest ++ (t ∷ more)) q)
        (turn_of numbers command o (word_of arg)) λ p q. parse_from-Passed t more w p rest q

  after_parse-IsFinished :
      (n : ℕ) (target : Bytes) (args : List Bytes) (l : Left)
      → Shorter args l
      → ((o : Settings) (t : Bytes) (rest : List Bytes)
          → length rest < length args
          → IsFinished (target_from numbers command n o t rest))
      → IsFinished (after_parse numbers command (target_from numbers command n) target l)
  unfolding after_parse
  after_parse-IsFinished n target args none h k = tt
  after_parse-IsFinished n target args (some (o, [])) h k = tt
  after_parse-IsFinished n target args (some (o, t ∷ rest)) h k =
      if_both IsFinished (not (is_empty target)) tt (k o t rest (omega arith))

  target_from-IsFinished :
      (n : ℕ) (o : Settings) (target : Bytes) (args : List Bytes)
      → length args < n
      → IsFinished (target_from numbers command n o target args)
  unfolding target_from
  target_from-IsFinished zero o target args h = absurd (omega arith)
  target_from-IsFinished (suc n) o target args h =
      after_parse-IsFinished n target args (parse_from numbers command none args o)
        (parse_from-Shorter none args o)
        λ p t rest less. target_from-IsFinished n p t rest (omega arith)

  -- The loop of parseTarget comes to an end, whatever the arguments.
  pub parse_target-IsFinished : (args : List Bytes) → IsFinished (parse_target numbers command args)
  unfolding parse_target
  parse_target-IsFinished args =
      target_from-IsFinished (suc (length args)) defaults [] args (omega arith)

  target_from-last :
      (n : ℕ) (o q : Settings) (c : ℕ) (t : Bytes) (args : List Bytes)
      → parse_from numbers command none args o ≡ some (q, [])
      → target_from numbers command (suc n) o (c ∷ t) args ≡ parsed q (c ∷ t)
  unfolding target_from after_parse
  target_from-last n o q c t args e = rw e refl

  target_from-first :
      (n : ℕ) (o q : Settings) (t : Bytes) (args rest : List Bytes)
      → parse_from numbers command none args o ≡ some (q, t ∷ rest)
      → target_from numbers command (suc n) o [] args ≡ target_from numbers command n q t rest
  unfolding target_from after_parse
  target_from-first n o q t args rest e = rw e refl

  -- A target that is not written like a flag may stand anywhere: behind flags that are read to
  -- their end and before flags that are, parseTarget gives it with what all these flags set, in
  -- their order.
  pub parse_target-anywhere :
      (c : ℕ) (t : Bytes) (before after : List Bytes) (o q : Settings)
      → word_of (c ∷ t) ≡ positional
      → parse_from numbers command none before defaults ≡ some (o, [])
      → parse_from numbers command none after o ≡ some (q, [])
      → parse_target numbers command (before ++ ((c ∷ t) ∷ after)) ≡ parsed q (c ∷ t)
  unfolding parse_target
  parse_target-anywhere c t before after o q w e f =
      let args = before ++ ((c ∷ t) ∷ after) in
      target_from-first (length args) defaults o (c ∷ t) args after
        (parse_from-Passed (c ∷ t) after w none before defaults o e)
      ∙ ap (λ n. target_from numbers command n o (c ∷ t) after)
          (length-append before ((c ∷ t) ∷ after) ∙ counted)
      ∙ target_from-last (length before + length after) o q c t after f
    where
      counted : length before + length ((c ∷ t) ∷ after) ≡ suc (length before + length after)
      counted = omega arith
