-- ===== src/Redact.antt =====
-- pkg/redact/redact.go: JWT-shaped runs are replaced by a marker. The regular expression
-- `eyJ[\w-]{8,}(?:\.[\w-]+)+` is written out: a run of word bytes ends before a dot, so the
-- leftmost-first match takes the whole run and then every segment that follows.
pub mod Clean
mod Tests
use mcpurl.Prelude.{
  ℕ, zero, suc, ◌+◌, Bool, true, false, ◌&&◌, ◌||◌, not, [], ◌∷◌, ◌++◌, leb, ◌==◌, if◌then◌else◌,
}
use mcpurl.Prelude.Bytes.{Bytes, codes, has_prefix}

-- `[\w-]`
unfoldable pub is_word : ℕ → Bool
is_word c =
    leb b'a' c && leb c b'z'
    || leb b'A' c && leb c b'Z'
    || leb b'0' c && leb c b'9'
    || c == b'_'
    || c == b'-'

abbrev word_at : Bytes → Bool
word_at [] = false
word_at (c ∷ s) = is_word c

-- How many word bytes stand at the front.
run_length : Bytes → ℕ
run_length [] = 0
run_length (c ∷ s) = let rest = suc (run_length s) in if is_word c then rest else 0

-- Behind the run comes a dot and a word byte.
run_dotted : Bytes → Bool
run_dotted [] = false
run_dotted (c ∷ s) = let rest = run_dotted s in if is_word c then rest else c == b'.' && word_at s

-- How many bytes of word runs, joined by single dots, stand at the front.
dotted_length : Bytes → ℕ
dotted_length [] = 0
dotted_length (c ∷ s) =
    let rest = suc (dotted_length s) in if is_word c || c == b'.' && word_at s then rest else 0

-- `[\w-]{8,}(?:\.[\w-]+)+` at the front.
is_tail : Bytes → Bool
is_tail s = leb 8 (run_length s) && run_dotted s

-- The length of the match at the front, 0 where there is none.
unfoldable pub match_length : Bytes → ℕ
unfolding is_word run_length run_dotted dotted_length is_tail
match_length (a ∷ b ∷ c ∷ s) =
    if a == b'e' && b == b'y' && c == b'J' && is_tail s then suc (2 + dotted_length s) else 0
match_length _ = 0

abbrev pub marker : Bytes
marker = codes "[redacted JWT]"

-- One byte is kept, or a match is replaced; `rest` goes on after so many bytes.
abbrev pub replace_at : (ℕ → Bytes) → ℕ → ℕ → Bytes
replace_at rest c zero = c ∷ rest zero
replace_at rest c (suc k) = marker ++ rest k

-- `ReplaceAllString`. The first number counts the bytes of a match that are still to be dropped.
unfoldable pub replace_from : ℕ → Bytes → Bytes
unfolding match_length
replace_from k [] = []
replace_from (suc k) (c ∷ s) = replace_from k s
replace_from zero (c ∷ s) = replace_at (λ k. replace_from k s) c (match_length (c ∷ s))

-- `strings.Contains(s, "eyJ")`
unfoldable pub has_mark : Bytes → Bool
has_mark (a ∷ b ∷ c ∷ s) = (a == b'e' && b == b'y' && c == b'J') || has_mark (b ∷ c ∷ s)
has_mark _ = false

unfoldable pub tokens : Bytes → Bytes
unfolding replace_from has_mark
tokens s = if not (has_mark s) then s else replace_from 0 s
