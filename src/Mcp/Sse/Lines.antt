-- ===== src/Mcp/Sse/Lines.antt =====
-- The lines of a stream, described apart from the reader, and `readLine` against them.
use mcpurl.Prelude.{
  ℕ, ◌<◌, ◌≡◌, refl, ap, Bool, true, false, List, [], ◌∷◌, ◌++◌, map, ◌==◌, if◌then◌else◌, arith,
  inl, inr, Bool-cases,
}
use mcpurl.Prelude.Bytes.{Bytes, trim_last}
use mcpurl.Prelude.Lists.{length}
use mcpurl.Mcp.Sse.{Stream, ReadErr, eof, failed, read_bytes, Read, got, stop, read_of, read_line}

pub trim_last-concat : (c : ℕ) (s : Bytes) → trim_last c (s ++ (c ∷ [])) ≡ s
unfolding trim_last
trim_last-concat c [] = ground arith
trim_last-concat c (x ∷ []) = ground arith
trim_last-concat c (x ∷ y ∷ s) = ap (◌∷◌ x) (trim_last-concat c (y ∷ s))

-- The complete lines without their newlines, and what stands behind the last newline.
abbrev push_front : ℕ → List Bytes × Bytes → List Bytes × Bytes
push_front c ([], rem) = ([], c ∷ rem)
push_front c (l ∷ ls, rem) = ((c ∷ l) ∷ ls, rem)

unfoldable pub chop : Bytes → List Bytes × Bytes
chop [] = ([], [])
chop (c ∷ s) =
    let (ls, rem) = chop s in if c == b'\n' then ([] ∷ ls, rem) else push_front c (ls, rem)

-- An incomplete last line counts only where the stream ends in good order.
abbrev last_line : Bool → Bytes → List Bytes
last_line true rem = []
last_line false [] = []
last_line false (c ∷ rem) = trim_last b'\r' (c ∷ rem) ∷ []

abbrev pub lines : Stream → List Bytes
lines s = map (trim_last b'\r') (chop s.bytes).0 ++ last_line s.broken (chop s.bytes).1

abbrev pub end_of : Bool → ReadErr
end_of true = failed
end_of false = eof

-- What `ReadBytes` returns for a text, with a newline and without.
abbrev Chops : Bytes → Bytes × Bytes × Bool → Type 0
Chops s (l, rest, true) =
    (l' : Bytes) × (l ≡ l' ++ (b'\n' ∷ []))
    × (chop s ≡ (l' ∷ (chop rest).0, (chop rest).1))
    × (length rest < length s)
Chops s (l, rest, false) = (l ≡ s) × (rest ≡ []) × (chop s ≡ ([], s)) × (trim_last b'\n' s ≡ s)

trim_last-cons :
    (c x : ℕ) (s : Bytes) → (x == c) ≡ false → trim_last c s ≡ s → trim_last c (x ∷ s) ≡ x ∷ s
unfolding trim_last
trim_last-cons c x [] n h = rw n
trim_last-cons c x (y ∷ s) n h = ap (◌∷◌ x) h

Chops-next :
    (c : ℕ) (s : Bytes) (r : Bytes × Bytes × Bool)
    → Chops s r
    → (c == b'\n') ≡ false
    → Chops (c ∷ s) (c ∷ r.0, r.1, r.2)
unfolding chop
Chops-next c s (l, rest, true) (l', e, ch, lt) n = (c ∷ l', ap (◌∷◌ c) e, rw (n, ch), omega arith)
Chops-next c s (l, rest, false) (e, f, ch, t) n =
    (ap (◌∷◌ c) e, f, rw (n, ch), trim_last-cons b'\n' c s n t)

read_bytes-Chops : (s : Bytes) → Chops s (read_bytes s)
unfolding read_bytes chop trim_last
read_bytes-Chops [] = (refl, refl, refl, refl)
read_bytes-Chops (c ∷ s) = elim (Bool-cases (c == b'\n')) [
  | inl nl ↦ rw nl ([], ground arith, ground arith, omega arith)
  | inr other ↦ rw other (Chops-next c s (read_bytes s) (read_bytes-Chops s) other)
]

-- `readLine` takes the next line off the stream, or reports its end.
abbrev pub Takes : Stream → Read → Type 0
Takes s (got l s') =
    (lines s ≡ l ∷ lines s') × (s'.broken ≡ s.broken) × (length s'.bytes < length s.bytes)
Takes s (stop e) = (lines s ≡ []) × (e ≡ end_of s.broken)

chop-nil : chop [] ≡ ([], [])
unfolding chop
chop-nil = refl

read_of-Takes :
    (s : Bytes) (broken : Bool) (r : Bytes × Bytes × Bool)
    → Chops s r
    → Takes (record { bytes = s; broken = broken }) (read_of broken r)
unfolding read_of
read_of-Takes s broken (l, rest, true) (l', e, ch, lt) =
    (rw (ch, e, trim_last-concat b'\n' l'), refl, lt)
read_of-Takes s true (l, rest, false) (e, f, ch, t) = (rw ch, refl)
read_of-Takes [] false (l, rest, false) (e, f, ch, t) = rw (e, chop-nil) (refl, refl)
read_of-Takes (c ∷ s) false (l, rest, false) (e, f, ch, t) =
    rw (e, f, ch, chop-nil, t) (refl, refl, omega arith)

pub read_line-Takes : (s : Stream) → Takes s (read_line s)
unfolding read_line
read_line-Takes s = read_of-Takes s.bytes s.broken (read_bytes s.bytes) (read_bytes-Chops s.bytes)
