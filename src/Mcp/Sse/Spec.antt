-- ===== src/Mcp/Sse/Spec.antt =====
-- `Next` and its callers' loop against what a stream means, line by line.
use mathlib.Core.List.{append_assoc}
use mcpurl.Prelude.{
  ℕ, zero, suc, ◌<◌, ◌≤◌, ◌≡◌, refl, ◌∙◌, Bool, true, false, [], ◌∷◌, ◌++◌, Option, none, some,
  ◌==◌, if◌then◌else◌, arith, inl, inr, Bool-cases,
}
use mcpurl.Prelude.Bytes.{Bytes, codes, equal, has_byte}
use mcpurl.Prelude.Lists.{length}
use mcpurl.Mcp.Sse.{
  Stream, ReadErr, eof, failed, Reader, Read, got, stop, read_line, split_field, Progress, done,
  more, take_field, take_line, Next, event, over, no_fuel, at_end, after_line, after_read,
  next_from, next, Drained, drained, drain_from, read_events,
}
use mcpurl.Mcp.Sse.Lines.{lines, end_of, Takes, read_line-Takes}
use mcpurl.Mcp.Sse.Meaning.{field_line, kind, joined, prepend, dispatch_line, dispatch, meaning}

abbrev pub meaning_from : Reader → Option Bytes → Drained
meaning_from r p = dispatch (lines r.stream) (end_of r.stream.broken) p r.last_id

abbrev pending : Bytes → Bool → Option Bytes
pending b true = some b
pending b false = none

-- While no data line was seen, the buffer is empty.
abbrev Fresh : Bytes → Bool → Type 0
Fresh buf true = Unit
Fresh buf false = buf ≡ []

-- What a turn of the loop on one line has done.
abbrev Advances : Reader → Drained → Progress → Type 0
Advances r d (done e r') = (r'.stream ≡ r.stream) × (d ≡ prepend e (meaning_from r' none))
Advances r d (more buf found r') =
    (r'.stream ≡ r.stream) × Fresh buf found × (d ≡ meaning_from r' (pending buf found))

add_data :
    (buf value : Bytes) (found : Bool)
    → Fresh buf found
    → (if found then buf ++ (b'\n' ∷ []) else buf) ++ value ≡ joined (pending buf found) value
add_data buf value true f = append_assoc buf (b'\n' ∷ []) value
add_data buf value false f = rw f

take_field-Advances :
    (name value buf : Bytes) (found : Bool) (r : Reader)
    → Fresh buf found
    → Advances r
        (dispatch_line
          (field_line (name, value))
          (pending buf found)
          r.last_id
          (dispatch (lines r.stream) (end_of r.stream.broken)))
        (take_field name value buf found r)
unfolding take_field field_line dispatch_line
take_field-Advances name value buf found r f = elim (Bool-cases (equal name (codes "data"))) [
  | inl is_data ↦ rw is_data (refl, tt, rw (add_data buf value found f))
  | inr not_data ↦ rw not_data (elim (Bool-cases (equal name (codes "id"))) [
    | inl is_id ↦ rw is_id (elim (Bool-cases (has_byte 0 value)) [
      | inl nul ↦ rw nul (refl, f, refl)
      | inr plain ↦ rw plain (refl, f, refl)
    ])
    | inr other ↦ rw other (refl, f, refl)
  ])
]

take_line-Advances :
    (l buf : Bytes) (found : Bool) (r : Reader)
    → Fresh buf found
    → Advances r
        (dispatch_line
          (kind l)
          (pending buf found)
          r.last_id
          (dispatch (lines r.stream) (end_of r.stream.broken)))
        (take_line l buf found r)
unfolding take_line kind dispatch_line
take_line-Advances [] buf true r f = (refl, refl)
take_line-Advances [] buf false r f = (refl, f, refl)
take_line-Advances (c ∷ l) buf found r f = elim (Bool-cases (c == b':')) [
  | inl comment ↦ rw comment (refl, f, refl)
  | inr field ↦
      rw field (take_field-Advances (split_field (c ∷ l)).0 (split_field (c ∷ l)).1 buf found r f)
]

-- What a call of `Next` has done.
abbrev Delivers : Reader → Bool → Drained → Next → Type 0
Delivers r found d (event e r') =
    (d ≡ prepend e (meaning_from r' none))
    × (length r'.stream.bytes ≤ length r.stream.bytes)
    × (found ≡ false → length r'.stream.bytes < length r.stream.bytes)
Delivers r found d (over e r') = d ≡ record { events = []; last_id = r'.last_id; end = e }
Delivers r found d no_fuel = ⊥

at_end-Delivers :
    (e : ReadErr) (buf : Bytes) (found : Bool) (r : Reader)
    → lines r.stream ≡ []
    → e ≡ end_of r.stream.broken
    → Delivers r found (meaning_from r (pending buf found)) (at_end e buf found r)
unfolding at_end dispatch
at_end-Delivers eof buf true r h k = (rw (h, ← k), omega arith, λ t. cc)
at_end-Delivers eof buf false r h k = rw (h, ← k)
at_end-Delivers failed buf true r h k = rw (h, ← k)
at_end-Delivers failed buf false r h k = rw (h, ← k)

-- The call `loop` of the next turn keeps its promise on a shorter stream.
abbrev Loop : (Bytes → Bool → Reader → Next) → ℕ → Type 0
Loop loop n =
    (buf : Bytes) (found : Bool) (r : Reader)
    → Fresh buf found
    → length r.stream.bytes < n
    → Delivers r found (meaning_from r (pending buf found)) (loop buf found r)

weaken :
    (r r' : Reader) (found found' : Bool) (d d' : Drained) (n : Next)
    → length r'.stream.bytes < length r.stream.bytes
    → d ≡ d'
    → Delivers r' found' d' n
    → Delivers r found d n
weaken r r' found found' d d' (event e r'') lt q (h, le, _) = (q ∙ h, omega arith, λ _. omega arith)
weaken r r' found found' d d' (over e r'') lt q h = q ∙ h
weaken r r' found found' d d' no_fuel lt q h = h

after_line-Delivers :
    (loop : Bytes → Bool → Reader → Next) (found : Bool) (r s : Reader) (d : Drained) (p : Progress)
    → Loop loop (length r.stream.bytes)
    → length s.stream.bytes < length r.stream.bytes
    → Advances s d p
    → Delivers r found d (after_line loop p)
after_line-Delivers loop found r s d (done e r') go lt (same, q) =
    (q, rw same (omega arith), λ _. rw same lt)
after_line-Delivers loop found r s d (more buf' found' r') go lt (same, f, q) =
    let shorter : length r'.stream.bytes < length r.stream.bytes = rw same lt in
    weaken r r' found found' d _ (loop buf' found' r') shorter q (go buf' found' r' f shorter)

after_read-Delivers :
    (loop : Bytes → Bool → Reader → Next) (buf : Bytes) (found : Bool) (r : Reader) (rd : Read)
    → Loop loop (length r.stream.bytes)
    → Fresh buf found
    → Takes r.stream rd
    → Delivers r found (meaning_from r (pending buf found)) (after_read loop buf found r rd)
unfolding after_read dispatch
after_read-Delivers loop buf found r (stop e) go f (h, k) = at_end-Delivers e buf found r h k
after_read-Delivers loop buf found r (got l s) go f (h, b, lt) =
    after_line-Delivers loop found r (record r { stream = s }) _
      (take_line l buf found (record r { stream = s })) go lt
      (rw (h, ← b) (take_line-Advances l buf found (record r { stream = s }) f))

next_from-Delivers : (fuel : ℕ) → Loop (next_from fuel) fuel
unfolding next_from
next_from-Delivers zero buf found r f lt = absurd (omega arith)
next_from-Delivers (suc fuel) buf found r f lt =
    after_read-Delivers (next_from fuel) buf found r (read_line r.stream)
      (λ b g r' f' lt'. next_from-Delivers fuel b g r' f' (omega arith)) f
      (read_line-Takes r.stream)

drained-meaning :
    (rounds fuel : ℕ) (r : Reader) (n : Next)
    → ((r' : Reader)
        → length r'.stream.bytes < length r.stream.bytes
        → drain_from rounds fuel r' ≡ some (meaning_from r' none))
    → Delivers r false (meaning_from r none) n
    → drained (drain_from rounds fuel) n ≡ some (meaning_from r none)
drained-meaning rounds fuel r (event e r') ih (q, _, lt) = rw (ih r' (lt refl), q)
drained-meaning rounds fuel r (over e r') ih q = rw q
drained-meaning rounds fuel r no_fuel ih h = absurd h

-- Where both bounds exceed the number of bytes left, the loop around
-- `Next` ends and returns the events, the last id and the kind of end that the lines of the
-- stream mean.
drain_from-meaning_from :
    (rounds fuel : ℕ) (r : Reader)
    → length r.stream.bytes < rounds
    → length r.stream.bytes < fuel
    → drain_from rounds fuel r ≡ some (meaning_from r none)
unfolding drain_from next
drain_from-meaning_from zero fuel r lr lf = absurd (omega arith)
drain_from-meaning_from (suc rounds) fuel r lr lf =
    drained-meaning rounds fuel r (next_from fuel [] false r)
      (λ r' lt. drain_from-meaning_from rounds fuel r' (omega arith) (omega arith))
      (next_from-Delivers fuel [] false r refl lf)

-- Reading a body to its end terminates, and returns the events, the last id and the kind of end
-- that the body's lines mean.
pub read_events-meaning : (s : Stream) → read_events s ≡ some (meaning s)
unfolding read_events
read_events-meaning s =
    drain_from-meaning_from (suc (length s.bytes)) (suc (length s.bytes))
      (record { stream = s; last_id = [] }) (omega arith) (omega arith)
