-- ===== src/Mcp/Sse/Meaning.antt =====
-- What a stream means, line by line, by itself and for streams as servers write them.
use mcpurl.Prelude.{◌≡◌, refl, false, List, [], ◌∷◌, ◌++◌, Option, none, some, ◌==◌, if◌then◌else◌}
use mcpurl.Prelude.Bytes.{Bytes, codes, equal, has_byte}
use mcpurl.Mcp.Sse.{Event, Stream, ReadErr, eof, split_field, Drained}
use mcpurl.Mcp.Sse.Lines.{chop, lines, end_of}

pub data Line : Type 0 where
  blank ignored : Line
  data_line id_line : Bytes → Line

unfoldable pub field_line : Bytes × Bytes → Line
field_line (name, value) =
    if equal name (codes "data")
    then data_line value
    else if equal name (codes "id")
    then (if has_byte 0 value then ignored else id_line value)
    else ignored

-- An id with a NUL in it is ignored, as comments and all other fields are.
unfoldable pub kind : Bytes → Line
unfolding field_line
kind [] = blank
kind (c ∷ l) = if c == b':' then ignored else field_line (split_field (c ∷ l))

abbrev pub joined : Option Bytes → Bytes → Bytes
joined none v = v
joined (some b) v = b ++ (b'\n' ∷ v)

abbrev pub prepend : Event → Drained → Drained
prepend e d = record d { events = e ∷ d.events }

-- One line, with what the rest of the stream makes of the data so far and of the last id.
unfoldable pub dispatch_line :
    Line → Option Bytes → Bytes → (Option Bytes → Bytes → Drained) → Drained
dispatch_line blank none id rest = rest none id
dispatch_line blank (some b) id rest = prepend (record { id = id; payload = b }) (rest none id)
dispatch_line ignored p id rest = rest p id
dispatch_line (data_line v) p id rest = rest (some (joined p v)) id
dispatch_line (id_line v) p id rest = rest p v

-- A stream that ends in good order delivers the event that it leaves open, a broken one does not.
unfoldable pub at_stop : ReadErr → Option Bytes → Bytes → Drained
at_stop eof (some b) id = record {
  events = record { id = id; payload = b } ∷ [];
  last_id = id;
  end = eof;
}
at_stop e p id = record { events = []; last_id = id; end = e }

-- The events of a list of lines.
unfoldable pub dispatch : List Bytes → ReadErr → Option Bytes → Bytes → Drained
unfolding dispatch_line at_stop
dispatch [] e p id = at_stop e p id
dispatch (l ∷ ls) e p id = dispatch_line (kind l) p id (dispatch ls e)

pub dispatch_end :
    (id : Bytes)
    → dispatch (lines (record { bytes = []; broken = false })) eof none id
      ≡ record { events = []; last_id = id; end = eof }
unfolding dispatch chop
dispatch_end id = refl

pub dispatch-blank :
    (ls : List Bytes) (b id : Bytes)
    → dispatch ([] ∷ ls) eof (some b) id
      ≡ prepend (record { id = id; payload = b }) (dispatch ls eof none id)
unfolding dispatch kind
dispatch-blank ls b id = refl

pub dispatch-data :
    (v : Bytes) (ls : List Bytes) (p : Option Bytes) (id : Bytes)
    → dispatch ((codes "data: " ++ v) ∷ ls) eof p id ≡ dispatch ls eof (some (joined p v)) id
unfolding dispatch kind split_field equal
dispatch-data v ls p id = refl

pub dispatch-id :
    (v : Bytes) (ls : List Bytes) (p : Option Bytes) (id : Bytes)
    → has_byte 0 v ≡ false
    → dispatch ((codes "id: " ++ v) ∷ ls) eof p id ≡ dispatch ls eof p v
unfolding dispatch kind split_field equal
dispatch-id v ls p id h = rw h

abbrev pub meaning : Stream → Drained
meaning s = dispatch (lines s) (end_of s.broken) none []
