-- ===== src/Mcp/Stdio/Frames.antt =====
-- The lines of stdout are what was written, and those of stdin what the client wrote.
use mathlib.Core.List.{append_assoc, append-nil}
use mcpurl.Prelude.{
  ℕ, ◌≡◌, refl, ap, ◌∙◌, false, List, [], ◌∷◌, ◌++◌, Option, none, some, ◌==◌, map, arith, subst,
}
use mcpurl.Prelude.Bytes.{Bytes, has_byte, OneLine}
use mcpurl.Prelude.Lists.{All}
use mcpurl.Prelude.Space.{trim_space}
use mcpurl.Mcp.Sse.{Stream}
use mcpurl.Mcp.Client.{Peer, Failure}
use mcpurl.Mcp.Bridge.{Codec, Output, message, error_reply, Bridge, run_from}
use mcpurl.Mcp.Bridge.Replies.{IsLine, Lined}
use mcpurl.Mcp.Bridge.Stdout.{run_lines-Lined}
use mcpurl.Mcp.Stdio.{
  split_at_byte, split_from, split_lines, non_empty, read_lines, Replies, cause_text, text_of,
  with_text, texts_of, written, run_stdio,
}

first-OneLine : (c : ℕ) (t : Bytes) → OneLine (c ∷ t) → (c == b'\n') ≡ false
unfolding has_byte
first-OneLine c t h = ground arith

split-line : (t s : Bytes) → OneLine t → split_from (t ++ (b'\n' ∷ s)) ≡ (t, split_lines s)
unfolding split_from split_lines has_byte
split-line [] s h = refl
split-line (c ∷ t) s h =
    ap (split_at_byte c) (split-line t s (ground arith)) ∙ rw (first-OneLine c t h) refl

split-last : (t : Bytes) → OneLine t → split_from t ≡ (t, [])
unfolding split_from has_byte
split-last [] h = refl
split-last (c ∷ t) h =
    ap (split_at_byte c) (split-last t (ground arith)) ∙ rw (first-OneLine c t h) refl

-- Lines that were written, and a last one without its newline.
split-written :
    (l : List Bytes) (last : Bytes)
    → All OneLine l
    → OneLine last
    → split_lines (written l ++ last) ≡ l ++ (last ∷ [])
unfolding split_lines written
split-written [] last h k = rw (split-last last k) refl
split-written (t ∷ l) last (h, hs) k =
    rw (append_assoc t (b'\n' ∷ written l) last, split-line t (written l ++ last) h)
      (ap (◌∷◌ t) (split-written l last hs k))

-- Stdin is read as its lines without the blanks around them, empty ones left out; the last line
-- needs no newline.
pub read_lines-written :
    (l : List Bytes) (last : Bytes)
    → All OneLine l
    → OneLine last
    → read_lines (written l ++ last) ≡ non_empty (map trim_space (l ++ (last ∷ [])))
unfolding read_lines
read_lines-written l last h k = ap (λ s. non_empty (map trim_space s)) (split-written l last h k)

All-Unit : (l : List Bytes) → All (λ m. Unit {0}) l
All-Unit [] = tt
All-Unit (m ∷ l) = (tt, All-Unit l)

-- Every reply that the library makes is one line.
module _ (r : Replies) (peer : Peer) (codec : Codec)
    (compact : (id text out : Bytes) → r.marshal id text ≡ some out → OneLine out) where
  marshalled :
      (id text : Bytes) (l : List Bytes) (o : Option Bytes)
      → r.marshal id text ≡ o
      → All OneLine l
      → All OneLine (with_text r o l)
  marshalled id text l none e h = h
  marshalled id text l (some out) e h = (compact id text out e, h)

  -- Of replies, nothing is asked here.
  abbrev Any : Bytes → Failure → Type 0
  Any id f = Unit

  texts_of-OneLine :
      (out : List Output) → All (IsLine peer codec Any) out → All OneLine (texts_of r out)
  unfolding texts_of text_of
  texts_of-OneLine [] h = tt
  texts_of-OneLine (message m ∷ out) (k, h) = (k.0, texts_of-OneLine out h)
  texts_of-OneLine (error_reply id f ∷ out) (k, h) =
      marshalled id (cause_text r f) (texts_of r out) (r.marshal id (cause_text r f)) refl
        (texts_of-OneLine out h)

  lines-written : (l : List Bytes) → All OneLine l → split_lines (written l) ≡ l ++ ([] ∷ [])
  unfolding has_byte
  lines-written l h =
      subst (λ s. split_lines s ≡ l ++ ([] ∷ [])) (append-nil (written l))
        (split-written l [] h refl)

  -- Where the library writes each reply on one line: the lines of stdout, each behind the other with
  -- its newline, are the messages and the replies that the run wrote, in this order, whatever bytes
  -- stood on stdin and whatever the server sent.
  pub run_stdio-Framed :
      (input : Stream) (b : Bridge peer codec)
      → Lined peer codec (λ id f. Unit {0}) b
      → split_lines (run_stdio r peer codec input b).1.0
        ≡ texts_of r (run_stdio r peer codec input b).1.1.out ++ ([] ∷ [])
  unfolding run_stdio
  run_stdio-Framed input b h =
      let c = (run_from peer codec (read_lines input.bytes) false b).1 in
      lines-written (texts_of r c.out) (
        texts_of-OneLine c.out (
          run_lines-Lined peer codec (λ m. Unit) Any (λ id f k. tt) (read_lines input.bytes) false b
            (All-Unit (read_lines input.bytes)) h))
