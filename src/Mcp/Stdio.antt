-- ===== src/Mcp/Stdio.antt =====
-- pkg/mcp/bridge.go: the bytes of stdin and stdout around the bridge. `bufio` hands the bytes of
-- stdin on unchanged.
pub mod Frames
use mcpurl.Prelude.{
  ℕ, Bool, true, false, List, [], ◌∷◌, ◌++◌, Option, none, some, ◌==◌, if◌then◌else◌, map,
}
use mcpurl.Prelude.Bytes.{Bytes, codes, is_empty}
use mcpurl.Prelude.Space.{trim_space}
use mcpurl.Mcp.Sse.{Stream}
use mcpurl.Mcp.Client.{Peer, Failure, http}
use mcpurl.Mcp.Client.Summary.{Texts, error_text}
use mcpurl.Mcp.Bridge.{Codec, Output, message, error_reply, Bridge, run_from}

-- A byte more at the front of a text that was split at its newlines into a first line and the others.
abbrev pub split_at_byte : ℕ → Bytes × List Bytes → Bytes × List Bytes
split_at_byte c (first, others) = if c == b'\n' then ([], first ∷ others) else (c ∷ first, others)

unfoldable pub split_from : Bytes → Bytes × List Bytes
split_from [] = ([], [])
split_from (c ∷ s) = split_at_byte c (split_from s)

-- The bytes up to each newline, and those behind the last.
unfoldable pub split_lines : Bytes → List Bytes
unfolding split_from
split_lines s = let (first, others) = split_from s in first ∷ others

unfoldable pub non_empty : List Bytes → List Bytes
non_empty [] = []
non_empty (s ∷ l) = let rest = non_empty l in if is_empty s then rest else s ∷ rest

-- `readLine` until the end, and the lines that `readLines` hands on; the last one needs no newline.
unfoldable pub read_lines : Bytes → List Bytes
unfolding split_lines non_empty trim_space
read_lines s = non_empty (map trim_space (split_lines s))

-- `writeOut` for each of some texts.
unfoldable pub written : List Bytes → Bytes
written [] = []
written (t ∷ l) = t ++ (b'\n' ∷ written l)

-- json.Marshal of the reply with an id and an error's text, none where it fails, and the texts of the
-- errors that are not an `HTTPError`.
pub record Replies : Type 0 where
  pub texts : Texts
  pub marshal : Bytes → Bytes → Option Bytes
  pub other : Failure → Bytes

module _ (r : Replies) where
  -- `cause.Error()`
  unfoldable pub cause_text : Failure → Bytes
  unfolding error_text
  cause_text (http e) = error_text r.texts e
  cause_text f = r.other f

  -- What `writeOut` is given, if anything.
  unfoldable pub text_of : Output → Option Bytes
  unfolding cause_text
  text_of (message m) = some m
  text_of (error_reply id f) = r.marshal id (cause_text f)

  abbrev pub with_text : Option Bytes → List Bytes → List Bytes
  with_text none l = l
  with_text (some t) l = t ∷ l

  unfoldable pub texts_of : List Output → List Bytes
  unfolding text_of
  texts_of [] = []
  texts_of (o ∷ l) = with_text (text_of o) (texts_of l)

  -- How `Run` ends: with the error of the handshake, with a read error of stdin, or well.
  pub data Ended : Type 0 where
    well stdin_failed : Ended
    handshake_failed : Failure → Ended

  ended : Bool → Option Failure → Ended
  ended broken (some f) = handshake_failed f
  ended true none = stdin_failed
  ended false none = well

  -- `Run` from the bytes of stdin to those of stdout, for the messages one after another.
  unfoldable pub run_stdio :
      (peer : Peer)
      → (codec : Codec) → Stream
      → Bridge peer codec
      → Ended × (Bytes × Bridge peer codec)
  unfolding read_lines texts_of written ended
  run_stdio peer codec input b =
      let (f, c) = run_from peer codec (read_lines input.bytes) false b in
      (ended input.broken f, (written (texts_of c.out), c))
