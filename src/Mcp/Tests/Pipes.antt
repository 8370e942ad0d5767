-- ===== src/Mcp/Tests/Pipes.antt =====
-- The bridge between the bytes of stdin and those of stdout.
use mcpurl.Prelude.{◌≡◌, refl, subst, false, [], ◌∷◌, ◌++◌, Option, none, some, map}
use mcpurl.Prelude.Bytes.{Bytes, codes, has_byte, OneLine}
use mcpurl.Prelude.Space.{trim_space}
use mcpurl.Mcp.Sse.{Stream}
use mcpurl.Mcp.Stdio.{non_empty, read_lines, split_lines, Replies, texts_of, written, run_stdio}
use mcpurl.Mcp.Stdio.Frames.{read_lines-written, run_stdio-Framed}
use mcpurl.Mcp.Tests.{scripted, codec, bridge, lines}
use mcpurl.Mcp.Tests.Summaries.{texts}

read_lines-written_example :
    read_lines (written lines ++ codes "  {} ")
    ≡ non_empty (map trim_space (lines ++ (codes "  {} " ∷ [])))
unfolding has_byte
read_lines-written_example =
    read_lines-written lines (codes "  {} ") (refl, (refl, (refl, tt))) refl

abbrev replies : Replies
replies = record {
  texts = texts;
  marshal = λ id text. some (codes "{\"error\":{\"code\":-32603}}");
  other = λ f. codes "failed";
}

text_or : Option Bytes → Bytes
text_or none = []
text_or (some t) = t

one_line : (id text out : Bytes) → replies.marshal id text ≡ some out → OneLine out
unfolding has_byte text_or
one_line id text out e = subst (λ o. OneLine (text_or o)) e refl

abbrev stdin : Stream
stdin = record { bytes = written lines; broken = false }

run_stdio-Framed_example :
    split_lines (run_stdio replies scripted codec stdin bridge).1.0
    ≡ texts_of replies (run_stdio replies scripted codec stdin bridge).1.1.out ++ ([] ∷ [])
run_stdio-Framed_example = run_stdio-Framed replies scripted codec one_line stdin bridge tt
