-- ===== src/Mcp/Tests/Summaries.antt =====
-- What is shown of failed responses.
use mcpurl.Prelude.{◌≡◌, ◌⊎◌, refl, false, [], ◌∷◌, ◌++◌}
use mcpurl.Prelude.Bytes.{Bytes, codes}
use mcpurl.Prelude.Space.{is_space, space_width, fields_from, fields, join}
use mcpurl.Prelude.Utf8.{rune_width, to_valid_from, to_valid_utf8}
use mcpurl.Redact.{match_length, replace_from, has_mark, tokens}
use mcpurl.Mcp.Client.Summary.{
  Texts, textual_type, type_or_sniffed, clipped, redacted, echoed, body_summary,
}
use mcpurl.Mcp.Client.Summary.Discreet.{Discreet, body_summary-Discreet}

abbrev pub texts : Texts
texts = record {
  lower = λ s. s;
  detect = λ s. codes "text/plain; charset=utf-8";
  decimal = λ n. codes "17";
}

abbrev quoted : Bytes
quoted = codes "Jwt expired:\n eyJhbGciOiJ9.eyJzdWI.c2ln-x"

body_summary-Discreet_example :
    (textual_type texts (type_or_sniffed texts [] quoted) ≡ false)
    ⊎ Discreet texts quoted (body_summary texts [] quoted)
body_summary-Discreet_example = body_summary-Discreet texts [] quoted

-- A byte that is no UTF-8 hides a token from the redaction, and goes afterwards.
abbrev split_token : Bytes
split_token = codes "eyJhb" ++ (0xff ∷ codes "GciOiJ9.eyJzdWI.c2ln-x")

broken-shown : echoed texts split_token ≡ codes "eyJhbGciOiJ9.eyJzdWI.c2ln-x"
unfolding echoed redacted clipped fields fields_from space_width is_space join tokens has_mark
    replace_from match_length to_valid_utf8 to_valid_from rune_width
broken-shown = refl
