-- ===== src/Redact/Tests.antt =====
-- Redaction of sample texts.
use mcpurl.Prelude.{◌≡◌, true}
use mcpurl.Prelude.Bytes.{Bytes, codes}
use mcpurl.Redact.{tokens}
use mcpurl.Redact.Clean.{is_clean, is_clean-tokens}

abbrev leak : Bytes
leak = codes "rejected eyJhbGciOiJ9.eyJzdWI.c2ln-x, sorry"

is_clean-tokens_example : is_clean (tokens leak) ≡ true
is_clean-tokens_example = is_clean-tokens leak
