-- ===== src/Mcp/Client/Summary.antt =====
-- pkg/mcp/client.go: what an error message and a debug line show of a failed response.
pub mod Discreet
use mcpurl.Prelude.{
  ℕ, Bool, true, false, not, ◌||◌, List, [], ◌∷◌, ◌++◌, Option, none, some, ltb, ◌==◌,
  if◌then◌else◌,
}
use mcpurl.Prelude.Bytes.{Bytes, codes, equal, is_empty, has_prefix, has_suffix}
use mcpurl.Prelude.Lists.{length, take}
use mcpurl.Prelude.Space.{trim_space, fields, join}
use mcpurl.Prelude.Utf8.{to_valid_utf8}
use mcpurl.Prelude.Utf8.Cut.{ellipsis}
use mcpurl.Redact.{tokens}
use mcpurl.Mcp.Http.{get, Response}
use mcpurl.Mcp.Client.{HttpError}

-- `strings.ToLower`, `http.DetectContentType` and the verb %d.
pub record Texts : Type 0 where
  pub lower : Bytes → Bytes
  pub detect : Bytes → Bytes
  pub decimal : ℕ → Bytes

-- `bodyLineLimit`
abbrev pub body_line_limit : ℕ
body_line_limit = 512

-- The text up to a byte, none where the byte is missing.
unfoldable pub before_byte : ℕ → Bytes → Option Bytes
before_byte b [] = none
before_byte b (c ∷ s) =
    let rest = before_byte b s in
    if c == b then some [] else elim rest [ none ↦ none | some t ↦ some (c ∷ t) ]

module _ (x : Texts) where
  media_type : Bytes → Option Bytes → Bytes
  media_type mt none = mt
  media_type mt (some front) = trim_space front

  is_text : Bytes → Bool
  is_text mt =
      has_prefix mt (codes "text/")
      || equal mt (codes "application/json")
      || has_suffix mt (codes "+json")

  -- `textualType`
  unfoldable pub textual_type : Bytes → Bool
  unfolding media_type is_text before_byte trim_space has_prefix equal
  textual_type content_type =
      let mt = x.lower (trim_space content_type) in is_text (media_type mt (before_byte b';' mt))

  -- At most so much of a text, with an ellipsis where there is more.
  unfoldable pub clipped : Bytes → Bytes
  clipped s = if ltb body_line_limit (length s) then take body_line_limit s ++ ellipsis else s

  -- A body on one line and without tokens.
  unfoldable pub redacted : Bytes → Bytes
  unfolding tokens join fields
  redacted body = tokens (join (codes " ") (fields body))

  abbrev pub type_or_sniffed : Bytes → Bytes → Bytes
  type_or_sniffed content_type body = if is_empty content_type then x.detect body else content_type

  unfoldable pub echoed : Bytes → Bytes
  unfolding redacted clipped to_valid_utf8
  echoed body = to_valid_utf8 (clipped (redacted body))

  placeholder : Bytes → Bytes → Bytes
  placeholder content_type body =
      codes "<" ++ (x.decimal (length body) ++ (codes " bytes of " ++ (content_type ++ codes ">")))

  -- `bodySummary`
  unfoldable pub body_summary : Bytes → Bytes → Bytes
  unfolding textual_type echoed placeholder
  body_summary content_type body =
      if is_empty body
      then []
      else (let ct = type_or_sniffed content_type body in
          if not (textual_type ct) then placeholder ct body else echoed body)

  abbrev with_text : Bytes → Bytes → Bytes
  with_text label text = if not (is_empty text) then label ++ text else []

  -- `HTTPError.Error`
  unfoldable pub error_text : HttpError → Bytes
  unfolding body_summary
  error_text e =
      codes "upstream HTTP "
      ++ (x.decimal e.status ++ with_text (codes ": ") (body_summary e.content_type e.body))

  redacted_challenge : Bytes → Bytes
  unfolding tokens
  redacted_challenge challenge =
      if not (is_empty challenge) then codes ", WWW-Authenticate: " ++ tokens challenge else []

  -- The line of `logResponse`; the arrow is U+2192.
  unfoldable pub response_line : Bytes → Response → Bytes → Bytes
  unfolding redacted_challenge body_summary
  response_line method r body =
      let ct = get (codes "Content-Type") r.headers in
      method
      ++ (codes " "
          ++ ((0xe2 ∷ 0x86 ∷ 0x92 ∷ [])
              ++ (codes " "
                  ++ (x.decimal r.status
                      ++ (codes " "
                          ++ (ct
                              ++ (redacted_challenge (get (codes "Www-Authenticate") r.headers)
                                  ++ with_text (codes ", body: ") (body_summary ct body))))))))
