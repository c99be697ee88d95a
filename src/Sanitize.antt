-- ===== src/Sanitize.antt =====
-- Cleaning of texts that come from outside: backend/internal/sanitize/sanitize.go.
-- The regular expressions are an argument: what is left of a text without the matches of
-- `controlChars` and of `htmlTags`, and the tests of `highRiskSQLPattern`.
use tunnelgate.Prelude.{
  ◌&&◌, ◌∷◌, ◌++◌, if◌then◌else◌, Bool, true, false, List, [], is_empty, any, ℕ_eq, Result, ok, err,
  ◌>>=◌,
}
use tunnelgate.Text.{bytes, Text, text_eq, trim_space}

pub record Patterns : Type 0 where
  pub without_control_chars : Text → Text
  pub without_html_tags : Text → Text
  pub high_risk_sql : List (Text → Bool)

pub record Options : Type 0 where
  pub field_name : Text
  pub reject_sql_injection : Bool
  pub strip_html_tags : Bool

abbrev pub field_error : Text → Text
field_error field_name =
    let trimmed = trim_space field_name in
    (if is_empty trimmed then bytes "Input" else trimmed) ++ bytes " contains unsafe input"

module _ (patterns : Patterns) where
  unfoldable pub sanitize_text : Text → Options → Result Text
  sanitize_text value options =
      let plain = patterns.without_control_chars value in
      let cleaned = (if options.strip_html_tags then patterns.without_html_tags plain else plain) in
      if options.reject_sql_injection && any (λ matches. matches cleaned) patterns.high_risk_sql
      then err (field_error options.field_name)
      else ok cleaned

  unfoldable pub control : Text → Text → Result Text
  unfolding sanitize_text
  control value field_name =
      sanitize_text value
        (record { field_name = field_name; reject_sql_injection = true; strip_html_tags = true })

  unfoldable pub payload : Text → Text → Result Text
  unfolding sanitize_text
  payload value field_name =
      sanitize_text value
        (record { field_name = field_name; reject_sql_injection = false; strip_html_tags = false })

  unfoldable pub control_array : List Text → Text → Result (List Text)
  unfolding control
  control_array [] field_name = ok []
  control_array (value ∷ values) field_name = control value field_name >>= λ cleaned.
      control_array values field_name >>= λ rest. ok (cleaned ∷ rest)
