-- ===== src/Postman/Comments.antt =====
-- `stripJSONLineComments` of backend/internal/postman/parser.go, which removes `//` comments that
-- stand outside of strings.
pub mod Stripped
use tunnelgate.Prelude.{◌&&◌, ◌∷◌, ◌==◌, if◌then◌else◌, ℕ, Bool, [], ℕ_eq, list_eq}
use tunnelgate.Text.{Text, text_eq, has_prefix}

-- Where the loop stands: outside of strings, in a string, in one behind a backslash, or in the
-- inner loop that skips a comment.
pub data Mode : Type 0 where
  outside in_string escaped in_comment : Mode

-- The mode behind a byte of a string.
abbrev pub string_next : Mode → ℕ → Mode
string_next escaped c = in_string
string_next mode c = if c == b'"' then outside else if c == 92 then escaped else in_string

-- `//` begins here.
abbrev pub begins_comment : ℕ → Text → Bool
begins_comment c rest = c == b'/' && has_prefix rest (b'/' ∷ [])

abbrev pub newline : ℕ
newline = 10

unfoldable pub strip_from : Mode → Text → Text
strip_from mode [] = []
strip_from in_string (c ∷ s) = c ∷ strip_from (string_next in_string c) s
strip_from escaped (c ∷ s) = c ∷ strip_from (string_next escaped c) s
strip_from outside (c ∷ s) =
    if c == b'"'
    then c ∷ strip_from in_string s
    else if begins_comment c s
    then strip_from in_comment s
    else c ∷ strip_from outside s
strip_from in_comment (c ∷ s) =
    if c == newline then c ∷ strip_from outside s else strip_from in_comment s

unfoldable pub strip_json_line_comments : Text → Text
unfolding strip_from
strip_json_line_comments value = strip_from outside value
