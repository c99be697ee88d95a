-- ===== src/Postman/Comments/Stripped.antt =====
-- What is left of a text without its comments.
use tunnelgate.Prelude.{
  ◌≡◌, ◌∷◌, ◌==◌, if◌then◌else◌, false, [], ℕ_eq, ◌≢◌, ◌↔◌, ℕ, refl, ap, inl, inr, arith, if-elim,
  Bool-cases, ◌&&◌,
}
use tunnelgate.Text.{Text, text_eq, has_prefix}
use mathlib.Core.Path.{subst}
use tunnelgate.Postman.Comments.{
  Mode, outside, in_string, escaped, in_comment, string_next, begins_comment, newline, strip_from,
  strip_json_line_comments,
}

-- No two slashes stand outside of a string in a text that is read in a mode.
unfoldable pub IsPlain : Mode → Text → Type 0
IsPlain mode [] = Unit
IsPlain in_string (c ∷ s) = IsPlain (string_next in_string c) s
IsPlain escaped (c ∷ s) = IsPlain (string_next escaped c) s
IsPlain outside (c ∷ s) =
    if c == b'"'
    then IsPlain in_string s
    else ((c == b'/' && has_prefix s (b'/' ∷ [])) ≡ false) × IsPlain outside s
IsPlain in_comment (c ∷ s) = IsPlain in_comment s

-- The mode in which what is left is read.
resumed : Mode → Mode
resumed in_comment = outside
resumed mode = mode

-- A byte that begins no comment begins none before what is left either.
begins_comment-strip :
    (c : ℕ) (s : Text)
    → begins_comment c s ≡ false
    → begins_comment c (strip_from outside s) ≡ false
unfolding strip_from
begins_comment-strip c [] h = ground arith
begins_comment-strip c (d ∷ s) h = ground arith

strip_from-IsPlain : (mode : Mode) (s : Text) → IsPlain (resumed mode) (strip_from mode s)
unfolding strip_from IsPlain resumed
strip_from-IsPlain outside [] = tt
strip_from-IsPlain in_string [] = tt
strip_from-IsPlain escaped [] = tt
strip_from-IsPlain in_comment [] = tt
strip_from-IsPlain in_string (c ∷ s) =
    if-elim (λ m. IsPlain m (strip_from m s)) (c == b'"') _ _ (λ _. strip_from-IsPlain outside s)
      (λ _.
        if-elim (λ m. IsPlain m (strip_from m s)) (c == 92) _ _ (λ _. strip_from-IsPlain escaped s)
          (λ _. strip_from-IsPlain in_string s))
strip_from-IsPlain escaped (c ∷ s) = strip_from-IsPlain in_string s
strip_from-IsPlain outside (c ∷ s) = elim (Bool-cases (c == b'"')) [
  | inl quote ↦ rw (quote, quote) (strip_from-IsPlain in_string s)
  | inr plain ↦ elim (Bool-cases (begins_comment c s)) [
    | inl begins ↦ rw (plain, begins) (strip_from-IsPlain in_comment s)
    | inr goes_on ↦
        rw (plain, goes_on, plain) (begins_comment-strip c s goes_on, strip_from-IsPlain outside s)
  ]
]
strip_from-IsPlain in_comment (c ∷ s) = elim (Bool-cases (c == newline)) [
  | inl e ↦
      let no_quote : (c == b'"') ≡ false = ground arith in
      let no_slash : begins_comment c (strip_from outside s) ≡ false = ground arith in
      rw (e, no_quote) (no_slash, strip_from-IsPlain outside s)
  | inr n ↦ rw n (strip_from-IsPlain in_comment s)
]

abbrev Outside : ℕ → Text → Type 0
Outside c s = ((c == b'/' && has_prefix s (b'/' ∷ [])) ≡ false) × IsPlain outside s

-- Plain text is left as it is.
strip_from_of_IsPlain :
    (mode : Mode) (s : Text) → mode ≢ in_comment → IsPlain mode s → strip_from mode s ≡ s
unfolding strip_from IsPlain
strip_from_of_IsPlain outside [] _ h = refl
strip_from_of_IsPlain in_string [] _ h = refl
strip_from_of_IsPlain escaped [] _ h = refl
strip_from_of_IsPlain in_comment s differs h = absurd (differs refl)
strip_from_of_IsPlain in_string (c ∷ s) _ h =
    ap (λ t. c ∷ t) (strip_from_of_IsPlain (string_next in_string c) s (λ e. ground (arith, e)) h)
strip_from_of_IsPlain escaped (c ∷ s) _ h =
    ap (λ t. c ∷ t) (strip_from_of_IsPlain in_string s (λ e. cc) h)
strip_from_of_IsPlain outside (c ∷ s) _ h = elim (Bool-cases (c == b'"')) [
  | inl quote ↦
      let rest = subst (λ b. if b then IsPlain in_string s else Outside c s) quote h in
      rw quote (ap (λ t. c ∷ t) (strip_from_of_IsPlain in_string s (λ e. cc) rest))
  | inr plain ↦
      let (goes_on, rest) = subst (λ b. if b then IsPlain in_string s else Outside c s) plain h in
      rw (plain, goes_on) (ap (λ t. c ∷ t) (strip_from_of_IsPlain outside s (λ e. cc) rest))
]

-- What `stripJSONLineComments` leaves of a text has no comment outside of its strings, and it
-- leaves a text as it is exactly if the text has none.
pub strip_json_line_comments-IsPlain :
    (value : Text)
    → IsPlain outside (strip_json_line_comments value)
      × ((strip_json_line_comments value ≡ value) ↔ IsPlain outside value)
unfolding strip_json_line_comments strip_from resumed
strip_json_line_comments-IsPlain value =
    let plain = strip_from-IsPlain outside value in
    (plain, (λ e. subst (IsPlain outside) e plain, strip_from_of_IsPlain outside value (λ e. cc)))
