-- ===== src/Postman/Paths/Rooted.antt =====
-- That `normalizePath` returns, and what it returns.
use tunnelgate.Prelude.{
  refl, ◌≡◌, ◌⊎◌, ◌∷◌, ◌++◌, if◌then◌else◌, ℕ, suc, sym, ap, inl, inr, true, false, Option, none,
  some, [], arith, nat_eq_iff, if-elim, Option-cases, drop, is_empty, ℕ_eq,
}
use tunnelgate.Text.{bytes, Text, text_eq, has_prefix, trim_space}
use mathlib.Core.Path.{subst}
use tunnelgate.Text.Trim.{trim_space-rooted}
use tunnelgate.Postman.Paths.{
  ParsedUrl, from_first, slash, from_slash, url_path, by_url, normalize_path_on,
}

abbrev IsRooted : Text → Type 0
IsRooted s = has_prefix s slash ≡ true

has_prefix-root : (s : Text) → has_prefix (b'/' ∷ s) slash ≡ true
has_prefix-root [] = refl
has_prefix-root (c ∷ s) = refl

rooted_cons : (s : Text) → IsRooted s → (rest : Text) × (s ≡ b'/' ∷ rest)
rooted_cons [] h = cc
rooted_cons (c ∷ s) h = (s, ap (λ d. d ∷ s) ((nat_eq_iff c b'/').0 (ground arith)))

-- What `from_first` finds begins with what was looked for.
abbrev Begins : Text → Option Text → Type 0
Begins sub none = Unit
Begins sub (some rest) = has_prefix rest sub ≡ true

from_first-Begins : (s sub : Text) → Begins sub (from_first s sub)
from_first-Begins [] sub = tt
from_first-Begins (c ∷ s) sub =
    if-elim (Begins sub) (has_prefix (c ∷ s) sub) _ _ (λ e. e) (λ _. from_first-Begins s sub)

-- A run that returns a path that begins with a slash.
abbrev pub Returns : Option Text → Type 0
Returns result = (path : Text) × (result ≡ some path) × IsRooted path

-- Behind `}}` stands the slash.
drop-rooted :
    (s : Text) → has_prefix s (bytes "}}/") ≡ true → (rest : Text) × (drop 2 s ≡ b'/' ∷ rest)
drop-rooted [] h = cc
drop-rooted (c ∷ []) h = absurd (ground (arith, h))
drop-rooted (c ∷ d ∷ s) h = rooted_cons s (ground arith)

module _ (parse_url : Text → Option ParsedUrl)
    (rooted_path : (s : Text) (parsed : ParsedUrl)
      → parse_url s ≡ some parsed
      → is_empty parsed.scheme ≡ false
      → (is_empty parsed.escaped_path ≡ true) ⊎ IsRooted parsed.escaped_path) where
  from_slash-IsRooted : (trimmed : Text) → IsRooted (from_slash parse_url trimmed)
  from_slash-IsRooted trimmed = elim (Option-cases (from_first trimmed slash)) [
    | inl e ↦ rw (from_slash, e) (has_prefix-root trimmed)
    | inr (path, e) ↦ rw (from_slash, e) (subst (Begins slash) e (from_first-Begins trimmed slash))
  ]

  has_prefix-append_root : (s t : Text) → IsRooted s → IsRooted (s ++ t)
  has_prefix-append_root [] t h = cc
  has_prefix-append_root (c ∷ s) t h = ground arith

  url_path-IsRooted :
      (parsed : ParsedUrl)
      → (is_empty parsed.escaped_path ≡ true) ⊎ IsRooted parsed.escaped_path
      → IsRooted (url_path parse_url parsed)
  url_path-IsRooted parsed h =
      let path = (if is_empty parsed.escaped_path then slash else parsed.escaped_path) in
      let rooted : IsRooted path =
        if-elim IsRooted (is_empty parsed.escaped_path) _ _ (λ _. refl)
          (λ full. elim h [ inl e ↦ absurd (ground (arith, e, full)) | inr r ↦ r ]) in
      if-elim IsRooted (is_empty parsed.raw_query) _ _ (λ _. rooted)
        (λ _. has_prefix-append_root path (b'?' ∷ parsed.raw_query) rooted)

  by_url-IsRooted : (trimmed : Text) → IsRooted (by_url parse_url trimmed)
  by_url-IsRooted trimmed = elim (Option-cases (parse_url trimmed)) [
    | inl e ↦ rw (by_url, e) (from_slash-IsRooted trimmed)
    | inr (parsed, e) ↦
        rw (by_url, e)
          (if-elim IsRooted (is_empty parsed.scheme) _ _ (λ _. from_slash-IsRooted trimmed)
            (λ full. url_path-IsRooted parsed (rooted_path trimmed parsed e full)))
  ]

  -- On a text that begins with a slash one call is enough.
  once : (fuel : ℕ) (s : Text) → Returns (normalize_path_on parse_url (suc fuel) (b'/' ∷ s))
  unfolding normalize_path_on
  once fuel s = elim (trim_space-rooted s) [
    | inl e ↦ rw e (slash, refl, refl)
    | inr (rest, e) ↦ rw (e, has_prefix-root rest) (b'/' ∷ rest, refl, has_prefix-root rest)
  ]

  -- `normalizePath` returns on every text after at most two calls of it, and what it returns begins
  -- with a slash, if the path of a parsed URL that has a scheme is empty or begins with one.
  pub normalize_path_on-Returns :
      (fuel : ℕ) (value : Text) → Returns (normalize_path_on parse_url (suc (suc fuel)) value)
  unfolding normalize_path_on
  normalize_path_on-Returns fuel value =
      let trimmed = trim_space value in
      if-elim Returns (is_empty trimmed) _ _ (λ _. (slash, refl, refl))
        (λ _.
          if-elim Returns (has_prefix trimmed slash) _ _ (λ rooted. (trimmed, refl, rooted))
            (λ _. elim (Option-cases (from_first trimmed (bytes "}}/"))) [
              | inl e ↦ rw e (by_url parse_url trimmed, refl, by_url-IsRooted trimmed)
              | inr (rest, e) ↦
                  let (path, k) =
                    drop-rooted rest
                      (subst (Begins (bytes "}}/")) e (from_first-Begins trimmed (bytes "}}/"))) in
                  rw e (
                    subst (λ t. Returns (normalize_path_on parse_url (suc fuel) t)) (sym k)
                      (once fuel path))
            ]))
