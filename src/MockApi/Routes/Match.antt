-- ===== src/MockApi/Routes/Match.antt =====
-- When two route paths match.
use tunnelgate.Prelude.{
  suc, true, false, List, [], ◌∷◌, ◌≡◌, refl, ◌≢◌, ◌↔◌, ◌⊎◌, inl, inr, arith, length, is_empty,
  ℕ_eq, ◌==◌, Bool-cases, nat_eq_iff, ap,
}
use tunnelgate.Text.{Text, text_eq, text_eq_iff}
use tunnelgate.MockApi.Routes.{
  is_wildcard, segments_match, comparable_route_path, split_route_segments, route_paths_match,
}

-- A segment of a candidate stands for a requested one: any non-empty one if it begins with a
-- colon, and itself otherwise.
pub data Fits : Text → Text → Type 0 where
  any_segment :
      {segment given : Text} → is_wildcard segment ≡ true → given ≢ [] → Fits segment given
  same : {segment given : Text} → is_wildcard segment ≡ false → segment ≡ given → Fits segment given

pub data FitAll : List Text → List Text → Type 0 where
  nil : FitAll [] []
  cons :
      {segment given : Text} {candidate requested : List Text}
      → Fits segment given
      → FitAll candidate requested
      → FitAll (segment ∷ candidate) (given ∷ requested)

-- The meaning of a match between normalised paths.
abbrev pub Matches : Text → Text → Type 0
Matches candidate requested =
    (candidate ≡ requested)
    ⊎ FitAll (split_route_segments candidate) (split_route_segments requested)

is_empty-false : (s : Text) → s ≢ [] → is_empty s ≡ false
is_empty-false [] h = absurd (h refl)
is_empty-false (c ∷ s) h = refl

segments_match_sound :
    (candidate requested : List Text)
    → length candidate ≡ length requested
    → segments_match candidate requested ≡ true
    → FitAll candidate requested
unfolding segments_match
segments_match_sound [] [] e h = nil
segments_match_sound [] (g ∷ gs) e h = absurd (omega arith)
segments_match_sound (s ∷ ss) [] e h = cc
segments_match_sound (s ∷ ss) (g ∷ gs) e h = elim (Bool-cases (is_wildcard s)) [
  | inl wild ↦
      cons (any_segment wild (λ empty. ground (arith, empty)))
        (segments_match_sound ss gs (omega arith) (ground arith))
  | inr plain ↦
      cons (same plain (ground (arith, text_eq_iff s g)))
        (segments_match_sound ss gs (omega arith) (ground arith))
]

segments_match_complete :
    {candidate requested : List Text}
    → FitAll candidate requested
    → (length candidate ≡ length requested) × (segments_match candidate requested ≡ true)
unfolding segments_match
segments_match_complete nil = (refl, refl)
segments_match_complete (cons {segment} {given} (any_segment wild h) rest) =
    let (e, m) = segments_match_complete rest in (ap suc e, rw (wild, is_empty-false given h) m)
segments_match_complete (cons {segment} {given} (same plain e) rest) =
    let (el, m) = segments_match_complete rest in
    (ap suc el, rw (plain, (text_eq_iff segment given).1 e) m)

-- A candidate route path matches a requested one exactly when their normalised forms are equal or
-- have equally many segments, each of which is a wildcard over a non-empty one or equal to it.
pub route_paths_match_iff :
    (candidate requested : Text)
    → (route_paths_match candidate requested ≡ true)
      ↔ Matches (comparable_route_path candidate) (comparable_route_path requested)
unfolding route_paths_match
route_paths_match_iff candidate requested = (
  λ h. elim (Bool-cases (c == r)) [
    | inl e ↦ inl ((text_eq_iff c r).0 e)
    | inr ne ↦ elim (Bool-cases (length cs == length rs)) [
      | inl e ↦ inr (segments_match_sound cs rs ((nat_eq_iff _ _).0 e) (ground arith))
      | inr e ↦ ground arith
    ]
  ],
  elim [
    | inl e ↦ ground (arith, text_eq_iff c r)
    | inr f ↦ ground (arith, segments_match_complete f)
  ],
)
  where
    c : Text
    c = comparable_route_path candidate

    r : Text
    r = comparable_route_path requested

    cs : List Text
    cs = split_route_segments c

    rs : List Text
    rs = split_route_segments r
