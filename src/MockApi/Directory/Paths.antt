-- ===== src/MockApi/Directory/Paths.antt =====
-- Which specs stand below a directory, and which directories may be asked for.
use mathlib.Core.Path.{ap₂, subst}
use tunnelgate.Prelude.{
  refl, ◌≡◌, ◌↔◌, ◌∷◌, ◌++◌, ◌==◌, inl, inr, true, false, List, [], arith, Bool-cases, is_empty,
  length-append, All, ℕ_eq, eq_refl, eq_of_true, ok, >>=-eq-ok, ◌≢◌, ap, not, map, keep,
  ne_of_false, elem,
}
use tunnelgate.Text.{Text, text_eq, trim_space, bytes}
use tunnelgate.MockApi.Directory.{same_start, is_descendant, is_forbidden, normalize_directory_path}

same_start_sound :
    (segments path : List Text)
    → same_start segments path ≡ true
    → (rest : List Text) × (segments ≡ path ++ rest)
unfolding same_start
same_start_sound segments [] h = (segments, refl)
same_start_sound [] (p ∷ path) h = cc
same_start_sound (s ∷ segments) (p ∷ path) h = elim (Bool-cases (s == p)) [
  | inl e ↦
      let (rest, k) = same_start_sound segments path (rw e at h) in
      (rest, ap₂ (λ x l. x ∷ l) (eq_of_true s p e) k)
  | inr e ↦ ground arith
]

same_start_complete : (path rest : List Text) → same_start (path ++ rest) path ≡ true
unfolding same_start
same_start_complete [] rest = refl
same_start_complete (p ∷ path) rest = rw (eq_refl p) (same_start_complete path rest)

-- A spec is a descendant of a directory exactly when its segments are the path followed by some.
pub is_descendant_iff :
    (segments path : List Text)
    → (is_descendant segments path ≡ true) ↔ ((rest : List Text) × (segments ≡ path ++ rest))
unfolding is_descendant
is_descendant_iff segments path = (
  λ h. same_start_sound segments path (ground arith),
  λ (rest, e). rw e (ground (arith, length-append path rest, same_start_complete path rest)),
)

-- A segment that cannot lead out of the directory, with what that means written out.
abbrev pub IsPlainSegment : Text → Type 0
IsPlainSegment s =
    (s ≢ [])
    × (s ≢ bytes ".")
    × (s ≢ bytes "..")
    × (elem b'/' s ≡ false)
    × (elem b'\\' s ≡ false)
    × (elem 0 s ≡ false)

not_empty : (s : Text) → is_empty s ≡ false → s ≢ []
not_empty [] e = cc
not_empty (c ∷ s) e = λ k. cc

IsPlainSegment-of_tests :
    (s : Text) → is_empty s ≡ false → is_forbidden s ≡ false → IsPlainSegment s
IsPlainSegment-of_tests s e f = (
  not_empty s e,
  ne_of_false s (bytes ".") (ground (arith, f)),
  ne_of_false s (bytes "..") (ground (arith, f)),
  ground (arith, f),
  ground (arith, f),
  ground (arith, f),
)

abbrev trimmed_segments : List Text → List Text
trimmed_segments values = keep (λ s. not (is_empty s)) (map trim_space values)

abbrev IsLetThrough : List Text → List Text → Type 0
IsLetThrough values path = (path ≡ trimmed_segments values) × All IsPlainSegment path

ok_injective : {A : Type 0} {a b : A} → ok a ≡ ok b → a ≡ b
ok_injective e = cc

-- A path that is let through is the given values, trimmed and without the blank ones, and none of
-- its segments is empty, a dot or two dots, or has a slash, a backslash or a zero byte.
pub normalize_directory_path-ok :
    (values path : List Text)
    → normalize_directory_path values ≡ ok path
    → (path ≡ keep (λ s. not (is_empty s)) (map trim_space values)) × All IsPlainSegment path
unfolding normalize_directory_path
normalize_directory_path-ok [] path h = subst (IsLetThrough []) (ok_injective h) (refl, tt)
normalize_directory_path-ok (value ∷ values) path h =
    elim (Bool-cases (is_empty (trim_space value))) [
      | inl e ↦ rw e (normalize_directory_path-ok values path (rw e at h))
      | inr e ↦ elim (Bool-cases (is_forbidden (trim_space value))) [
        | inl f ↦ ground arith
        | inr f ↦
            let (rest, k, q) = >>=-eq-ok (normalize_directory_path values) _ (rw (e, f) at h) in
            let (same, plain) = normalize_directory_path-ok values rest q in
            subst (IsLetThrough (value ∷ values)) (ok_injective k) (
              rw e (ap (λ t. trim_space value ∷ t) same),
              (IsPlainSegment-of_tests (trim_space value) e f, plain),
            )
      ]
    ]
