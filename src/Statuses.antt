-- ===== src/Statuses.antt =====
-- Statuses of the examples of a response that were already seen: what the parsers of
-- backend/internal/postman/parser.go and
-- backend/internal/features/api-specs/spec_transform.go share.
use tunnelgate.Prelude.{refl, ◌≤◌, ◌≡◌, ◌∷◌, ℕ, false, List, [], arith, nat_eq_iff, All, ℕ_eq, elem}

abbrev pub IsStatus : ℕ → Type 0
IsStatus status = (100 ≤ status) × (status ≤ 599)

-- A status that was not seen.
abbrev pub IsNew : List ℕ → ℕ → Type 0
IsNew seen status = IsStatus status × (elem status seen ≡ false)

pub IsNew-cons :
    (status : ℕ) (seen ss : List ℕ)
    → All (IsNew (status ∷ seen)) ss
    → (elem status ss ≡ false) × All (IsNew seen) ss
IsNew-cons status seen [] h = (refl, tt)
IsNew-cons status seen (s ∷ ss) ((h, fresh), rest) =
    let (absent, k) = IsNew-cons status seen ss rest in
    (
      ground (arith, fresh, absent, nat_eq_iff s status, nat_eq_iff status s),
      ((h, ground (arith, fresh)), k),
    )

pub AreNew-statuses : (seen : List ℕ) (ss : List ℕ) → All (IsNew seen) ss → All IsStatus ss
AreNew-statuses seen [] h = tt
AreNew-statuses seen (s ∷ ss) ((h, _), rest) = (h, AreNew-statuses seen ss rest)
