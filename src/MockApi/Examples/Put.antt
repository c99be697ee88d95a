-- ===== src/MockApi/Examples/Put.antt =====
-- The reference for merging: an update of a list of examples, and where a status stands in it.
use tunnelgate.Prelude.{
  ℕ, ◌≡◌, ◌⊎◌, ◌∷◌, ◌++◌, ◌==◌, if◌then◌else◌, suc, refl, ap, inl, inr, true, false, Option, none,
  some, List, [], arith, nat_eq_iff, Bool-cases, Option-cases, length, ℕ_eq, elem,
}
use tunnelgate.MockApi.Types.{ResponseExample}
use tunnelgate.MockApi.Examples.{set}

-- The reference: an example takes the place of the one with its status, or goes to the end.
unfoldable pub put : List ResponseExample → ResponseExample → List ResponseExample
put [] example = example ∷ []
put (x ∷ xs) example = if x.status == example.status then example ∷ xs else x ∷ put xs example

unfoldable pub put_all : List ResponseExample → List ResponseExample → List ResponseExample
put_all examples [] = examples
put_all examples (example ∷ incoming) = put_all (put examples example) incoming

abbrev pub statuses : List ResponseExample → List ℕ
statuses [] = []
statuses (x ∷ xs) = x.status ∷ statuses xs

abbrev next : Option ℕ → Option ℕ
next none = none
next (some i) = some (suc i)

-- Where the first example of a status stands.
unfoldable pub position : ℕ → List ResponseExample → Option ℕ
position status [] = none
position status (x ∷ xs) = if x.status == status then some 0 else next (position status xs)

pub position-append :
    (status : ℕ) (xs : List ResponseExample) (x : ResponseExample)
    → elem x.status (statuses xs) ≡ false
    → position status (xs ++ x ∷ [])
      ≡ (if x.status == status then some (length xs) else position status xs)
unfolding position
position-append status [] x h = refl
position-append status (y ∷ xs) x h =
    ground (arith, position-append status xs x, nat_eq_iff y.status x.status)

pub position-none :
    (status : ℕ) (xs : List ResponseExample)
    → position status xs ≡ none
    → elem status (statuses xs) ≡ false
unfolding position
position-none status [] h = refl
position-none status (x ∷ xs) h = elim (Option-cases (position status xs)) [
  | inl e ↦ ground (arith, position-none status xs e)
  | inr (i, e) ↦ ground arith
]

position-some :
    (x : ResponseExample) (y : ResponseExample) (xs : List ResponseExample) (i : ℕ)
    → position x.status (y ∷ xs) ≡ some i
    → ((y.status == x.status) ≡ true) × (i ≡ 0)
      ⊎ (j : ℕ) × ((y.status == x.status) ≡ false) × (position x.status xs ≡ some j) × (i ≡ suc j)
unfolding position
position-some x y xs i h = elim (Bool-cases (y.status == x.status)) [
  | inl e ↦ inl (e, ground arith)
  | inr e ↦ elim (Option-cases (position x.status xs)) [
    | inl n ↦ ground arith
    | inr (j, k) ↦ inr (j, e, k, ground arith)
  ]
]

pub put-append :
    (xs : List ResponseExample) (x : ResponseExample)
    → elem x.status (statuses xs) ≡ false
    → put xs x ≡ xs ++ x ∷ []
unfolding put
put-append [] x h = refl
put-append (y ∷ xs) x h = ground (arith, put-append xs x)

pub set-position :
    (xs : List ResponseExample) (x : ResponseExample) (i : ℕ)
    → position x.status xs ≡ some i
    → (set xs i x ≡ put xs x) × (statuses (put xs x) ≡ statuses xs)
unfolding put
set-position [] x i h = unfold position in cc
set-position (y ∷ xs) x i h = elim (position-some x y xs i h) [
  | inl (e, z) ↦ rw (e, z) (refl, ground arith)
  | inr (j, e, k, s) ↦
      let (a, b) = set-position xs x j k in rw (e, s) (ap (λ t. y ∷ t) a, ap (λ t. y.status ∷ t) b)
]
