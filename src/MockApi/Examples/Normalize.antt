-- ===== src/MockApi/Examples/Normalize.antt =====
-- What normalised response examples are like.
use mathlib.Core.Path.{subst, ap₂}
use tunnelgate.Prelude.{
  refl, ◌≡◌, ◌∙◌, ◌⊎◌, ◌&&◌, ◌∷◌, ◌==◌, if◌then◌else◌, ℕ, sym, ap, inl, inr, Bool, true, false, not,
  Option, none, some, List, [], arith, Bool-cases, Option-cases, is_empty, all, find, IsIn, here,
  there, ℕ_eq, eq_of_true, elem, ok, >>=-eq-ok,
}
use tunnelgate.Text.{Text, text_eq}
use tunnelgate.MockApi.Types.{ResponseExample}
use tunnelgate.MockApi.Examples.{
  valid_http_status, Normalized, normalize_headers_json, normalize_example, normalize_examples,
  default_examples, selected_example, normalized_with, normalize_response_examples,
}
use tunnelgate.MockApi.Examples.Put.{statuses}

-- No status of a list was met before, or comes twice, or is invalid.
unfoldable pub all_fresh : List ℕ → List ℕ → Bool
all_fresh seen [] = true
all_fresh seen (status ∷ rest) =
    valid_http_status status && not (elem status seen) && all_fresh (status ∷ seen) rest

ok_injective : {A : Type 0} {a b : A} → ok a ≡ ok b → a ≡ b
ok_injective e = cc

-- The example that is found, or else the first one.
pub record IsSelected (selected : ℕ) (result : Normalized) : Type 0 where
  pub example : ResponseExample
  pub among : IsIn example result.examples
  pub has_status : result.status ≡ example.status
  pub has_body : result.body ≡ example.body
  pub preferred : (result.status ≡ selected) ⊎ (elem selected (statuses result.examples) ≡ false)

find-IsIn :
    (selected : ℕ) (l : List ResponseExample) (x : ResponseExample)
    → find (λ e. e.status == selected) l ≡ some x
    → IsIn x l × (x.status ≡ selected)
find-IsIn selected [] x h = cc
find-IsIn selected (e ∷ l) x h = elim (Bool-cases (e.status == selected)) [
  | inl k ↦
      let same : e ≡ x = ground arith in
      subst (λ y. IsIn y (e ∷ l) × (y.status ≡ selected)) same
        (here, eq_of_true e.status selected k)
  | inr k ↦ let (i, q) = find-IsIn selected l x (rw k at h) in (there i, q)
]

find-none :
    (selected : ℕ) (l : List ResponseExample)
    → find (λ e. e.status == selected) l ≡ none
    → elem selected (statuses l) ≡ false
find-none selected [] h = refl
find-none selected (e ∷ l) h = ground (arith, find-none selected l)

module _ (unmarshal : Text → Option (List (Text × Text)))
    (marshal : List (Text × Text) → Text) where
  normalize_example-status :
      (example : ResponseExample) (out : ResponseExample)
      → normalize_example unmarshal marshal example ≡ ok out
      → out.status ≡ example.status
  unfolding normalize_example
  normalize_example-status example out h =
      let (headers, k, e) =
        >>=-eq-ok (normalize_headers_json unmarshal marshal example.response_headers) _ h in
      sym (ap (λ (x : ResponseExample). x.status) (ok_injective k))

  normalize_examples-statuses :
      (seen : List ℕ) (input out : List ResponseExample)
      → normalize_examples unmarshal marshal seen input ≡ ok out
      → (statuses out ≡ statuses input) × (all_fresh seen (statuses input) ≡ true)
  unfolding normalize_examples all_fresh
  normalize_examples-statuses seen [] out h = (sym (ap statuses (ok_injective h)), refl)
  normalize_examples-statuses seen (example ∷ input) out h =
      elim (Bool-cases (valid_http_status example.status)) [
        | inl v ↦ elim (Bool-cases (elem example.status seen)) [
          | inl s ↦ ground arith
          | inr s ↦
              let (first, k, e) =
                >>=-eq-ok (normalize_example unmarshal marshal example) _ (rw (v, s) at h) in
              let (later, m, f) =
                >>=-eq-ok (normalize_examples unmarshal marshal (example.status ∷ seen) input) _
                  k in
              let (same, fresh) =
                normalize_examples-statuses (example.status ∷ seen) input later f in
              (
                sym (ap statuses (ok_injective m))
                    ∙ ap₂ (λ n l. n ∷ l) (normalize_example-status example first e) same,
                rw (v, s) fresh,
              )
        ]
        | inr v ↦ ground arith
      ]

  normalized_with-IsSelected :
      (selected : ℕ) (l : List ResponseExample) (result : Normalized)
      → normalized_with selected l ≡ ok result
      → IsSelected selected result × (result.examples ≡ l)
  unfolding normalized_with
  normalized_with-IsSelected selected [] result h = cc
  normalized_with-IsSelected selected (first ∷ rest) result h =
      subst (λ r. IsSelected selected r × (r.examples ≡ first ∷ rest)) (ok_injective h)
        (elim (Option-cases (find (λ e. e.status == selected) (first ∷ rest))) [
          | inl n ↦ (
            record {
              example = first;
              among = here;
              has_status = ap (λ (e : ResponseExample). e.status) (chosen none n);
              has_body = ap (λ (e : ResponseExample). e.body) (chosen none n);
              preferred = inr (find-none selected (first ∷ rest) n);
            },
            refl,
          )
          | inr (x, n) ↦
              let (i, q) = find-IsIn selected (first ∷ rest) x n in
              (
                record {
                  example = x;
                  among = i;
                  has_status = ap (λ (e : ResponseExample). e.status) (chosen (some x) n);
                  has_body = ap (λ (e : ResponseExample). e.body) (chosen (some x) n);
                  preferred = inl (ap (λ (e : ResponseExample). e.status) (chosen (some x) n) ∙ q);
                },
                refl,
              )
        ])
    where
      chosen :
          (o : Option ResponseExample)
          → find (λ (e : ResponseExample). e.status == selected) (first ∷ rest) ≡ o
          → selected_example (first ∷ rest) selected first
            ≡ (elim o [ some example ↦ example | none ↦ first ])
      chosen o n =
          ap (λ (p : Option ResponseExample). elim p [ some example ↦ example | none ↦ first ]) n

  -- Normalising that succeeds gives examples with the statuses of the given ones, in their order
  -- (those of the default example if none is given), all valid and no two the same, and the status
  -- and body of one of them: one with the selected status, if there is any.
  pub normalize_response_examples-ok :
      (input : List ResponseExample) (selected : ℕ) (result : Normalized)
      → normalize_response_examples unmarshal marshal input selected ≡ ok result
      → (statuses result.examples ≡ statuses (if is_empty input then default_examples else input))
        × (all_fresh [] (statuses result.examples) ≡ true)
        × IsSelected selected result
  unfolding normalize_response_examples
  normalize_response_examples-ok input selected result h =
      let given = if is_empty input then default_examples else input in
      let (l, k, e) = >>=-eq-ok (normalize_examples unmarshal marshal [] given) _ h in
      let (same, fresh) = normalize_examples-statuses [] given l e in
      let (chosen, all) = normalized_with-IsSelected selected l result k in
      let path = ap statuses all ∙ same in (path, ap (all_fresh []) path ∙ fresh, chosen)
