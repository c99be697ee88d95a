-- ===== src/OpenApi/Import/Examples.antt =====
-- The examples of an operation of an OpenAPI spec have distinct statuses in the range:
-- backend/internal/features/api-specs/spec_transform.go.
use tunnelgate.Prelude.{
  refl, ◌≤◌, ◌≡◌, ◌&&◌, ◌∷◌, ℕ, inl, inr, true, false, Option, none, some, List, [], map, arith,
  leb, if-elim, Bool-cases, Option-cases, All, ℕ_eq, elem, distinct, ℤ, pos, negsuc, Result, ok,
  ◌>>=◌, AllOk, passed, >>=-AllOk, >>=-AllOk_any,
}
use tunnelgate.Text.{bytes, Text, text_eq, equal_fold}
use mathlib.Core.Path.{subst}
use tunnelgate.Statuses.{IsStatus, IsNew, IsNew-cons, AreNew-statuses}
use tunnelgate.Sanitize.{control, payload}
use tunnelgate.MockApi.Types.{ResponseExample}
use tunnelgate.OpenApi.Schemas.{Spec}
use tunnelgate.OpenApi.Operations.{ApiResponse, Operation}
use tunnelgate.OpenApi.Import.{
  Calls, in_range, parse_response_status, sorted_responses, response_text, response_name,
  response_example, examples_from, open_api_response_examples,
}

abbrev pub statuses : List ResponseExample → List ℕ
statuses = map (λ (example : ResponseExample). example.status)

-- A status in the range, if there is one.
abbrev IsProper : Option ℕ → Type 0
IsProper none = 100 ≤ 100
IsProper (some status) = IsStatus status

in_range-IsProper : (read : Option ℤ) → IsProper (in_range read)
in_range-IsProper none = omega arith
in_range-IsProper (some (negsuc n)) = omega arith
in_range-IsProper (some (pos n)) =
    if-elim IsProper (leb 100 n && leb n 599) _ _ (λ h. (ground (arith, h), ground (arith, h)))
      (λ _. omega arith)

abbrev AreNew : List ℕ → List ResponseExample → Type 0
AreNew seen examples = (distinct (statuses examples) ≡ true) × All (IsNew seen) (statuses examples)

-- An example and others, as `open_api_response_examples` gives them.
abbrev pub AreExamples : ResponseExample × List ResponseExample → Type 0
AreExamples (first, rest) =
    (distinct (statuses (first ∷ rest)) ≡ true) × All IsStatus (statuses (first ∷ rest))

module _ (calls : Calls) (fuel : ℕ) where
  parse_response_status-IsProper : (value : Text) → IsProper (parse_response_status calls value)
  unfolding parse_response_status
  parse_response_status-IsProper value =
      if-elim IsProper (equal_fold value (bytes "default")) _ _ (λ _. (omega arith, omega arith))
        (λ _. in_range-IsProper (calls.atoi value))

  -- The example has the status that it is made for.
  response_example-status :
      (spec : Spec) (status : ℕ) (response : ApiResponse)
      → AllOk
          (λ (example : ResponseExample). example.status ≡ status)
          (response_example calls fuel spec status response)
  response_example-status spec status response =
      >>=-AllOk_any _ (response_text calls fuel spec response) _ (λ body.
        >>=-AllOk_any _
          (control calls.patterns (response_name calls fuel status response.description)
            (bytes "Response example name"))
          _
          (λ clean_name.
            >>=-AllOk_any _ (payload calls.patterns body (bytes "Response example body")) _
              (λ clean_body. passed refl)))

  with_new :
      (seen : List ℕ) (status : ℕ) (new : Result ResponseExample)
      (later : Result (List ResponseExample))
      → IsStatus status
      → elem status seen ≡ false
      → AllOk (λ (example : ResponseExample). example.status ≡ status) new
      → AllOk (AreNew (status ∷ seen)) later
      → AllOk (AreNew seen) (new >>= λ example. later >>= λ examples. ok (example ∷ examples))
  with_new seen status new later proper fresh h k = >>=-AllOk _ (AreNew seen) new _ h (λ example e.
      >>=-AllOk (AreNew (status ∷ seen)) (AreNew seen) later _ k (λ examples (unique, others).
        let (absent, older) = IsNew-cons status seen (statuses examples) others in
        passed (rw (e, absent) unique, (rw e (proper, fresh), older))))

  examples_from-AreNew :
      (spec : Spec) (seen : List ℕ) (responses : List (Text × ApiResponse))
      → AllOk (AreNew seen) (examples_from calls fuel spec seen responses)
  unfolding examples_from
  examples_from-AreNew spec seen [] = passed (refl, tt)
  examples_from-AreNew spec seen ((key, response) ∷ responses) =
      elim (Option-cases (parse_response_status calls key)) [
        | inl e ↦ rw (e, examples_from) (examples_from-AreNew spec seen responses)
        | inr (status, e) ↦ elim (Bool-cases (elem status seen)) [
          | inl known ↦ rw (e, known, examples_from) (examples_from-AreNew spec seen responses)
          | inr new ↦
              rw (e, new, examples_from)
                (with_new seen status (response_example calls fuel spec status response) _
                  (subst IsProper e (parse_response_status-IsProper key)) new
                  (response_example-status spec status response)
                  (examples_from-AreNew spec (status ∷ seen) responses))
        ]
      ]

  pub open_api_response_examples-AreExamples :
      (spec : Spec) (operation : Operation) (method route_path : Text)
      → AllOk AreExamples (open_api_response_examples calls fuel spec operation method route_path)
  unfolding open_api_response_examples
  open_api_response_examples-AreExamples spec operation method route_path =
      >>=-AllOk (AreNew []) AreExamples _ _
        (examples_from-AreNew spec [] (sorted_responses calls operation.responses))
        (elim [
          | [] ↦ λ h. passed (refl, ((omega arith, omega arith), tt))
          | example ∷ examples ↦
              λ h. passed (h.0, AreNew-statuses [] (statuses (example ∷ examples)) h.1)
        ])
