-- ===== src/MockApi/Validation/Params.antt =====
-- When the query parameters of a request pass.
use tunnelgate.Prelude.{
  Bool, true, false, not, ◌&&◌, List, [], ◌∷◌, ◌≡◌, refl, sym, ◌↔◌, ◌⊎◌, inl, inr, arith, ◌≢◌,
  is_empty, elem, ◌==◌, ne_of_false, eq_of_true, Bool-cases, Bool-eq_of_iff, ◌∙◌, keep, eq_refl,
}
use tunnelgate.Text.{Text, bytes, text_eq, text_eq_iff}
use tunnelgate.Text.Sort.{sort, elem-sort}
use tunnelgate.MockApi.Types.{ApiRecord}
use tunnelgate.MockApi.Routes.{wildcard_route_param_keys}
use tunnelgate.MockApi.Validation.{difference, check_query, validate_request_params}
use tunnelgate.MockApi.Validation.Keys.{subset_of_difference, difference_of_subset}

-- The spec's parameters that its path does not bind.
abbrev pub query_keys : ApiRecord → List Text
query_keys mock =
    keep (λ key. not (elem key (wildcard_route_param_keys mock.resolved_route_path)))
      mock.expected_param_keys

elem-keep : (k : Text) (p : Text → Bool) (l : List Text) → elem k (keep p l) ≡ (elem k l && p k)
elem-keep k p [] = refl
elem-keep k p (x ∷ l) = elim (Bool-cases (x == k)) [
  | inl e ↦
      let same : x ≡ k = (text_eq_iff x k).0 e in
      rw same (ground (arith, elem-keep k p l, eq_refl k))
  | inr e ↦ ground (arith, elem-keep k p l)
]

-- A parameter is expected exactly if the spec names it and its path does not bind it.
elem-query_keys :
    (mock : ApiRecord) (key : Text)
    → elem key (query_keys mock) ≡ (
        elem key mock.expected_param_keys
        && not (elem key (wildcard_route_param_keys mock.resolved_route_path)))
elem-query_keys mock key = elem-keep key _ mock.expected_param_keys

-- The checks are made for GET and DELETE alone, and if some parameter is expected.
abbrev pub IsUnchecked : ApiRecord → Type 0
IsUnchecked mock =
    ((mock.method ≢ bytes "GET") × (mock.method ≢ bytes "DELETE"))
    ⊎ ((key : Text) → elem key (query_keys mock) ≡ false)

-- The keys of the query are the expected parameters.
abbrev pub Conforms : ApiRecord → List Text → Type 0
Conforms mock query = (key : Text) → elem key query ≡ elem key (query_keys mock)

same_keys_iff :
    (left right : List Text)
    → ((is_empty (difference (sort left) (sort right))
          && is_empty (difference (sort right) (sort left)))
        ≡ true)
      ↔ ((key : Text) → elem key right ≡ elem key left)
same_keys_iff left right = (
  λ h key.
      Bool-eq_of_iff _ _
        (λ m.
          sym (elem-sort key left)
          ∙ subset_of_difference (sort right) (sort left) (ground arith) key
              (elem-sort key right ∙ m))
        (λ m.
          sym (elem-sort key right)
          ∙ subset_of_difference (sort left) (sort right) (ground arith) key
              (elem-sort key left ∙ m)),
  λ same. ground (
    arith,
    difference_of_subset (sort left) (sort right)
        (λ key m. elem-sort key right ∙ same key ∙ sym (elem-sort key left) ∙ m),
    difference_of_subset (sort right) (sort left)
        (λ key m. elem-sort key left ∙ sym (same key) ∙ sym (elem-sort key right) ∙ m),
  ),
)

sort-empty_iff : (l : List Text) → (is_empty (sort l) ≡ true) ↔ ((key : Text) → elem key l ≡ false)
sort-empty_iff l = (
  λ e key. sym (elem-sort key l) ∙ none_in (sort l) e key,
  λ h. empty (sort l) (λ key. elem-sort key l ∙ h key),
)
  where
    none_in : (l : List Text) → is_empty l ≡ true → (key : Text) → elem key l ≡ false
    none_in [] e key = refl
    none_in (x ∷ l) e key = cc

    empty : (l : List Text) → ((key : Text) → elem key l ≡ false) → is_empty l ≡ true
    empty [] h = refl
    empty (x ∷ l) h = ground (arith, h x, eq_refl x)

check_query_iff :
    (mock : ApiRecord) (query : List Text)
    → ((check_query mock query).ok ≡ true)
      ↔ (((key : Text) → elem key (query_keys mock) ≡ false) ⊎ Conforms mock query)
unfolding check_query
check_query_iff mock query = elim (Bool-cases (is_empty (sort (query_keys mock)))) [
  | inl e ↦ rw e (λ _. inl ((sort-empty_iff (query_keys mock)).0 e), λ _. refl)
  | inr e ↦ rw e (
    λ h. inr ((same_keys_iff (query_keys mock) query).0 h),
    elim [
      | inl none ↦ let f : false ≡ true = sym e ∙ (sort-empty_iff (query_keys mock)).1 none in cc
      | inr c ↦ (same_keys_iff (query_keys mock) query).1 c
    ],
  )
]

is_checked_iff :
    (mock : ApiRecord) (query : List Text)
    → (mock.method ≡ bytes "GET") ⊎ (mock.method ≡ bytes "DELETE")
    → ((check_query mock query).ok ≡ true) ↔ (IsUnchecked mock ⊎ Conforms mock query)
is_checked_iff mock query m = (
  λ h. elim ((check_query_iff mock query).0 h) [ inl n ↦ inl (inr n) | inr c ↦ inr c ],
  elim [
    | inl (inl u) ↦ elim m [ inl g ↦ absurd (u.0 g) | inr d ↦ absurd (u.1 d) ]
    | inl (inr n) ↦ (check_query_iff mock query).1 (inl n)
    | inr c ↦ (check_query_iff mock query).1 (inr c)
  ],
)

-- `ValidateRequestParams` accepts a query exactly when the spec is not checked (its method is
-- neither GET nor DELETE, or no parameter is expected that its path does not bind) or the keys of
-- the query are the expected parameters that the path does not bind.
pub validate_request_params_iff :
    (mock : ApiRecord) (query : List Text)
    → ((validate_request_params mock query).ok ≡ true) ↔ (IsUnchecked mock ⊎ Conforms mock query)
unfolding validate_request_params
validate_request_params_iff mock query = elim (Bool-cases (mock.method == bytes "GET")) [
  | inl g ↦ rw g (is_checked_iff mock query (inl (eq_of_true mock.method (bytes "GET") g)))
  | inr g ↦ elim (Bool-cases (mock.method == bytes "DELETE")) [
    | inl d ↦
        rw (g, d) (is_checked_iff mock query (inr (eq_of_true mock.method (bytes "DELETE") d)))
    | inr d ↦ rw (g, d) (λ _. inl (inl (ne_of_false _ _ g, ne_of_false _ _ d)), λ _. refl)
  ]
]
