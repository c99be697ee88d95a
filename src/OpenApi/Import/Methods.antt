-- ===== src/OpenApi/Import/Methods.antt =====
-- What the case of the methods does in an import:
-- backend/internal/features/api-specs/spec_transform.go.
use tunnelgate.Prelude.{
  refl, ◌≡◌, ◌∙◌, ◌∷◌, ◌==◌, ℕ, sym, ap, inl, inr, Bool, true, not, none, List, [], map, arith,
  Bool-cases, all, keep, ℕ_eq, eq_refl, eq_of_true, elem,
}
use tunnelgate.Text.{Text, text_eq, to_lower}
use tunnelgate.Text.Sort.{elem-sort}
use tunnelgate.OpenApi.Schemas.{Spec}
use tunnelgate.OpenApi.Operations.{Operation, entry_at}
use tunnelgate.OpenApi.Import.{
  Calls, open_api_http_methods, sorted_open_api_methods, zero_operation, operation_at,
  import_methods,
}

abbrev pub is_method : Text → Bool
is_method method = elem method open_api_http_methods

-- Whether no key is a method in lower case.
abbrev pub no_lower_case : List (Text × Operation) → Bool
no_lower_case methods = all (λ entry. not (elem entry.0 open_api_http_methods)) methods

-- `p` holds of no key.
abbrev holds_of_none : (Text → Bool) → List (Text × Operation) → Bool
holds_of_none p methods = all (λ entry. not (p entry.0)) methods

entry_at-missing :
    (p : Text → Bool) (method : Text) (methods : List (Text × Operation))
    → p method ≡ true
    → holds_of_none p methods ≡ true
    → entry_at method methods ≡ none
entry_at-missing p method [] m h = refl
entry_at-missing p method ((key, operation) ∷ methods) m h = elim (Bool-cases (key == method)) [
  | inl e ↦ ground (arith, h, m, ap p (eq_of_true key method e))
  | inr e ↦ rw (e, entry_at) (entry_at-missing p method methods m (ground (arith, h)))
]

operation_at-missing :
    (p : Text → Bool) (method : Text) (methods : List (Text × Operation))
    → p method ≡ true
    → holds_of_none p methods ≡ true
    → operation_at method methods ≡ zero_operation
unfolding operation_at
operation_at-missing p method methods m h =
    rw (entry_at-missing p method methods m h, operation_at) refl

all-of-elem :
    (p : Text → Bool) (ts : List Text)
    → ((t : Text) → elem t ts ≡ true → p t ≡ true)
    → all p ts ≡ true
all-of-elem p [] h = refl
all-of-elem p (t ∷ ts) h =
    ground (arith, h t (rw (eq_refl t) refl), all-of-elem p ts (λ s k. h s (ground (arith, k))))

elem-keep : (p : Text → Bool) (t : Text) (ts : List Text) → elem t (keep p ts) ≡ true → p t ≡ true
elem-keep p t [] h = cc
elem-keep p t (x ∷ ts) h = elim (Bool-cases (p x)) [
  | inl e ↦ elim (Bool-cases (x == t)) [
    | inl f ↦ sym (ap p (eq_of_true x t f)) ∙ e
    | inr f ↦ elem-keep p t ts (ground (arith, e, f, h))
  ]
  | inr e ↦ elem-keep p t ts (ground (arith, e, h))
]

pub sorted_open_api_methods-is_method :
    (methods : List (Text × Operation)) → all is_method (sorted_open_api_methods methods) ≡ true
unfolding sorted_open_api_methods
sorted_open_api_methods-is_method methods =
    let lowered = map (λ entry. to_lower entry.0) methods in
    all-of-elem is_method (sorted_open_api_methods methods)
      (λ t h. elem-keep is_method t lowered (sym (elem-sort t (keep is_method lowered)) ∙ h))

module _ (calls : Calls) (fuel : ℕ) (spec : Spec) (spec_name path : Text) where
  import_methods-missing :
      (p : Text → Bool) (methods : List (Text × Operation)) (names : List Text)
      → holds_of_none p methods ≡ true
      → all p names ≡ true
      → import_methods calls fuel spec spec_name path methods names
        ≡ import_methods calls fuel spec spec_name path [] names
  unfolding import_methods
  import_methods-missing p methods [] h k = refl
  import_methods-missing p methods (name ∷ names) h k =
      let read = operation_at-missing p name methods (ground (arith, k)) h in
      let unread = operation_at-missing p name [] (ground (arith, k)) refl in
      rw (read ∙ sym unread, import_methods-missing p methods names h (ground (arith, k))) refl

  -- If no key of the methods of a path is a method of HTTP in lower case, then the import of the
  -- path reads none of its operations: it gives what it gives for the same sorted methods and a map
  -- without an operation.
  pub import_methods-no_lower_case :
      (methods : List (Text × Operation))
      → no_lower_case methods ≡ true
      → import_methods calls fuel spec spec_name path methods (sorted_open_api_methods methods)
        ≡ import_methods calls fuel spec spec_name path [] (sorted_open_api_methods methods)
  import_methods-no_lower_case methods h =
      import_methods-missing is_method methods (sorted_open_api_methods methods) h
        (sorted_open_api_methods-is_method methods)
