-- ===== src/MockApi/Validation/Keys.antt =====
-- When the body of a request passes.
use mathlib.Core.Path.{subst, ap₂}
use tunnelgate.Prelude.{
  true, false, not, ◌&&◌, some, List, [], ◌∷◌, ◌≡◌, refl, sym, ◌↔◌, ◌⊎◌, inl, inr, arith, is_empty,
  elem, ◌==◌, Bool-cases, Option-cases, eq_refl, eq_of_true, Bool-eq_of_iff, ◌∙◌, ap,
}
use tunnelgate.Text.{Text, text_eq, text_eq_iff}
use tunnelgate.Text.Sort.{sort, elem-sort}
use tunnelgate.Json.{Value, null, boolean, number, text, array, object, raw, Fields, keys, get}
use tunnelgate.MockApi.Types.{ApiRecord, type_at}
use tunnelgate.MockApi.Validation.{
  difference, type_mismatches, infer_json_type, validate_request_keys, has_body_validation_method,
  check_object, check_body, sorted_keys,
}

pub elem-difference :
    (k : Text) (left right : List Text)
    → elem k (difference left right) ≡ (elem k left && not (elem k right))
unfolding difference
elem-difference k [] right = refl
elem-difference k (s ∷ left) right = elim (Bool-cases (elem s right)) [
  | inl e ↦ rw e (ground (arith, elem-difference k left right, text_eq_iff s k))
  | inr e ↦ rw e (ground (arith, elem-difference k left right, text_eq_iff s k))
]

pub subset_of_difference :
    (left right : List Text)
    → is_empty (difference left right) ≡ true
    → (k : Text) → elem k left ≡ true
    → elem k right ≡ true
subset_of_difference left right h k m = go (difference left right) (elem-difference k left right) h
  where
    go :
        (d : List Text)
        → elem k d ≡ (elem k left && not (elem k right))
        → is_empty d ≡ true
        → elem k right ≡ true
    go [] e _ = ground arith
    go (x ∷ d) e h' = cc

pub difference_of_subset :
    (left right : List Text)
    → ((k : Text) → elem k left ≡ true → elem k right ≡ true)
    → is_empty (difference left right) ≡ true
difference_of_subset left right h = go (difference left right) (λ k. elem-difference k left right)
  where
    go :
        (d : List Text)
        → ((k : Text) → elem k d ≡ (elem k left && not (elem k right)))
        → is_empty d ≡ true
    go [] e = refl
    go (x ∷ d) e = ground (arith, e x, h x, eq_refl x)

-- The value under a key, if there is one, has the type that the spec expects, if it expects one.
abbrev pub TypeFits : ApiRecord → Fields → Text → Type 0
TypeFits mock incoming key =
    (value : Value)
    → get key incoming ≡ some value
    → (type_at mock.expected_request_types key ≡ [])
      ⊎ (infer_json_type value ≡ type_at mock.expected_request_types key)

empty_iff : (s : Text) → (is_empty s ≡ true) ↔ (s ≡ [])
empty_iff [] = ground arith
empty_iff (c ∷ s) = ground arith

type_mismatches_sound :
    (mock : ApiRecord) (incoming : Fields) (key : Text) (rest : List Text)
    → is_empty (type_mismatches mock incoming (key ∷ rest)) ≡ true
    → TypeFits mock incoming key × (is_empty (type_mismatches mock incoming rest) ≡ true)
unfolding type_mismatches
type_mismatches_sound mock incoming key rest h = (
  λ value found. ground (
    arith,
    empty_iff (type_at mock.expected_request_types key),
    text_eq_iff (infer_json_type value) (type_at mock.expected_request_types key),
  ),
  ground arith,
)

type_mismatches_complete :
    (mock : ApiRecord) (incoming : Fields) (key : Text) (rest : List Text)
    → TypeFits mock incoming key
    → is_empty (type_mismatches mock incoming rest) ≡ true
    → is_empty (type_mismatches mock incoming (key ∷ rest)) ≡ true
unfolding type_mismatches
type_mismatches_complete mock incoming key rest fits h = elim (Option-cases (get key incoming)) [
  | inl e ↦ ground arith
  | inr (value, e) ↦ ground (
    arith,
    fits value e,
    empty_iff (type_at mock.expected_request_types key),
    text_eq_iff (infer_json_type value) (type_at mock.expected_request_types key),
  )
]

-- No type is reported as wrong exactly when every expected key's value fits.
type_mismatches-empty_iff :
    (mock : ApiRecord) (incoming : Fields) (expected : List Text)
    → (is_empty (type_mismatches mock incoming expected) ≡ true)
      ↔ ((key : Text) → elem key expected ≡ true → TypeFits mock incoming key)
unfolding type_mismatches
type_mismatches-empty_iff mock incoming expected = (sound expected, complete expected)
  where
    sound :
        (expected : List Text)
        → is_empty (type_mismatches mock incoming expected) ≡ true
        → (key : Text) → elem key expected ≡ true
        → TypeFits mock incoming key
    sound [] h key m = cc
    sound (k ∷ rest) h key m =
        let (here, later) = type_mismatches_sound mock incoming k rest h in
        elim (Bool-cases (k == key)) [
          | inl e ↦ subst (TypeFits mock incoming) (eq_of_true k key e) here
          | inr e ↦ sound rest later key (ground arith)
        ]

    complete :
        (expected : List Text)
        → ((key : Text) → elem key expected ≡ true → TypeFits mock incoming key)
        → is_empty (type_mismatches mock incoming expected) ≡ true
    complete [] h = refl
    complete (k ∷ rest) h =
        type_mismatches_complete mock incoming k rest (h k (rw (eq_refl k)))
          (complete rest (λ key m. h key (ground arith)))

-- The body is an object with exactly the expected keys, whose values have the expected types.
pub record Conforms (mock : ApiRecord) (body : Value) : Type 0 where
  pub incoming : Fields
  pub is_object : body ≡ object incoming
  pub same_keys : (key : Text) → elem key mock.expected_request_keys ≡ elem key (keys incoming)
  pub fits : (key : Text) → elem key mock.expected_request_keys ≡ true → TypeFits mock incoming key

-- The checks that `ValidateRequestKeys` makes only for some specs.
abbrev pub IsUnchecked : ApiRecord → Type 0
IsUnchecked mock =
    (has_body_validation_method mock.method ≡ false) ⊎ (mock.expected_request_keys ≡ [])

check_object_sound :
    (mock : ApiRecord) (incoming : Fields)
    → (check_object mock incoming).ok ≡ true
    → Conforms mock (object incoming)
unfolding check_object sorted_keys
check_object_sound mock incoming h = record {
  incoming = incoming;
  is_object = refl;
  same_keys = λ key.
      Bool-eq_of_iff _ _
        (λ m.
          sym (elem-sort key (keys incoming))
          ∙ subset_of_difference e i (ground arith) key (elem-sort key _ ∙ m))
        (λ m.
          sym (elem-sort key mock.expected_request_keys)
          ∙ subset_of_difference i e (ground arith) key (elem-sort key _ ∙ m));
  fits = λ key m.
      (type_mismatches-empty_iff mock incoming e).0 (ground arith) key (elem-sort key _ ∙ m);
}
  where
    e : List Text
    e = sort mock.expected_request_keys

    i : List Text
    i = sort (keys incoming)

check_object_complete :
    (mock : ApiRecord) (incoming : Fields)
    → ((key : Text) → elem key mock.expected_request_keys ≡ elem key (keys incoming))
    → ((key : Text) → elem key mock.expected_request_keys ≡ true → TypeFits mock incoming key)
    → (check_object mock incoming).ok ≡ true
unfolding check_object sorted_keys
check_object_complete mock incoming same fits = ground (
  arith,
  difference_of_subset e i (λ key m. elem-sort key _ ∙ sym (same key) ∙ sym (elem-sort key _) ∙ m),
  difference_of_subset i e (λ key m. elem-sort key _ ∙ same key ∙ sym (elem-sort key _) ∙ m),
  (type_mismatches-empty_iff mock incoming e).1 (λ key m. fits key (sym (elem-sort key _) ∙ m)),
)
  where
    e : List Text
    e = sort mock.expected_request_keys

    i : List Text
    i = sort (keys incoming)

-- A body that is not an object conforms to nothing.
check_body_iff :
    (mock : ApiRecord) (body : Value) → ((check_body mock body).ok ≡ true) ↔ Conforms mock body
unfolding check_body
check_body_iff mock (object incoming) = (
  check_object_sound mock incoming,
  λ c.
      check_object_complete mock incoming
        (λ key. c.same_keys key ∙ ap (λ f. elem key (keys f)) (same c))
        (λ key m. subst (λ f. TypeFits mock f key) (same c) (c.fits key m)),
)
  where
    same : (c : Conforms mock (object incoming)) → c.incoming ≡ incoming
    same c = cc (c.is_object)
check_body_iff mock null = (λ h. cc, λ c. cc (c.is_object))
check_body_iff mock (boolean b) = (λ h. cc, λ c. cc (c.is_object))
check_body_iff mock (number n) = (λ h. cc, λ c. cc (c.is_object))
check_body_iff mock (text s) = (λ h. cc, λ c. cc (c.is_object))
check_body_iff mock (array items) = (λ h. cc, λ c. cc (c.is_object))
check_body_iff mock (raw s) = (λ h. cc, λ c. cc (c.is_object))

is_empty-keys : (l : List Text) → (is_empty l ≡ true) ↔ (l ≡ [])
is_empty-keys [] = ground arith
is_empty-keys (k ∷ l) = ground arith

-- `ValidateRequestKeys` accepts a body exactly when the spec is not checked (its method carries no
-- body, or it expects no key) or the body is an object whose keys are the expected ones and whose
-- values have the types that the spec expects of them.
pub validate_request_keys_iff :
    (mock : ApiRecord) (body : Value)
    → ((validate_request_keys mock body).ok ≡ true) ↔ (IsUnchecked mock ⊎ Conforms mock body)
unfolding validate_request_keys
validate_request_keys_iff mock body = elim (Bool-cases (has_body_validation_method mock.method)) [
  | inl m ↦ elim (Bool-cases (is_empty mock.expected_request_keys)) [
    | inl e ↦ rw (m, e) (λ _. inl (inr ((is_empty-keys _).0 e)), λ _. refl)
    | inr e ↦
        rw (m, e)
          (
            λ h. inr ((check_body_iff mock body).0 h),
            elim [
              | inl u ↦ ground (arith, is_empty-keys mock.expected_request_keys)
              | inr c ↦ (check_body_iff mock body).1 c
            ],
          )
  ]
  | inr m ↦ rw m (λ _. inl (inl refl), λ _. refl)
]

-- What a rejected object is told: the missing keys are the expected ones that it lacks, and the
-- unexpected keys those of its own that the spec does not expect.
pub validate_request_keys_report :
    (mock : ApiRecord) (incoming : Fields) (key : Text)
    → has_body_validation_method mock.method ≡ true
    → is_empty mock.expected_request_keys ≡ false
    → (elem key (validate_request_keys mock (object incoming)).missing_keys
        ≡ (elem key mock.expected_request_keys && not (elem key (keys incoming))))
      × (elem key (validate_request_keys mock (object incoming)).unexpected_keys
          ≡ (elem key (keys incoming) && not (elem key mock.expected_request_keys)))
unfolding validate_request_keys
validate_request_keys_report mock incoming key m e =
    rw (m, e)
      (
        elem-difference key _ _ ∙ ap₂ (λ a b. a && not b) (elem-sort key _) (elem-sort key _),
        elem-difference key _ _ ∙ ap₂ (λ a b. a && not b) (elem-sort key _) (elem-sort key _),
      )
