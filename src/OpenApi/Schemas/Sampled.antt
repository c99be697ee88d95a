-- ===== src/OpenApi/Schemas/Sampled.antt =====
-- When `sampleForSchema` returns: backend/internal/features/api-specs/spec_transform.go.
use tunnelgate.Prelude.{
  refl, ◌+◌, ◌≤◌, ◌≡◌, ◌||◌, ◌==◌, if◌then◌else◌, ℕ, zero, suc, inl, inr, Bool, true, false, Option,
  none, some, [], arith, if-elim, Option-cases, is_empty, ℕ_eq,
}
use tunnelgate.Text.{bytes, Text, text_eq, to_lower}
use tunnelgate.Json.{Value, number, boolean, text, array, object, nil, cons, end, field}
use tunnelgate.OpenApi.Schemas.{
  Schema, schema, Properties, empty_map, property, ItemSchema, no_schema, of_items, Spec,
  properties_of, items_of, resolve_open_api_schema, sample_properties, sample_items, and_then,
  sample_resolved, sample_for_schema,
}

pub data HasProperty : Schema → Properties → Type 0 where
  first_one :
      {key : Text} {given : Schema} {rest : Properties}
      → HasProperty given (property key given rest)
  later_one :
      {key : Text} {given other : Schema} {rest : Properties}
      → HasProperty given rest
      → HasProperty given (property key other rest)

-- A schema that stands in the one that the parent is resolved to.
pub data IsChild (spec : Spec) : Schema → Schema → Type 0 where
  in_properties :
      {child parent : Schema}
      → HasProperty child (properties_of (resolve_open_api_schema spec parent))
      → IsChild spec child parent
  in_items :
      {child parent : Schema}
      → items_of (resolve_open_api_schema spec parent) ≡ of_items child
      → IsChild spec child parent

-- No chain of children goes on for ever.
pub data IsFinite (spec : Spec) : Schema → Type 0 where
  finite :
      {given : Schema}
      → ((child : Schema) → IsChild spec child given → IsFinite spec child)
      → IsFinite spec given

-- A run that returns.
abbrev pub Returns {ℓ} : {A : Type ℓ} → Option A → Type ℓ
Returns {A = A} result = (value : A) × (result ≡ some value)

-- The second run returns what the first one returns, if that returns.
abbrev Below {ℓ} : {A : Type ℓ} → Option A → Option A → Type ℓ
Below {A = A} first second = (value : A) → first ≡ some value → second ≡ some value

and_then-Below {ℓ κ} :
    {A : Type ℓ} {B : Type κ} (first second : Option A) (k l : A → Option B)
    → Below first second
    → ((value : A) → Below (k value) (l value))
    → Below (and_then first k) (and_then second l)
and_then-Below none second k l h g value e = cc
and_then-Below (some x) second k l h g value e = rw (h x refl) (g x value e)

and_then-Returns {ℓ κ} :
    {A : Type ℓ} {B : Type κ} (first : Option A) (k : A → Option B)
    → Returns first
    → ((value : A) → Returns (k value))
    → Returns (and_then first k)
and_then-Returns first k (value, e) h = rw e (h value)

if-Below {ℓ} :
    {A : Type ℓ} (b : Bool) (x y z w : Option A)
    → Below x z
    → Below y w
    → Below (if b then x else y) (if b then z else w)
if-Below true x y z w f g = f
if-Below false x y z w f g = g

module _ (f g : Schema → Option Value) (below : (given : Schema) → Below (f given) (g given)) where
  sample_properties-Below :
      (properties : Properties)
      → Below (sample_properties f properties) (sample_properties g properties)
  sample_properties-Below empty_map = λ fields e. e
  sample_properties-Below (property key given rest) =
      and_then-Below (f given) (g given) _ _ (below given) (λ value.
        and_then-Below (sample_properties f rest) (sample_properties g rest) _ _
          (sample_properties-Below rest) (λ fields result e. e))

  sample_items-Below : (items : ItemSchema) → Below (sample_items f items) (sample_items g items)
  sample_items-Below no_schema = λ value e. e
  sample_items-Below (of_items given) =
      and_then-Below (f given) (g given) _ _ (below given) (λ value result e. e)

  sample_resolved-Below :
      (given : Schema) → Below (sample_resolved f given) (sample_resolved g given)
  sample_resolved-Below (schema ref type_name properties items (some example)) value e = e
  sample_resolved-Below (schema ref type_name properties items none) value e =
      let lower = to_lower type_name in
      if-Below (lower == bytes "array") _ _ _ _ (sample_items-Below items)
        (if-Below (lower == bytes "object" || is_empty lower) _ _ _ _
          (and_then-Below (sample_properties f properties) (sample_properties g properties) _ _
            (sample_properties-Below properties) (λ fields result e. e))
          (λ result e. e))
        value e

-- More fuel gives the same sample.
sample_for_schema-Below :
    (spec : Spec) (m n : ℕ)
    → m ≤ n
    → (given : Schema) → Below (sample_for_schema spec m given) (sample_for_schema spec n given)
unfolding sample_for_schema
sample_for_schema-Below spec zero n h given value e = cc
sample_for_schema-Below spec (suc m) zero h given value e = absurd (omega (arith, h))
sample_for_schema-Below spec (suc m) (suc n) h given value e =
    sample_resolved-Below (sample_for_schema spec m) (sample_for_schema spec n)
      (sample_for_schema-Below spec m n (omega (arith, h))) (resolve_open_api_schema spec given)
      value e

Returns-Below {ℓ} :
    {A : Type ℓ} (first second : Option A) → Below first second → Returns first → Returns second
Returns-Below first second h (value, e) = (value, h value e)

module _ (spec : Spec) where
  -- Some amount of fuel is enough.
  abbrev pub HasSample : Schema → Type 0
  HasSample given = (fuel : ℕ) × Returns (sample_for_schema spec fuel given)

  properties-sampled :
      (properties : Properties)
      → ((child : Schema) → HasProperty child properties → HasSample child)
      → (fuel : ℕ) × Returns (sample_properties (sample_for_schema spec fuel) properties)
  properties-sampled empty_map h = (0, (end, refl))
  properties-sampled (property key given rest) h =
      let (m, first) = h given first_one in
      let (n, others) = properties-sampled rest (λ child c. h child (later_one c)) in
      let both = sample_for_schema spec (m + n) in
      (
        m + n,
        and_then-Returns (both given) _
            (Returns-Below _ _ (sample_for_schema-Below spec m (m + n) (omega arith) given) first)
            (λ value.
              and_then-Returns (sample_properties both rest) _
                (Returns-Below _ _
                  (sample_properties-Below (sample_for_schema spec n) both
                    (sample_for_schema-Below spec n (m + n) (omega arith)) rest)
                  others)
                (λ fields. (field key value fields, refl))),
      )

  items-sampled :
      (items : ItemSchema)
      → ((child : Schema) → items ≡ of_items child → HasSample child)
      → (fuel : ℕ) × Returns (sample_items (sample_for_schema spec fuel) items)
  items-sampled no_schema h = (0, (array nil, refl))
  items-sampled (of_items given) h =
      let (fuel, first) = h given refl in
      (
        fuel,
        and_then-Returns (sample_for_schema spec fuel given) _ first
            (λ value. (array (cons value nil), refl)),
      )

  resolved-sampled :
      (resolved : Schema)
      → ((child : Schema) → HasProperty child (properties_of resolved) → HasSample child)
      → ((child : Schema) → items_of resolved ≡ of_items child → HasSample child)
      → (fuel : ℕ) × Returns (sample_resolved (sample_for_schema spec fuel) resolved)
  resolved-sampled (schema ref type_name properties items (some example)) h k = (0, (example, refl))
  resolved-sampled (schema ref type_name properties items none) h k =
      let (m, of_properties) = properties-sampled properties h in
      let (n, from_items) = items-sampled items k in
      let both = sample_for_schema spec (m + n) in
      let lower = to_lower type_name in
      (
        m + n,
        if-elim Returns (lower == bytes "array") _ _
            (λ _.
              Returns-Below _ _
                (sample_items-Below (sample_for_schema spec n) both
                  (sample_for_schema-Below spec n (m + n) (omega arith)) items)
                from_items)
            (λ _.
              if-elim Returns (lower == bytes "object" || is_empty lower) _ _
                (λ _.
                  and_then-Returns (sample_properties both properties) _
                    (Returns-Below _ _
                      (sample_properties-Below (sample_for_schema spec m) both
                        (sample_for_schema-Below spec m (m + n) (omega arith)) properties)
                      of_properties)
                    (λ fields. (object fields, refl)))
                (λ _.
                  if-elim Returns (lower == bytes "integer" || lower == bytes "number") _ _
                    (λ _. (number (bytes "0"), refl))
                    (λ _.
                      if-elim Returns (lower == bytes "boolean") _ _ (λ _. (boolean false, refl))
                        (λ _. (text [], refl))))),
      )

  finite_sampled : (given : Schema) → IsFinite spec given → HasSample given
  unfolding sample_for_schema
  finite_sampled given (finite children) =
      let (fuel, (value, e)) =
        resolved-sampled (resolve_open_api_schema spec given)
          (λ child c. finite_sampled child (children child (in_properties c)))
          (λ child c. finite_sampled child (children child (in_items c))) in
      (suc fuel, (value, e))

  -- `sampleForSchema` returns on every schema from which no chain of properties and items, with
  -- references followed, goes on for ever: some fuel is enough, and more gives the same sample.
  pub sample_for_schema-Returns :
      (given : Schema)
      → IsFinite spec given
      → (fuel : ℕ) × (value : Value) × ((more : ℕ)
          → fuel ≤ more
          → sample_for_schema spec more given ≡ some value)
  sample_for_schema-Returns given h =
      let (fuel, (value, e)) = finite_sampled given h in
      (fuel, value, (λ more le. sample_for_schema-Below spec fuel more le given value e))

  -- A schema with a property that never returns never returns either.
  properties-stuck :
      (f : Schema → Option Value) (child : Schema) (properties : Properties)
      → f child ≡ none
      → HasProperty child properties
      → sample_properties f properties ≡ none
  properties-stuck f child empty_map e c = elim c [ ]
  properties-stuck f child (property key given rest) e (first_one) = rw e refl
  properties-stuck f child (property key other rest) e (later_one c) =
      elim (Option-cases (f other)) [
        | inl none_there ↦ rw none_there refl
        | inr (value, h) ↦ rw (h, properties-stuck f child rest e c) refl
      ]

  -- On an object schema without an example that is, with references followed, a property of itself,
  -- `sampleForSchema` never returns: no amount of fuel is enough.
  pub sample_for_schema-cyclic :
      (given : Schema) {ref type_name : Text} {properties : Properties} {items : ItemSchema}
      → resolve_open_api_schema spec given ≡ schema ref type_name properties items none
      → to_lower type_name ≡ bytes "object"
      → HasProperty given properties
      → (fuel : ℕ) → sample_for_schema spec fuel given ≡ none
  unfolding sample_for_schema
  sample_for_schema-cyclic given e kind c zero = refl
  sample_for_schema-cyclic given {properties = properties} e kind c (suc fuel) =
      rw
        (
          e,
          kind,
          properties-stuck (sample_for_schema spec fuel) given properties
              (sample_for_schema-cyclic given e kind c fuel) c,
        )
        refl
