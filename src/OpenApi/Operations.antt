-- ===== src/OpenApi/Operations.antt =====
-- The operations of an OpenAPI spec and their bodies: the types and `openAPIRequestMedia` to
-- `openAPIMediaExampleValue` of backend/internal/features/api-specs/spec_transform.go, with the
-- helpers of service.go beside it. What calls `sampleForSchema` takes its fuel, and is `none` where
-- that runs out.
use tunnelgate.Prelude.{
  ◌∷◌, ◌++◌, ◌==◌, if◌then◌else◌, ℕ, not, Option, none, some, List, [], map, keep, ℕ_eq, elem,
}
use tunnelgate.Text.{bytes, Text, text_eq, trim_space, to_lower, equal_fold}
use tunnelgate.Text.Sort.{text_leb, sort}
use tunnelgate.Json.{
  Value, null, boolean, number, text, array, object, raw, cons, Fields, end, field,
}
use tunnelgate.Sanitize.{payload}
use tunnelgate.MockApi.Types.{RequestBodyTypes}
use tunnelgate.OpenApi.Schemas.{
  Schema, Properties, empty_map, property, no_schema, of_items, Spec, and_then, type_of,
  properties_of, items_of, resolve_open_api_schema, open_api_schema_type, sample_for_schema,
}

pub record Parameter : Type 0 where
  pub name : Text
  pub location : Text
  pub schema_of : Option Schema
  pub example : Option Value

-- The values of the named examples may be nil.
pub record MediaType : Type 0 where
  pub schema_of : Option Schema
  pub example : Option Value
  pub examples : List (Text × Option Value)

pub record ApiResponse : Type 0 where
  pub description : Text
  pub content : List (Text × MediaType)

pub record Operation : Type 0 where
  pub operation_id : Text
  pub summary : Text
  pub tags : List Text
  pub parameters : List Parameter
  pub request_body : Option (List (Text × MediaType))
  pub responses : List (Text × ApiResponse)

-- A map sorted by its keys.
abbrev pub insert_entry {ℓ} : {A : Type ℓ} → Text × A → List (Text × A) → List (Text × A)
insert_entry entry [] = entry ∷ []
insert_entry entry (e ∷ entries) =
    if text_leb entry.0 e.0 then entry ∷ e ∷ entries else e ∷ insert_entry entry entries

abbrev pub sorted_entries {ℓ} : {A : Type ℓ} → List (Text × A) → List (Text × A)
sorted_entries [] = []
sorted_entries (entry ∷ entries) = insert_entry entry (sorted_entries entries)

abbrev pub entry_at {ℓ} : {A : Type ℓ} → Text → List (Text × A) → Option A
entry_at key [] = none
entry_at key ((k, value) ∷ entries) = if k == key then some value else entry_at key entries

abbrev pub first_entry {ℓ} : {A : Type ℓ} → List (Text × A) → Option A
first_entry [] = none
first_entry ((key, value) ∷ entries) = some value

abbrev pub or_else {ℓ} : {A : Type ℓ} → Option A → Option A → Option A
or_else none other = other
or_else (some value) other = some value

unfoldable pub preferred_media_type : List (Text × MediaType) → Option MediaType
preferred_media_type content = or_else (entry_at (bytes "application/json") content) (
    or_else (entry_at (bytes "application/*+json") content)
      (or_else (entry_at (bytes "text/json") content) (first_entry (sorted_entries content))))

abbrev pub first_value : List (Text × Option Value) → Option Value
first_value [] = none
first_value ((name, none) ∷ examples) = first_value examples
first_value ((name, some value) ∷ examples) = some value

-- The loop of `openAPIRequestMedia` over the parameters.
abbrev pub body_parameter : List Parameter → Option MediaType
body_parameter [] = none
body_parameter (parameter ∷ parameters) =
    let later = body_parameter parameters in
    if not (to_lower (trim_space parameter.location) == bytes "body")
    then later
    else elim parameter.schema_of [
      | some given ↦
          some (record { schema_of = some given; example = parameter.example; examples = [] })
      | none ↦ elim parameter.example [
        | some value ↦ some (record { schema_of = none; example = some value; examples = [] })
        | none ↦ later
      ]
    ]

unfoldable pub open_api_request_media : Operation → Option MediaType
unfolding preferred_media_type
open_api_request_media operation = elim operation.request_body [
  | none ↦ body_parameter operation.parameters
  | some content ↦ or_else (preferred_media_type content) (body_parameter operation.parameters)
]

abbrev pub request_object_source : Value → Option Fields
request_object_source (object fields) = some fields
request_object_source (array (cons (object fields) items)) = some fields
request_object_source value = none

abbrev pub infer_any_body_type : Value → Text
infer_any_body_type null = bytes "null"
infer_any_body_type (array items) = bytes "array"
infer_any_body_type (object fields) = bytes "object"
infer_any_body_type (text s) = bytes "string"
infer_any_body_type (number n) = bytes "number"
infer_any_body_type (boolean b) = bytes "boolean"
infer_any_body_type (raw s) = bytes "string"

abbrev pub object_types : Fields → RequestBodyTypes
object_types end = []
object_types (field key value rest) = (key, infer_any_body_type value) ∷ object_types rest

abbrev pub property_types : Spec → Properties → RequestBodyTypes
property_types spec empty_map = []
property_types spec (property key given rest) =
    (key, open_api_schema_type spec given) ∷ property_types spec rest

abbrev pub keys_of : RequestBodyTypes → List Text
keys_of types = map (λ entry. entry.0) types

-- The example of a body, which may be missing.
unfoldable pub media_example_value : Spec → ℕ → MediaType → Option (Option Value)
unfolding sample_for_schema
media_example_value spec fuel media =
    elim (or_else media.example (first_value (sorted_entries media.examples))) [
      | some value ↦ some (some value)
      | none ↦ elim media.schema_of [
        | some given ↦ and_then (sample_for_schema spec fuel given) (λ value. some (some value))
        | none ↦ some none
      ]
    ]

-- The types of `openAPIExampleBodyKeys`, whose keys are those of the types.
abbrev pub example_types : Option Value → RequestBodyTypes
example_types none = []
example_types (some value) = elim (request_object_source value) [
  | none ↦ []
  | some fields ↦ object_types fields
]

-- The schema whose properties are the keys of a body.
abbrev pub body_schema : Spec → Schema → Schema
body_schema spec given =
    let resolved = resolve_open_api_schema spec given in
    if equal_fold (type_of resolved) (bytes "array")
    then elim (items_of resolved) [
      | no_schema ↦ resolved
      | of_items item ↦ resolve_open_api_schema spec item
    ]
    else resolved

abbrev pub schema_types : Spec → Option Schema → RequestBodyTypes
schema_types spec none = []
schema_types spec (some given) = property_types spec (properties_of (body_schema spec given))

-- The keys and types of a body: those of the schema, and those of the example that the schema does
-- not have.
abbrev pub merged_types : RequestBodyTypes → RequestBodyTypes → RequestBodyTypes
merged_types types others = types ++ keep (λ entry. not (elem entry.0 (keys_of types))) others

unfoldable pub open_api_request_body_keys :
    Spec → ℕ → Operation → Option (List Text × RequestBodyTypes)
unfolding open_api_request_media media_example_value
open_api_request_body_keys spec fuel operation = elim (open_api_request_media operation) [
  | none ↦ some ([], [])
  | some media ↦ and_then (media_example_value spec fuel media) (λ value.
      let types = merged_types (schema_types spec media.schema_of) (example_types value) in
      some (sort (keys_of types), types))
]

-- `indent` is `json.MarshalIndent` of `marshalExample`.
abbrev pub example_body : (Value → Option Text) → Option Value → Text
example_body indent none = bytes "{}"
example_body indent (some value) = elim (indent value) [
  | none ↦ bytes "{}"
  | some payload ↦ payload
]

unfoldable pub media_example_body : (Value → Option Text) → Spec → ℕ → MediaType → Option Text
unfolding media_example_value
media_example_body indent spec fuel media =
    and_then (media_example_value spec fuel media) (λ value. some (example_body indent value))

unfoldable pub open_api_request_body_example :
    (Value → Option Text) → Spec → ℕ → Operation → Option (Text × Text)
unfolding open_api_request_media media_example_body
open_api_request_body_example indent spec fuel operation = elim (open_api_request_media operation) [
  | none ↦ some ([], bytes "none")
  | some media ↦
      and_then (media_example_body indent spec fuel media) (λ body. some (body, bytes "json"))
]
