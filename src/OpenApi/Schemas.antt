-- ===== src/OpenApi/Schemas.antt =====
-- Schemas of an OpenAPI spec, and the samples that are made of them, in
-- backend/internal/features/api-specs/spec_transform.go. Maps are in the order of one walk over
-- them, and a field that is nil is `none`. The fields `format` and `enum` are not read.
pub mod Sampled
use tunnelgate.Prelude.{
  ◌&&◌, ◌||◌, ◌∷◌, ◌==◌, if◌then◌else◌, ℕ, zero, suc, Bool, true, false, Option, none, some, List,
  [], is_empty, ℕ_eq, list_eq, elem,
}
use tunnelgate.Text.{bytes, Text, text_eq, trim_prefix, trim_space, to_lower}
use tunnelgate.Json.{Value, boolean, number, text, array, object, nil, cons, Fields, end, field}

mutual
  pub data Schema : Type 0 where
    schema : Text → Text → Properties → ItemSchema → Option Value → Schema

  pub data Properties : Type 0 where
    empty_map : Properties
    property : Text → Schema → Properties → Properties

  pub data ItemSchema : Type 0 where
    no_schema : ItemSchema
    of_items : Schema → ItemSchema

-- The maps `components.schemas` and `definitions`.
pub record Spec : Type 0 where
  pub schemas : List (Text × Schema)
  pub definitions : List (Text × Schema)

abbrev pub ref_of : Schema → Text
ref_of (schema ref type_name properties items example) = ref

abbrev pub type_of : Schema → Text
type_of (schema ref type_name properties items example) = type_name

abbrev pub properties_of : Schema → Properties
properties_of (schema ref type_name properties items example) = properties

abbrev pub items_of : Schema → ItemSchema
items_of (schema ref type_name properties items example) = items

abbrev pub has_properties : Properties → Bool
has_properties empty_map = false
has_properties (property key first rest) = true

abbrev pub schema_at : Text → List (Text × Schema) → Option Schema
schema_at name [] = none
schema_at name ((key, found) ∷ schemas) = if key == name then some found else schema_at name schemas

-- The schema under the name that follows the prefix, if the reference has the prefix.
abbrev pub resolve_in : Text → List (Text × Schema) → Text → Option Schema
resolve_in prefix schemas ref =
    let name = trim_prefix ref prefix in if name == ref then none else schema_at name schemas

abbrev pub components_prefix : Text
components_prefix = bytes "#/components/schemas/"

abbrev pub definitions_prefix : Text
definitions_prefix = bytes "#/definitions/"

unfoldable pub resolve_open_api_schema : Spec → Schema → Schema
resolve_open_api_schema spec given =
    if is_empty (ref_of given)
    then given
    else elim (resolve_in components_prefix spec.schemas (ref_of given)) [
      | some resolved ↦ resolved
      | none ↦ elim (resolve_in definitions_prefix spec.definitions (ref_of given)) [
        | some resolved ↦ resolved
        | none ↦ given
      ]
    ]

unfoldable pub open_api_schema_type : Spec → Schema → Text
unfolding resolve_open_api_schema
open_api_schema_type spec given =
    let resolved = resolve_open_api_schema spec given in
    let type_name = type_of resolved in
    if is_empty type_name && has_properties (properties_of resolved)
    then bytes "object"
    else if type_name == bytes "integer"
    then bytes "number"
    else if is_empty type_name
    then bytes "string"
    else type_name

-- The rest of a run, if what comes before returns.
abbrev pub and_then {ℓ κ} : {A : Type ℓ} {B : Type κ} → Option A → (A → Option B) → Option B
and_then none next = none
and_then (some value) next = next value

-- The samples of the properties.
abbrev pub sample_properties : (Schema → Option Value) → Properties → Option Fields
sample_properties sample empty_map = some end
sample_properties sample (property key first rest) =
    and_then (sample first)
      (λ value. and_then (sample_properties sample rest) (λ fields. some (field key value fields)))

abbrev pub sample_items : (Schema → Option Value) → ItemSchema → Option Value
sample_items sample no_schema = some (array nil)
sample_items sample (of_items given) =
    and_then (sample given) (λ value. some (array (cons value nil)))

-- The part of `sampleForSchema` behind the resolution of the reference.
abbrev pub sample_resolved : (Schema → Option Value) → Schema → Option Value
sample_resolved sample (schema ref type_name properties items (some example)) = some example
sample_resolved sample (schema ref type_name properties items none) =
    let lower = to_lower type_name in
    if lower == bytes "array"
    then sample_items sample items
    else if lower == bytes "object" || is_empty lower
    then and_then (sample_properties sample properties) (λ fields. some (object fields))
    else if lower == bytes "integer" || lower == bytes "number"
    then some (number (bytes "0"))
    else if lower == bytes "boolean"
    then some (boolean false)
    else some (text [])

-- `sampleForSchema` on fuel, one for each call of it that is open; `none` is a run that is out of
-- it.
unfoldable pub sample_for_schema : Spec → ℕ → Schema → Option Value
unfolding resolve_open_api_schema
sample_for_schema spec zero given = none
sample_for_schema spec (suc fuel) given =
    sample_resolved (sample_for_schema spec fuel) (resolve_open_api_schema spec given)

unfoldable pub open_api_type : Text → Text
open_api_type value_type =
    let lower = to_lower (trim_space value_type) in
    if elem lower
      (bytes "array" ∷ bytes "object" ∷ bytes "number" ∷ bytes "boolean" ∷ bytes "integer" ∷ [])
    then lower
    else bytes "string"

unfoldable pub sample_for_type : Text → Value
unfolding open_api_type
sample_for_type value_type =
    let kind = open_api_type value_type in
    if kind == bytes "array"
    then array nil
    else if kind == bytes "object"
    then object end
    else if kind == bytes "number" || kind == bytes "integer"
    then number (bytes "0")
    else if kind == bytes "boolean"
    then boolean false
    else text []
