-- ===== src/OpenApi/Import/Imported.antt =====
-- What holds of the definitions that an OpenAPI spec gives:
-- backend/internal/features/api-specs/spec_transform.go.
use tunnelgate.Prelude.{
  refl, ◌≡◌, ◌&&◌, ◌∷◌, ◌==◌, if◌then◌else◌, ℕ, inl, inr, true, false, List, [], map, arith,
  if-elim, Bool-cases, Option-cases, and-eq-true, is_empty, all, All, All-append, ℕ_eq, eq_refl,
  eq_of_true, elem, distinct, Result, ok, ◌>>=◌, AllOk, failed, passed, AllOk-ok, >>=-AllOk,
  >>=-AllOk_any,
}
use tunnelgate.Text.{bytes, Text, text_eq, trim_space, to_upper}
use tunnelgate.Statuses.{IsStatus}
use tunnelgate.Sanitize.{control}
use tunnelgate.MockApi.Types.{ResponseExample, Definition}
use tunnelgate.OpenApi.Schemas.{Spec}
use tunnelgate.OpenApi.Paths.{open_api_path_to_route_path}
use tunnelgate.OpenApi.Operations.{
  Operation, sorted_entries, open_api_request_body_keys, open_api_request_body_example,
}
use tunnelgate.OpenApi.Import.{
  Calls, Document, returned, open_api_http_methods, sorted_open_api_methods, operation_at,
  open_api_response_examples, open_api_param_keys, route_name_of, open_api_operation_to_definition,
  import_methods, import_paths, at_least_one, parse_open_api_spec,
}
use tunnelgate.OpenApi.Import.Examples.{
  statuses, AreExamples, open_api_response_examples-AreExamples,
}
use tunnelgate.OpenApi.Import.Methods.{is_method, sorted_open_api_methods-is_method}

-- The response of a definition is the first of its examples, whose statuses are distinct and from
-- 100 to 599, and its method is one of those of HTTP in upper case.
unfoldable pub IsImported : Definition → Type 0
IsImported definition =
    (first : ResponseExample) × (rest : List ResponseExample) × (definition.response_examples
      ≡ first ∷ rest)
    × (definition.response_status ≡ first.status)
    × (definition.response_body ≡ first.body)
    × (definition.response_body_type ≡ first.body_type)
    × (distinct (statuses definition.response_examples) ≡ true)
    × All IsStatus (statuses definition.response_examples)
    × (elem definition.method (map to_upper open_api_http_methods) ≡ true)

-- Some definitions, each of them as it should be.
unfoldable pub AreImported : List Definition × Text → Type 0
AreImported (definitions, spec_name) = (is_empty definitions ≡ false) × All IsImported definitions

elem-map_upper :
    (x : Text) (xs : List Text) → elem x xs ≡ true → elem (to_upper x) (map to_upper xs) ≡ true
elem-map_upper x [] h = cc
elem-map_upper x (y ∷ ys) h = elim (Bool-cases (y == x)) [
  | inl e ↦ rw (eq_of_true y x e, eq_refl (to_upper x)) refl
  | inr e ↦ ground (arith, elem-map_upper x ys (ground (arith, e, h)))
]

module _ (calls : Calls) (fuel : ℕ) where
  at_least_one-AreImported :
      (spec_name : Text) (definitions : List Definition)
      → All IsImported definitions
      → AllOk AreImported (at_least_one calls fuel spec_name definitions)
  unfolding AreImported
  at_least_one-AreImported spec_name [] h = failed
  at_least_one-AreImported spec_name (definition ∷ definitions) h = passed (refl, h)

  open_api_operation_to_definition-IsImported :
      (spec : Spec) (spec_name path method : Text) (operation : Operation)
      → is_method method ≡ true
      → AllOk IsImported
          (open_api_operation_to_definition calls fuel spec spec_name path method operation)
  unfolding open_api_operation_to_definition IsImported
  open_api_operation_to_definition-IsImported spec spec_name path method operation h =
      >>=-AllOk_any IsImported
        (control calls.patterns (open_api_path_to_route_path path) (bytes "Route path")) _
        (λ route_path.
          >>=-AllOk_any IsImported
            (control calls.patterns (route_name_of calls fuel operation method route_path)
              (bytes "Route name"))
            _
            (λ route_name.
              >>=-AllOk_any IsImported (returned (open_api_request_body_keys spec fuel operation)) _
                (λ request_keys.
                  >>=-AllOk_any IsImported
                    (returned (open_api_request_body_example calls.indent spec fuel operation)) _
                    (λ request_body.
                      >>=-AllOk_any IsImported (open_api_param_keys calls operation.parameters) _
                        (λ param_keys.
                          >>=-AllOk AreExamples IsImported
                            (open_api_response_examples calls fuel spec operation (to_upper method)
                              route_path)
                            _
                            (open_api_response_examples-AreExamples calls fuel spec operation
                              (to_upper method) route_path)
                            (λ examples (unique, proper). passed (
                              examples.0,
                              examples.1,
                              refl,
                              refl,
                              refl,
                              refl,
                              unique,
                              proper,
                              elem-map_upper method open_api_http_methods h,
                            )))))))

  import_methods-IsImported :
      (spec : Spec) (spec_name path : Text) (methods : List (Text × Operation)) (names : List Text)
      → all is_method names ≡ true
      → AllOk (All IsImported) (import_methods calls fuel spec spec_name path methods names)
  unfolding import_methods
  import_methods-IsImported spec spec_name path methods [] h = passed tt
  import_methods-IsImported spec spec_name path methods (name ∷ names) h =
      let (first, others) = and-eq-true (is_method name) (all is_method names) h in
      >>=-AllOk IsImported (All IsImported) _ _
        (open_api_operation_to_definition-IsImported spec spec_name path name
          (operation_at name methods) first)
        (λ definition d.
          >>=-AllOk (All IsImported) (All IsImported) _ _
            (import_methods-IsImported spec spec_name path methods names others)
            (λ definitions ds. passed (d, ds)))

  import_paths-IsImported :
      (spec : Spec) (spec_name : Text) (paths : List (Text × List (Text × Operation)))
      → AllOk (All IsImported) (import_paths calls fuel spec spec_name paths)
  unfolding import_paths
  import_paths-IsImported spec spec_name [] = passed tt
  import_paths-IsImported spec spec_name ((path, methods) ∷ paths) =
      >>=-AllOk (All IsImported) (All IsImported) _ _
        (import_methods-IsImported spec spec_name path methods (sorted_open_api_methods methods)
          (sorted_open_api_methods-is_method methods))
        (λ definitions found.
          >>=-AllOk (All IsImported) (All IsImported) _ _
            (import_paths-IsImported spec spec_name paths)
            (λ others more. passed (All-append IsImported definitions others found more)))

  paths-AreImported :
      (spec : Spec) (title : Text) (paths : List (Text × List (Text × Operation)))
      → AllOk AreImported (
          import_paths calls fuel spec title (sorted_entries paths) >>= λ definitions.
          at_least_one calls fuel title definitions)
  paths-AreImported spec title paths =
      >>=-AllOk (All IsImported) AreImported _ _
        (import_paths-IsImported spec title (sorted_entries paths)) (at_least_one-AreImported title)

  document-AreImported :
      (document : Document) → AllOk AreImported (parse_open_api_spec calls fuel (ok document))
  unfolding parse_open_api_spec
  document-AreImported document = elim (Option-cases document.paths) [
    | inl e ↦ rw e failed
    | inr (paths, e) ↦ rw e (
        if-elim (AllOk AreImported)
          (is_empty (trim_space document.openapi) && is_empty (trim_space document.swagger)) _ _
          (λ _. failed)
          (λ _.
            >>=-AllOk_any AreImported
              (control calls.patterns (trim_space document.title) (bytes "Swagger title")) _
              (λ title.
                paths-AreImported document.spec
                  (if is_empty title then bytes "Imported Swagger" else title) paths)))
  ]

  -- An OpenAPI spec that is imported without an error gives at least one definition; the response of
  -- each is the first of its examples, the statuses of its examples are distinct and from 100 to
  -- 599, and its method is one of the eight of HTTP in upper case, whatever the spec holds.
  pub parse_open_api_spec-AreImported :
      (decoded : Result Document) {imported : List Definition × Text}
      → parse_open_api_spec calls fuel decoded ≡ ok imported
      → AreImported imported
  unfolding parse_open_api_spec
  parse_open_api_spec-AreImported decoded e =
      AllOk-ok AreImported e
        (>>=-AllOk_any AreImported decoded _ (λ document. document-AreImported document))
