-- ===== src/Postman/Collect/Parsed.antt =====
-- What holds of the definitions that a collection gives.
use tunnelgate.Prelude.{
  refl, ◌+◌, ◌≡◌, ◌||◌, ◌∷◌, ℕ, inl, inr, true, false, Option, none, some, List, [], map, arith,
  ltb, if-elim, Bool-cases, is_empty, All, All-append, ℕ_eq, elem, distinct, ℤ, pos, negsuc, ok,
  ◌>>=◌, AllOk, AllOk-ok, >>=-AllOk, >>=-AllOk_any, failed, passed,
}
use tunnelgate.Text.{bytes, Text, text_eq, trim_space, to_upper}
use tunnelgate.Statuses.{IsStatus, IsNew, IsNew-cons, AreNew-statuses}
use tunnelgate.Sanitize.{control, payload}
use tunnelgate.Postman.Types.{
  ParsedExample, ParsedDefinition, Response, Request, Item, item, ItemList, no_items, item_cons,
  Collection,
}
use tunnelgate.Postman.Paths.{extract_path, extract_request_param_keys}
use tunnelgate.Postman.Collect.{
  Calls, clamp_status, has_items, examples_from, response_examples, or_method_and_path,
  example_name, definition_of, collect_request, collect_leaf, inside, collect_item, collect,
  or_imported_collection, at_least_one, parse_items, parse_collection,
}

abbrev pub statuses : List ParsedExample → List ℕ
statuses = map (λ (example : ParsedExample). example.status)

-- The response of a definition is the first of its examples, whose statuses are distinct and from
-- 100 to 599, and its route has a name.
unfoldable pub IsParsed : ParsedDefinition → Type 0
IsParsed definition =
    (first : ParsedExample) × (rest : List ParsedExample) × (definition.response_examples
      ≡ first ∷ rest)
    × (definition.response_status ≡ first.status)
    × (definition.response_body ≡ first.body)
    × (distinct (statuses definition.response_examples) ≡ true)
    × All IsStatus (statuses definition.response_examples)
    × (is_empty definition.route_name ≡ false)

clamp_status-IsStatus : (code : ℤ) → IsStatus (clamp_status code)
clamp_status-IsStatus (pos n) =
    if-elim IsStatus (ltb n 100 || ltb 599 n) _ _ (λ _. (omega arith, omega arith))
      (λ h. (ground arith, ground arith))
clamp_status-IsStatus (negsuc n) = (omega arith, omega arith)

abbrev AreNew : List ℕ → List ParsedExample → Type 0
AreNew seen examples = (distinct (statuses examples) ≡ true) × All (IsNew seen) (statuses examples)

-- Some definitions, each of them as it should be.
unfoldable pub AreParsed : List ParsedDefinition → Type 0
AreParsed definitions = (is_empty definitions ≡ false) × All IsParsed definitions

at_least_one-AreParsed :
    (definitions : List ParsedDefinition)
    → All IsParsed definitions
    → AllOk AreParsed (at_least_one definitions)
unfolding AreParsed
at_least_one-AreParsed [] h = failed
at_least_one-AreParsed (definition ∷ definitions) h = passed (refl, h)

module _ (calls : Calls) where
  examples_from-AreNew :
      (index : ℕ) (seen : List ℕ) (responses : List Response)
      → AllOk (AreNew seen) (examples_from calls index seen responses)
  unfolding examples_from
  examples_from-AreNew index seen [] = passed (refl, tt)
  examples_from-AreNew index seen (response ∷ responses) =
      let status = clamp_status response.code in
      elim (Bool-cases (elem status seen)) [
        | inl known ↦ rw known (examples_from-AreNew (index + 1) seen responses)
        | inr new ↦ rw new (
            >>=-AllOk_any (AreNew seen)
              (control calls.patterns (example_name calls index response.name)
                (bytes "Response example name"))
              _
              (λ clean_name.
                >>=-AllOk_any (AreNew seen)
                  (payload calls.patterns response.body (bytes "Response example body")) _
                  (λ body.
                    >>=-AllOk (AreNew (status ∷ seen)) (AreNew seen)
                      (examples_from calls (index + 1) (status ∷ seen) responses)
                      (λ examples.
                        ok (record { status = status; name = clean_name; body = body } ∷ examples))
                      (examples_from-AreNew (index + 1) (status ∷ seen) responses)
                      (λ examples (unique, fresh).
                        let (absent, older) = IsNew-cons status seen (statuses examples) fresh in
                        passed
                          (ground arith, ((clamp_status-IsStatus response.code, new), older))))))
      ]

  -- An example and others, as `response_examples` gives them.
  abbrev AreExamples : ParsedExample × List ParsedExample → Type 0
  AreExamples (first, rest) =
      (distinct (statuses (first ∷ rest)) ≡ true) × All IsStatus (statuses (first ∷ rest))

  response_examples-AreExamples :
      (item_name : Text) (responses : List Response) (method route_path : Text)
      → AllOk AreExamples (response_examples calls item_name responses method route_path)
  unfolding response_examples
  response_examples-AreExamples item_name responses method route_path =
      >>=-AllOk (AreNew []) AreExamples _ _ (examples_from-AreNew 0 [] responses) (elim [
        | [] ↦ λ h. passed (refl, ((omega arith, omega arith), tt))
        | example ∷ examples ↦
            λ h. passed (h.0, AreNew-statuses [] (statuses (example ∷ examples)) h.1)
      ])

  or_method_and_path-full :
      (method route_path route_name : Text)
      → is_empty (or_method_and_path method route_path route_name) ≡ false
  or_method_and_path-full [] route_path route_name =
      if-elim (λ (s : Text). is_empty s ≡ false) (is_empty route_name) _ _ (λ _. refl) (λ h. h)
  or_method_and_path-full (c ∷ method) route_path route_name =
      if-elim (λ (s : Text). is_empty s ≡ false) (is_empty route_name) _ _ (λ _. refl) (λ h. h)

  collect_request-IsParsed :
      (collection_name : Text) (folders : List Text) (item_name : Text) (request : Request)
      (responses : List Response)
      → AllOk IsParsed (collect_request calls collection_name folders item_name request responses)
  unfolding collect_request IsParsed
  collect_request-IsParsed collection_name folders item_name request responses =
      >>=-AllOk_any IsParsed (control calls.patterns request.method (bytes "HTTP method")) _
        (λ cleaned.
          >>=-AllOk_any IsParsed
            (control calls.patterns (extract_path calls.parse_url request.url) (bytes "Route path"))
            _
            (λ route_path.
              >>=-AllOk_any IsParsed
                (control calls.patterns (trim_space item_name) (bytes "Route name")) _
                (λ route_name.
                  >>=-AllOk AreExamples IsParsed
                    (response_examples calls item_name responses (to_upper cleaned) route_path)
                    (λ examples.
                      extract_request_param_keys calls.parse_url (control calls.patterns)
                        request.url
                      >>= λ param_keys. ok (
                          definition_of calls collection_name folders (to_upper cleaned) route_path
                            route_name request examples param_keys))
                    (response_examples-AreExamples item_name responses (to_upper cleaned)
                      route_path)
                    (λ examples (unique, proper).
                      >>=-AllOk_any IsParsed
                        (extract_request_param_keys calls.parse_url (control calls.patterns)
                          request.url)
                        (λ param_keys. ok (
                          definition_of calls collection_name folders (to_upper cleaned) route_path
                            route_name request examples param_keys))
                        (λ param_keys. passed (
                          examples.0,
                          examples.1,
                          refl,
                          refl,
                          refl,
                          unique,
                          proper,
                          or_method_and_path-full (to_upper cleaned) route_path route_name,
                        ))))))

  collect_leaf-IsParsed :
      (collection_name : Text) (folders : List Text) (item_name : Text) (request : Option Request)
      (responses : List Response)
      → AllOk
          (All IsParsed)
          (collect_leaf calls collection_name folders item_name request responses)
  collect_leaf-IsParsed collection_name folders item_name none responses = passed tt
  collect_leaf-IsParsed collection_name folders item_name (some request) responses =
      if-elim (AllOk (All IsParsed)) (is_empty (trim_space request.method)) _ _ (λ _. passed tt)
        (λ _.
          >>=-AllOk IsParsed (All IsParsed) _ _
            (collect_request-IsParsed collection_name folders item_name request responses)
            (λ definition h. passed (h, tt)))

  mutual
    unfolding collect

    collect_item-IsParsed :
        (collection_name : Text) (folders : List Text) (an_item : Item)
        → AllOk (All IsParsed) (collect_item calls collection_name folders an_item)
    collect_item-IsParsed collection_name folders (item name children request responses) =
        if-elim (AllOk (All IsParsed)) (has_items children) _ _
          (λ _.
            >>=-AllOk_any (All IsParsed)
              (control calls.patterns (trim_space name) (bytes "Collection folder name")) _
              (λ folder_name.
                collect-IsParsed collection_name (inside folders folder_name) children))
          (λ _. collect_leaf-IsParsed collection_name folders name request responses)

    collect-IsParsed :
        (collection_name : Text) (folders : List Text) (items : ItemList)
        → AllOk (All IsParsed) (collect calls collection_name folders items)
    collect-IsParsed collection_name folders no_items = passed tt
    collect-IsParsed collection_name folders (item_cons first rest) =
        >>=-AllOk (All IsParsed) (All IsParsed) _ _
          (collect_item-IsParsed collection_name folders first)
          (λ definitions found.
            >>=-AllOk (All IsParsed) (All IsParsed) _ _
              (collect-IsParsed collection_name folders rest)
              (λ others more. passed (All-append IsParsed definitions others found more)))

  parse_items-AreParsed :
      (collection : Collection) (items : Option ItemList)
      → AllOk AreParsed (parse_items calls collection items)
  unfolding AreParsed
  parse_items-AreParsed collection none = failed
  parse_items-AreParsed collection (some items) = >>=-AllOk_any AreParsed _ _ (λ cleaned.
      >>=-AllOk (All IsParsed) AreParsed _ _
        (collect-IsParsed (or_imported_collection cleaned) [] items) at_least_one-AreParsed)

  -- A collection that is parsed without an error gives at least one definition, and the response of
  -- each is the first of its examples, the statuses of its examples are distinct and from 100 to
  -- 599, and its route has a name, whatever the responses of the collection are.
  pub parse_collection-AreParsed :
      (source : Text) {definitions : List ParsedDefinition}
      → parse_collection calls source ≡ ok definitions
      → AreParsed definitions
  unfolding parse_collection
  parse_collection-AreParsed source e = AllOk-ok AreParsed e (
      >>=-AllOk_any AreParsed _ _ (λ collection. parse_items-AreParsed collection collection.items))
