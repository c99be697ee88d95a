-- ===== src/MockApi/Store/Select.antt =====
-- What `SetSelectedResponse` does to the tables.
use mathlib.Core.Path.{ap₂, subst}
use tunnelgate.Prelude.{
  ◌≡◌, ◌∙◌, ◌&&◌, ◌∷◌, ◌==◌, ℕ, sym, ap, Bool, false, Option, none, some, List, [], map, arith,
  is_empty, find, All, ℕ_eq, ◌⊎◌, ◌++◌, refl, inl, inr, true, Bool-cases, IsIn, here, there,
  eq_refl, eq_of_true,
}
use tunnelgate.Text.{Text, text_eq}
use tunnelgate.MockApi.Types.{StoredApi, ResponseExample}
use tunnelgate.MockApi.Store.{
  Store, Outcome, no_row, ensure_public_ids, find_by_id, select_row, scan_api, row, select_in,
  set_selected_response,
}
use tunnelgate.MockApi.Store.Exclusive.{is_active, Apart, Pairs-map}
use tunnelgate.MockApi.Store.Valid.{IsValid, All-map_step, ensure-eq_self}
use tunnelgate.MockApi.Store.Split.{NoneHas, IsSplit, row_with_id}

module _ (new_id : ℕ → Text) (example : ResponseExample) (id timestamp : Text) where
  abbrev chosen : StoredApi → StoredApi
  chosen = select_row new_id example id timestamp

  chosen_fields :
      (a : StoredApi)
      → ((chosen a).internal_id ≡ a.internal_id)
        × ((chosen a).id ≡ a.id)
        × ((chosen a).method ≡ a.method)
        × ((chosen a).route_path ≡ a.route_path)
        × (is_active (chosen a) ≡ is_active a)
  chosen_fields a = ground arith

  chosen-Apart : (a b : StoredApi) → Apart a b → Apart (chosen a) (chosen b)
  chosen-Apart a b apart =
      let (ia, pa, ma, ra, aa) = chosen_fields a in
      let (ib, pb, mb, rb, ab) = chosen_fields b in
      record {
        internal_ids = λ e. apart.internal_ids (sym ia ∙ e ∙ ib);
        ids = λ e. apart.ids (sym pa ∙ e ∙ pb);
        routes =
            λ m p. ap₂ (λ x y. x && y) aa ab ∙ apart.routes (sym ma ∙ m ∙ mb) (sym ra ∙ p ∙ rb);
      }

  chosen-identified :
      (apis : List StoredApi)
      → All (λ api. is_empty api.id ≡ false) apis
      → All (λ api. is_empty api.id ≡ false) (map chosen apis)
  chosen-identified apis h =
      All-map_step (λ api. is_empty api.id ≡ false) (λ api. is_empty api.id ≡ false) chosen
        (λ a p. ap is_empty (chosen_fields a).1 ∙ p) apis h

module _ {A : Type 0} (p : A → Bool) where
  find-none : (xs : List A) → find p xs ≡ none → All (λ x. p x ≡ false) xs
  find-none [] e = tt
  find-none (x ∷ xs) e = elim (Bool-cases (p x)) [
    | inl h ↦ ground (arith, h, e)
    | inr h ↦ (h, find-none xs (rw h at e))
  ]

  find-IsIn : (xs : List A) {x : A} → find p xs ≡ some x → IsIn x xs × (p x ≡ true)
  find-IsIn [] e = cc
  find-IsIn (y ∷ xs) {x} e = elim (Bool-cases (p y)) [
    | inl h ↦
        let same : y ≡ x = ground (arith, h, e) in
        subst (λ x. IsIn x (y ∷ xs) × (p x ≡ true)) same (here, h)
    | inr h ↦ let (there_is, k) = find-IsIn xs (rw h at e) in (there there_is, k)
  ]

find-NoneHas :
    (id : Text) (apis : List StoredApi) → NoneHas id apis → find (λ api. api.id == id) apis ≡ none
find-NoneHas id [] h = refl
find-NoneHas id (a ∷ rest) (e, h) = rw e (find-NoneHas id rest h)

find-split :
    (id : Text) (front back : List StoredApi) (target : StoredApi)
    → (target.id == id) ≡ true
    → NoneHas id front
    → find (λ api. api.id == id) (front ++ target ∷ back) ≡ some target
find-split id [] back target same h = rw same refl
find-split id (a ∷ front) back target same (e, h) = rw e (find-split id front back target same h)

-- The row with the response that the example has under the status.
abbrev pub with_response : ResponseExample → ℕ → Text → StoredApi → StoredApi
with_response example status timestamp api = record api {
  response_status = status;
  response_body = example.body;
  response_body_type = example.body_type;
  response_headers = example.response_headers;
  updated_at = timestamp;
}

module _ (new_id : ℕ → Text) (example : ResponseExample) (id timestamp : Text) where
  map-NoneHas :
      (apis : List StoredApi)
      → NoneHas id apis
      → map (chosen new_id example id timestamp) apis ≡ apis
  map-NoneHas [] h = refl
  map-NoneHas (a ∷ rest) (e, h) = rw e (ap (λ apis. a ∷ apis) (map-NoneHas rest h))

  map-split :
      (front back : List StoredApi) (target : StoredApi)
      → (target.id == id) ≡ true
      → NoneHas id front
      → NoneHas id back
      → map (chosen new_id example id timestamp) (front ++ target ∷ back)
        ≡ front ++ with_response example example.status timestamp target ∷ back
  map-split [] back target same h k = rw same (
      ap (λ apis. with_response example example.status timestamp target ∷ apis)
        (map-NoneHas back k))
  map-split (a ∷ front) back target same (e, h) k =
      rw e (ap (λ apis. a ∷ apis) (map-split front back target same h k))

module _ (new_id : ℕ → Text) (id : Text) (status : ℕ) (timestamp : Text) where
  -- `set_selected_response` behind the filling in of public ids.
  abbrev select_from : Store → Store × Outcome
  select_from store = elim (find (λ api. api.id == id) store.apis) [
    | none ↦ (store, no_row)
    | some target ↦
        select_in new_id store id timestamp
          (find (λ e. e.status == status) (store.responses target.internal_id))
  ]

  module _ (store : Store) (v : IsValid store) where
    set_selected_response-eq :
        set_selected_response new_id store id status timestamp ≡ select_from store
    unfolding set_selected_response ensure_public_ids
    set_selected_response-eq =
        ap (λ apis. select_from (record store { apis = apis }))
          (ensure-eq_self new_id store.apis v.identified)

    abbrev after_selection : ResponseExample → Store
    after_selection example = record store {
      apis = map (chosen new_id example id timestamp) store.apis;
    }

    after_selection-IsValid : (example : ResponseExample) → IsValid (after_selection example)
    after_selection-IsValid example = record {
      exclusive =
          Pairs-map Apart Apart (chosen new_id example id timestamp)
            (chosen-Apart new_id example id timestamp) store.apis v.exclusive;
      identified = chosen-identified new_id example id timestamp store.apis v.identified;
    }

    module _ (s : IsSplit id store.apis) where
      same : (s.target.id == id) ≡ true
      same = rw (s.has_id, eq_refl id) refl

      found_target : find (λ api. api.id == id) store.apis ≡ some s.target
      found_target = rw s.rows (find-split id s.front s.back s.target same s.none_before)

      rows_after :
          (example : ResponseExample)
          → (after_selection example).apis
            ≡ s.front ++ with_response example example.status timestamp s.target ∷ s.back
      rows_after example = rw s.rows (
          map-split new_id example id timestamp s.front s.back s.target same s.none_before
            s.none_behind)

      select_in-found :
          (example : ResponseExample)
          → select_in new_id store id timestamp (some example) ≡ (
            after_selection example,
            row (scan_api (with_response example example.status timestamp s.target)),
          )
      unfolding select_in find_by_id ensure_public_ids
      select_in-found example =
          let named =
            ensure-eq_self new_id (after_selection example).apis
              (after_selection-IsValid example).identified in
          let again : find (λ api. api.id == id) (after_selection example).apis
              ≡ some (with_response example example.status timestamp s.target) =
            rw (rows_after example) (
              find-split id s.front s.back (with_response example example.status timestamp s.target)
                same s.none_before) in
          rw (named, again) refl

-- The spec and the example that are asked for are not both there.
abbrev pub IsMissing : Store → Text → ℕ → Type 0
IsMissing store id status =
    NoneHas id store.apis
    ⊎ ((target : StoredApi) × IsIn target store.apis
        × (target.id ≡ id)
        × All (λ e. (e.status == status) ≡ false) (store.responses target.internal_id))

-- The rows of a table, and those after a selection that is made, with what is returned.
abbrev pub IsSelected : Store → Text → ℕ → Text → Store × Outcome → Type 0
IsSelected store id status timestamp (later, outcome) =
    (target : StoredApi) × (front : List StoredApi) × (back : List StoredApi)
    × (example : ResponseExample) × (store.apis ≡ front ++ target ∷ back)
    × (target.id ≡ id)
    × IsIn example (store.responses target.internal_id)
    × (example.status ≡ status)
    × (later.apis ≡ front ++ with_response example status timestamp target ∷ back)
    × (outcome ≡ row (scan_api (with_response example status timestamp target)))

-- What comes of a selection.
abbrev pub IsOutcome : Store → Text → ℕ → Text → Store × Outcome → Type 0
IsOutcome store id status timestamp run =
    IsValid run.0
    × (((run ≡ (store, no_row)) × IsMissing store id status)
        ⊎ IsSelected store id status timestamp run)

IsIn-split :
    (front back : List StoredApi) (target : StoredApi) → IsIn target (front ++ target ∷ back)
IsIn-split [] back target = here
IsIn-split (a ∷ front) back target = there (IsIn-split front back target)

module _ (new_id : ℕ → Text) (store : Store) (id : Text) (status : ℕ) (timestamp : Text)
    (v : IsValid store) where
  select_from-IsOutcome :
      (s : IsSplit id store.apis) (found : Option ResponseExample)
      → find (λ (e : ResponseExample). e.status == status) (store.responses s.target.internal_id)
        ≡ found
      → IsOutcome store id status timestamp (select_in new_id store id timestamp found)
  unfolding select_in
  select_from-IsOutcome s none e = (
    v,
    inl (
      refl,
      inr (
        s.target,
        rw s.rows (IsIn-split s.front s.back s.target),
        s.has_id,
        find-none (λ (e : ResponseExample). e.status == status)
            (store.responses s.target.internal_id) e,
      ),
    ),
  )
  select_from-IsOutcome s (some example) e =
      let (there_is, k) =
        find-IsIn (λ (e : ResponseExample). e.status == status)
          (store.responses s.target.internal_id) e in
      let status_is = eq_of_true example.status status k in
      subst (IsOutcome store id status timestamp)
        (sym (select_in-found new_id id status timestamp store v s example))
        (
          after_selection-IsValid new_id id status timestamp store v example,
          inr (
            s.target,
            s.front,
            s.back,
            example,
            s.rows,
            s.has_id,
            there_is,
            status_is,
            rows_after new_id id status timestamp store v s example
                ∙ ap (λ n. s.front ++ with_response example n timestamp s.target ∷ s.back)
                    status_is,
            ap (λ n. row (scan_api (with_response example n timestamp s.target))) status_is,
          ),
        )

-- Selecting a response keeps the invariant of the table. Where that holds, either no row has the id,
-- or the one that has it has no example with the status: then the tables are as they were and no row
-- is returned. Or one row has it, and an example of that spec has the status: then the response, its
-- type and headers, and the time of change of this row become those of the example and the given
-- ones, all other rows are as they were and in their order, and the row is returned as it is read.
pub set_selected_response-IsOutcome :
    (new_id : ℕ → Text) (store : Store) (id : Text) (status : ℕ) (timestamp : Text)
    → IsValid store
    → IsOutcome store id status timestamp (set_selected_response new_id store id status timestamp)
set_selected_response-IsOutcome new_id store id status timestamp v =
    subst (IsOutcome store id status timestamp)
      (sym (set_selected_response-eq new_id id status timestamp store v))
      (elim (row_with_id id store.apis v.exclusive) [
        | inl h ↦ rw (find-NoneHas id store.apis h, select_from) (v, inl (refl, inl h))
        | inr s ↦
            rw (found_target new_id id status timestamp store v s, select_from)
              (select_from-IsOutcome new_id store id status timestamp v s _ refl)
      ])
