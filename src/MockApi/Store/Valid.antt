-- ===== src/MockApi/Store/Valid.antt =====
-- The invariant of the table, and that the toggles keep it.
use tunnelgate.Prelude.{
  All, ◌≡◌, ◌∙◌, ◌∷◌, ◌==◌, if◌then◌else◌, ℕ, refl, sym, ap, inl, inr, Bool, true, false, some,
  List, [], map, arith, Option-cases, is_empty, find, ℕ_eq, eq_refl,
}
use tunnelgate.Text.{Text, text_eq, text_eq_iff}
use tunnelgate.MockApi.Types.{StoredApi}
use tunnelgate.MockApi.Store.{
  Store, same_route, Column, mock_column, proxy_column, toggle_row, update_boolean, find_by_id,
  ensure_public_ids, ensure_public_id,
}
use tunnelgate.MockApi.Store.Exclusive.{
  IsTold, find-IsTold, find-holds, Pairs, is_active, Apart, IsExclusive, Pairs-map,
}
use tunnelgate.MockApi.Store.Toggle.{IsReady, toggle_row-Apart, toggle_row_fields, toggle_row_other}

-- Every row has a public id, no two rows share an id, and at most one spec of a method and route
-- path is active.
pub record IsValid (store : Store) : Type 0 where
  pub exclusive : IsExclusive store
  pub identified : All (λ api. is_empty api.id ≡ false) store.apis

module _ (P Q : StoredApi → Type 0) (f : StoredApi → StoredApi)
    (step : (a : StoredApi) → P a → Q (f a)) where
  pub All-map_step : (apis : List StoredApi) → All P apis → All Q (map f apis)
  All-map_step [] h = tt
  All-map_step (a ∷ rest) (p, h) = (step a p, All-map_step rest h)

module _ (P Q : StoredApi → Type 0) (step : (a : StoredApi) → P a → Q a) where
  All-imp : (apis : List StoredApi) → All P apis → All Q apis
  All-imp [] h = tt
  All-imp (a ∷ rest) (p, h) = (step a p, All-imp rest h)

-- Where every row has a public id, no row is given a new one.
pub ensure-eq_self :
    (new_id : ℕ → Text) (apis : List StoredApi)
    → All (λ api. is_empty api.id ≡ false) apis
    → map (ensure_public_id new_id) apis ≡ apis
ensure-eq_self new_id [] h = refl
ensure-eq_self new_id (a ∷ rest) (p, h) = rw (p, ensure-eq_self new_id rest h)

-- A relation between rows, and what holds of each, seen together.
pub Pairs-All :
    (R : StoredApi → StoredApi → Type 0) (P : StoredApi → Type 0) (apis : List StoredApi)
    → Pairs R apis
    → All P apis
    → Pairs (λ a b. R a b × P a × P b) apis
Pairs-All R P [] h k = tt
Pairs-All R P (a ∷ rest) (r, h) (p, k) = (both rest r k, Pairs-All R P rest h k)
  where
    both : (rest : List StoredApi) → All (R a) rest → All P rest → All (λ b. R a b × P a × P b) rest
    both [] r k = tt
    both (b ∷ rest) (r, rs) (q, k) = ((r, p, q), both rest rs k)

toggled : Column → Bool → Text → StoredApi → Store → List StoredApi
toggled column enabled timestamp target store =
    map (toggle_row column enabled timestamp target) store.apis

toggled-Pairs :
    (column : Column) (enabled : Bool) (timestamp id : Text) (target : StoredApi) (store : Store)
    → IsExclusive store
    → find (λ api. api.id == id) store.apis ≡ some target
    → Pairs Apart (toggled column enabled timestamp target store)
unfolding toggled
toggled-Pairs column enabled timestamp id target store h e =
    Pairs-map (IsReady target) Apart (toggle_row column enabled timestamp target)
      (toggle_row-Apart column enabled timestamp target) store.apis
      (Pairs-All Apart (IsTold target) store.apis h (find-IsTold id store.apis h e))

toggled-identified :
    (column : Column) (enabled : Bool) (timestamp : Text) (target : StoredApi) (store : Store)
    → All (λ api. is_empty api.id ≡ false) store.apis
    → All (λ api. is_empty api.id ≡ false) (toggled column enabled timestamp target store)
unfolding toggled
toggled-identified column enabled timestamp target store h =
    All-map_step (λ api. is_empty api.id ≡ false) (λ api. is_empty api.id ≡ false)
      (toggle_row column enabled timestamp target)
      (λ a p. ap is_empty (toggle_row_fields column enabled timestamp target a).1 ∙ p) store.apis h

-- The table after an update: the rows with the statements made on each of them.
pub update_boolean-apis :
    (new_id : ℕ → Text) (store : Store) (id : Text) (column : Column) (enabled : Bool)
    (timestamp : Text) (target : StoredApi)
    → All (λ api. is_empty api.id ≡ false) store.apis
    → find (λ api. api.id == id) store.apis ≡ some target
    → (update_boolean new_id store id column enabled timestamp).0.apis
      ≡ map (toggle_row column enabled timestamp target) store.apis
unfolding update_boolean find_by_id ensure_public_ids toggled
update_boolean-apis new_id store id column enabled timestamp target h e =
    rw (e, update_boolean)
      (ensure-eq_self new_id (toggled column enabled timestamp target store)
        (toggled-identified column enabled timestamp target store h))

-- Enabling or disabling a spec keeps the invariant, whether or not the id names a spec.
pub update_boolean-IsValid :
    (new_id : ℕ → Text) (store : Store) (id : Text) (column : Column) (enabled : Bool)
    (timestamp : Text)
    → IsValid store
    → IsValid (update_boolean new_id store id column enabled timestamp).0
unfolding toggled update_boolean
update_boolean-IsValid new_id store id column enabled timestamp v =
    elim (Option-cases (find (λ api. api.id == id) store.apis)) [
      | inl e ↦ rw (e, update_boolean) v
      | inr (target, e) ↦
          let rows =
            update_boolean-apis new_id store id column enabled timestamp target v.identified e in
          record {
            exclusive =
                rw rows (toggled-Pairs column enabled timestamp id target store v.exclusive e);
            identified =
                rw rows (toggled-identified column enabled timestamp target store v.identified);
          }
    ]

toggle_row_self :
    (column : Column) (timestamp : Text) (target : StoredApi)
    → is_active (toggle_row column true timestamp target target) ≡ true
unfolding toggle_row
toggle_row_self mock_column timestamp target = ground (arith, text_eq_iff target.id target.id)
toggle_row_self proxy_column timestamp target = ground (arith, text_eq_iff target.id target.id)

-- Enabling a spec, for mocking or for proxying, leaves it the one active spec of its method and
-- route path: of the rows with both of these, exactly the one with the id is active. A row of
-- another method or route path is active if it was.
pub update_boolean-is_active :
    (new_id : ℕ → Text) (store : Store) (id : Text) (column : Column) (timestamp : Text)
    (target : StoredApi)
    → IsValid store
    → find (λ api. api.id == id) store.apis ≡ some target
    → ((update_boolean new_id store id column true timestamp).0.apis
        ≡ map (toggle_row column true timestamp target) store.apis)
      × All
          (λ api. is_active (toggle_row column true timestamp target api) ≡ (
            if same_route target.method target.route_path api then api.id == id else is_active api))
          store.apis
update_boolean-is_active new_id store id column timestamp target v e = (
  update_boolean-apis new_id store id column true timestamp target v.identified e,
  All-imp (IsTold target) _ each store.apis (find-IsTold id store.apis v.exclusive e),
)
  where
    found : target.id ≡ id
    found = (text_eq_iff target.id id).0 (find-holds (λ api. api.id == id) store.apis e)

    each :
        (api : StoredApi)
        → IsTold target api
        → is_active (toggle_row column true timestamp target api)
          ≡ (if same_route target.method target.route_path api then api.id == id else is_active api)
    each api (inl same) =
        rw
          (
            same,
            toggle_row_self column timestamp target,
            eq_refl target.method,
            eq_refl target.route_path,
          )
          (sym (find-holds (λ api. api.id == id) store.apis e))
    each api (inr (f, g)) =
        let differs : (api.id == id) ≡ false = ground (arith, found, f, text_eq_iff api.id id) in
        rw differs (toggle_row_other column timestamp target api f g)
