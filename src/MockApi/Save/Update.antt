-- ===== src/MockApi/Save/Update.antt =====
-- Saving a spec that is there keeps the invariant of the table.
use tunnelgate.Prelude.{
  refl, ◌≡◌, ◌∙◌, ◌≢◌, ◌&&◌, ◌||◌, ◌∷◌, ◌==◌, if◌then◌else◌, sym, ap, inl, inr, Bool, true, false,
  not, some, List, [], map, arith, is_empty, find, All, ℕ_eq, eq_of_true,
}
use tunnelgate.Text.{Text, text_eq, text_eq_iff}
use tunnelgate.MockApi.Types.{ResponseExample, RequestBodyTypes, StoredApi, Definition}
use tunnelgate.MockApi.Store.{same_route, deactivate_other, stop_proxy, stop_mock}
use tunnelgate.MockApi.Store.Exclusive.{
  IsTold, Pairs, is_active, Apart, Pairs-map, find-IsTold, find-holds,
}
use tunnelgate.MockApi.Store.Toggle.{IsReady}
use tunnelgate.MockApi.Store.Valid.{Pairs-All, All-map_step}
use tunnelgate.MockApi.Save.{updated, deactivate_duplicate_routes}

if-map :
    (b : Bool) (f : StoredApi → StoredApi) (apis : List StoredApi)
    → (if b then apis else map f apis) ≡ map (λ api. if b then api else f api) apis
if-map true f [] = refl
if-map false f [] = refl
if-map true f (api ∷ apis) = ap (λ l. api ∷ l) (if-map true f apis)
if-map false f (api ∷ apis) = refl

map-map :
    (f g : StoredApi → StoredApi) (apis : List StoredApi)
    → map g (map f apis) ≡ map (λ api. g (f api)) apis
map-map f g [] = refl
map-map f g (api ∷ apis) = ap (λ l. g (f api) ∷ l) (map-map f g apis)

module _ (encode_strings : List Text → Text) (encode_types : RequestBodyTypes → Text) (id : Text)
    (definition : Definition) (response : ResponseExample) (mock_enabled proxy_enabled : Bool)
    (timestamp : Text) (target : StoredApi) where
  abbrev cleared : StoredApi → StoredApi
  cleared api =
      if not mock_enabled && not proxy_enabled
      then api
      else (if mock_enabled then stop_proxy target.internal_id else stop_mock target.internal_id) (
          deactivate_other timestamp definition.method definition.route_path target.internal_id api)

  saved : StoredApi → StoredApi
  saved api = cleared (
      updated encode_strings encode_types id definition response mock_enabled proxy_enabled
        timestamp api)

  saved-other :
      (api : StoredApi)
      → target.id ≡ id
      → api.id ≢ target.id
      → api.internal_id ≢ target.internal_id
      → ((saved api).method ≡ api.method)
        × ((saved api).route_path ≡ api.route_path)
        × (is_active (saved api) ≡ (
            if (mock_enabled || proxy_enabled)
              && same_route definition.method definition.route_path api
            then false
            else is_active api))
  unfolding saved
  saved-other api t h k =
      let e : (api.id == id) ≡ false = ground (arith, text_eq_iff api.id id) in rw e (ground arith)

  saved-target :
      target.id ≡ id
      → ((saved target).method ≡ definition.method)
        × ((saved target).route_path ≡ definition.route_path)
        × (is_active (saved target) ≡ (mock_enabled || proxy_enabled))
  unfolding saved
  saved-target t =
      let e : (target.id == id) ≡ true = (text_eq_iff target.id id).1 t in rw e (ground arith)

  saved_ids :
      (api : StoredApi) → ((saved api).internal_id ≡ api.internal_id) × ((saved api).id ≡ api.id)
  unfolding saved
  saved_ids api = ground arith

  -- The saved spec and another one of its route.
  met :
      (b : StoredApi)
      → target.id ≡ id
      → b.id ≢ target.id
      → b.internal_id ≢ target.internal_id
      → (saved target).method ≡ (saved b).method
      → (saved target).route_path ≡ (saved b).route_path
      → (is_active (saved target) && is_active (saved b)) ≡ false
  met b t f g m p =
      let (mt, rt, at) = saved-target t in
      let (mb, rb, ab) = saved-other b t f g in
      let route : same_route definition.method definition.route_path b ≡ true =
        cc_route (sym mb ∙ sym m ∙ mt) (sym rb ∙ sym p ∙ rt) in
      rw (at, ab, route) (both mock_enabled proxy_enabled)
    where
      cc_route :
          b.method ≡ definition.method
          → b.route_path ≡ definition.route_path
          → same_route definition.method definition.route_path b ≡ true
      cc_route e h = ground (
        arith,
        text_eq_iff b.method definition.method,
        text_eq_iff b.route_path definition.route_path,
      )

      both : (x y : Bool) → ((x || y) && (if (x || y) && true then false else is_active b)) ≡ false
      both x y = ground arith

  saved-routes :
      (a b : StoredApi)
      → target.id ≡ id
      → IsReady target a b
      → (saved a).method ≡ (saved b).method
      → (saved a).route_path ≡ (saved b).route_path
      → (is_active (saved a) && is_active (saved b)) ≡ false
  saved-routes a b t (apart, inl e, inl f) m p =
      absurd (apart.ids (ap (λ (r : StoredApi). r.id) (e ∙ sym f)))
  saved-routes a b t (apart, inl e, inr (f, g)) m p =
      let h = ap (λ r. saved r) e in
      ap (λ (r : StoredApi). is_active r && is_active (saved b)) h
      ∙ met b t f g (ap (λ (r : StoredApi). r.method) (sym h) ∙ m)
          (ap (λ (r : StoredApi). r.route_path) (sym h) ∙ p)
  saved-routes a b t (apart, inr (f, g), inl e) m p =
      let h = ap (λ r. saved r) e in
      flip (is_active (saved a)) (is_active (saved b)) (
        ap (λ (r : StoredApi). is_active r && is_active (saved a)) h
        ∙ met a t f g (ap (λ (r : StoredApi). r.method) (sym h) ∙ sym m)
            (ap (λ (r : StoredApi). r.route_path) (sym h) ∙ sym p))
    where
      flip : (x y : Bool) → (y && x) ≡ false → (x && y) ≡ false
      flip x y q = ground arith
  saved-routes a b t (apart, inr (f, g), inr (h, k)) m p =
      let (ma, ra, aa) = saved-other a t f g in
      let (mb, rb, ab) = saved-other b t h k in
      ground (arith, apart.routes (sym ma ∙ m ∙ mb) (sym ra ∙ p ∙ rb), aa, ab)

  saved-Apart : (a b : StoredApi) → target.id ≡ id → IsReady target a b → Apart (saved a) (saved b)
  saved-Apart a b t ready =
      let (ia, pa) = saved_ids a in
      let (ib, pb) = saved_ids b in
      record {
        internal_ids = λ e. ready.0.internal_ids (sym ia ∙ e ∙ ib);
        ids = λ e. ready.0.ids (sym pa ∙ e ∙ pb);
        routes = saved-routes a b t ready;
      }

  -- The rows that are left, as one function of each row.
  abbrev pub left : List StoredApi → List StoredApi
  left apis =
      deactivate_duplicate_routes target.internal_id definition.method definition.route_path
        mock_enabled proxy_enabled timestamp
        (map
          (updated encode_strings encode_types id definition response mock_enabled proxy_enabled
            timestamp)
          apis)

  left-eq : (apis : List StoredApi) → left apis ≡ map saved apis
  unfolding saved
  left-eq apis = if-map (not mock_enabled && not proxy_enabled) _ _ ∙ map-map _ _ apis

  pub left-Pairs :
      (apis : List StoredApi)
      → Pairs Apart apis
      → find (λ api. api.id == id) apis ≡ some target
      → Pairs Apart (left apis)
  left-Pairs apis h e =
      let t = eq_of_true target.id id (find-holds (λ api. api.id == id) apis e) in
      rw (left-eq apis) (
        Pairs-map (IsReady target) Apart saved (λ a b ready. saved-Apart a b t ready) apis
          (Pairs-All Apart (IsTold target) apis h (find-IsTold id apis h e)))

  pub left-identified :
      (apis : List StoredApi)
      → All (λ api. is_empty api.id ≡ false) apis
      → All (λ api. is_empty api.id ≡ false) (left apis)
  left-identified apis h = rw (left-eq apis) (
      All-map_step (λ api. is_empty api.id ≡ false) (λ api. is_empty api.id ≡ false) saved
        (λ a p. ap is_empty (saved_ids a).1 ∙ p) apis h)
