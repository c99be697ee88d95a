-- ===== src/MockApi/Store/Exclusive.antt =====
-- At most one spec of a method and route path is active.
use mathlib.Core.Path.{subst}
use tunnelgate.Prelude.{
  Bool, false, ◌&&◌, ◌||◌, List, [], ◌∷◌, ◌≡◌, ◌≢◌, ℕ_eq, map, All, ◌⊎◌, ◌==◌, sym, inl, inr, true,
  some, arith, Bool-cases, find,
}
use tunnelgate.Text.{text_eq, Text}
use tunnelgate.MockApi.Types.{StoredApi}
use tunnelgate.MockApi.Store.{Store}

abbrev pub is_active : StoredApi → Bool
is_active api = api.mock_enabled || api.proxy_enabled

-- Two rows of the table: their ids differ, and they are not both active for one route.
pub record Apart (a b : StoredApi) : Type 0 where
  pub internal_ids : a.internal_id ≢ b.internal_id
  pub ids : a.id ≢ b.id
  pub routes :
      a.method ≡ b.method → a.route_path ≡ b.route_path → (is_active a && is_active b) ≡ false

-- A relation between each item and the later ones.
abbrev pub Pairs : (StoredApi → StoredApi → Type 0) → List StoredApi → Type 0
Pairs R [] = Unit
Pairs R (a ∷ rest) = All (R a) rest × Pairs R rest

abbrev pub IsExclusive : Store → Type 0
IsExclusive store = Pairs Apart store.apis

module _ (R S : StoredApi → StoredApi → Type 0) (f : StoredApi → StoredApi)
    (step : (a b : StoredApi) → R a b → S (f a) (f b)) where
  All-map : (a : StoredApi) (rest : List StoredApi) → All (R a) rest → All (S (f a)) (map f rest)
  All-map a [] h = tt
  All-map a (b ∷ rest) (r, h) = (step a b r, All-map a rest h)

  pub Pairs-map : (apis : List StoredApi) → Pairs R apis → Pairs S (map f apis)
  Pairs-map [] h = tt
  Pairs-map (a ∷ rest) (r, h) = (All-map a rest r, Pairs-map rest h)

module _ (P : StoredApi → Type 0) where
  pub All-find :
      (p : StoredApi → Bool) (apis : List StoredApi) {target : StoredApi}
      → All P apis
      → find p apis ≡ some target
      → P target
  All-find p [] h e = cc
  All-find p (a ∷ rest) {target} h e = elim (Bool-cases (p a)) [
    | inl k ↦ let same : a ≡ target = ground arith in subst P same h.0
    | inr k ↦ All-find p rest h.1 (rw k at e)
  ]

pub find-holds :
    (p : StoredApi → Bool) (apis : List StoredApi) {target : StoredApi}
    → find p apis ≡ some target
    → p target ≡ true
find-holds p [] e = cc
find-holds p (a ∷ rest) {target} e = ground (arith, find-holds p rest {target = target})

-- Every row is the one that was found, or differs from it in both ids.
abbrev pub IsTold : StoredApi → StoredApi → Type 0
IsTold target a = (a ≡ target) ⊎ ((a.id ≢ target.id) × (a.internal_id ≢ target.internal_id))

All-IsTold : (a : StoredApi) (rest : List StoredApi) → All (Apart a) rest → All (IsTold a) rest
All-IsTold a [] h = tt
All-IsTold a (b ∷ rest) (r, h) =
    (inr ((λ e. r.ids (sym e)), (λ e. r.internal_ids (sym e))), All-IsTold a rest h)

pub find-IsTold :
    (id : Text) (apis : List StoredApi) {target : StoredApi}
    → Pairs Apart apis
    → find (λ api. api.id == id) apis ≡ some target
    → All (IsTold target) apis
find-IsTold id [] h e = tt
find-IsTold id (a ∷ rest) {target} (r, h) e = elim (Bool-cases (a.id == id)) [
  | inl k ↦
      let same : a ≡ target = ground arith in
      (inl same, subst (λ t. All (IsTold t) rest) same (All-IsTold a rest r))
  | inr k ↦
      let later = rw k at e in
      let far = All-find (Apart a) (λ api. api.id == id) rest r later in
      (inr (far.ids, far.internal_ids), find-IsTold id rest h later)
]
