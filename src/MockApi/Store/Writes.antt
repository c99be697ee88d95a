-- ===== src/MockApi/Store/Writes.antt =====
-- What `Delete` does to the tables.
use tunnelgate.Prelude.{
  ◌≡◌, ◌∷◌, ◌==◌, ℕ, ap, Bool, false, not, List, [], if-elim, is_empty, keep, All, ℕ_eq, ◌⊎◌, ◌++◌,
  if◌then◌else◌, refl, inl, inr, true, eq_refl,
}
use tunnelgate.Text.{Text, text_eq}
use tunnelgate.MockApi.Types.{StoredApi, ResponseExample}
use tunnelgate.MockApi.Store.{Store, without, delete}
use tunnelgate.MockApi.Store.Exclusive.{Pairs, Apart}
use tunnelgate.MockApi.Store.Split.{NoneHas, row_with_id}
use tunnelgate.MockApi.Store.Valid.{IsValid}

module _ (P : StoredApi → Type 0) (p : StoredApi → Bool) where
  pub All-keep : (apis : List StoredApi) → All P apis → All P (keep p apis)
  All-keep [] h = tt
  All-keep (a ∷ rest) (q, h) =
      if-elim (All P) (p a) _ _ (λ _. (q, All-keep rest h)) (λ _. All-keep rest h)

Pairs-keep :
    (p : StoredApi → Bool) (apis : List StoredApi) → Pairs Apart apis → Pairs Apart (keep p apis)
Pairs-keep p [] h = tt
Pairs-keep p (a ∷ rest) (r, h) =
    if-elim (Pairs Apart) (p a) _ _ (λ _. (All-keep (Apart a) p rest r, Pairs-keep p rest h))
      (λ _. Pairs-keep p rest h)

keep-NoneHas :
    (id : Text) (apis : List StoredApi)
    → NoneHas id apis
    → keep (λ api. not (api.id == id)) apis ≡ apis
keep-NoneHas id [] h = refl
keep-NoneHas id (a ∷ rest) (e, h) = rw e (ap (λ apis. a ∷ apis) (keep-NoneHas id rest h))

matches-NoneHas :
    (id : Text) (apis : List StoredApi) → NoneHas id apis → keep (λ api. api.id == id) apis ≡ []
matches-NoneHas id [] h = refl
matches-NoneHas id (a ∷ rest) (e, h) = rw e (matches-NoneHas id rest h)

module _ (id : Text) (responses : ℕ → List ResponseExample) (k : ℕ) where
  without-NoneHas :
      (apis : List StoredApi) → NoneHas id apis → without apis id responses k ≡ responses k
  without-NoneHas [] h = refl
  without-NoneHas (a ∷ rest) (e, h) = rw e (without-NoneHas rest h)

  module _ (target : StoredApi) (same : (target.id == id) ≡ true) (back : List StoredApi)
      (none_behind : NoneHas id back) where
    keep-split :
        (front : List StoredApi)
        → NoneHas id front
        → keep (λ api. not (api.id == id)) (front ++ target ∷ back) ≡ front ++ back
    keep-split [] h = rw same (keep-NoneHas id back none_behind)
    keep-split (a ∷ front) (e, h) = rw e (ap (λ apis. a ∷ apis) (keep-split front h))

    matches-split :
        (front : List StoredApi)
        → is_empty (keep (λ api. api.id == id) (front ++ target ∷ back)) ≡ false
    matches-split [] = rw same refl
    matches-split (a ∷ front) =
        if-elim (λ (apis : List StoredApi). is_empty apis ≡ false) (a.id == id) _ _ (λ _. refl)
          (λ _. matches-split front)

    without-split :
        (front : List StoredApi)
        → NoneHas id front
        → without (front ++ target ∷ back) id responses k
          ≡ (if target.internal_id == k then [] else responses k)
    without-split [] h =
        rw same
          (ap (λ r. if target.internal_id == k then [] else r) (without-NoneHas back none_behind))
    without-split (a ∷ front) (e, h) = rw e (without-split front h)

-- Deleting an id keeps the invariant of the table. Where that holds, either no row has the id: then the result is
-- `false`, and the rows and the examples are as they were; or one row has it: then the result is
-- `true`, exactly this row is gone and the others are as they were and in their order, its examples
-- are gone, and the examples of every other spec are as they were.
pub delete-exactly_one :
    (store : Store) (id : Text) (k : ℕ)
    → IsValid store
    → IsValid (delete store id).0
      × ((NoneHas id store.apis
            × ((delete store id).1 ≡ false)
            × ((delete store id).0.apis ≡ store.apis)
            × ((delete store id).0.responses k ≡ store.responses k))
          ⊎ ((target : StoredApi) × (front : List StoredApi) × (back : List StoredApi) × (store.apis
                ≡ front ++ target ∷ back)
              × (target.id ≡ id)
              × ((delete store id).1 ≡ true)
              × ((delete store id).0.apis ≡ front ++ back)
              × ((delete store id).0.responses k
                  ≡ (if target.internal_id == k then [] else store.responses k))))
unfolding delete
delete-exactly_one store id k v = (
  record {
    exclusive = Pairs-keep (λ api. not (api.id == id)) store.apis v.exclusive;
    identified =
        All-keep (λ api. is_empty api.id ≡ false) (λ api. not (api.id == id)) store.apis
          v.identified;
  },
  elim (row_with_id id store.apis v.exclusive) [
    | inl h ↦ inl (
      h,
      rw (matches-NoneHas id store.apis h) refl,
      keep-NoneHas id store.apis h,
      without-NoneHas id store.responses k store.apis h,
    )
    | inr s ↦
        let same : (s.target.id == id) ≡ true = rw (s.has_id, eq_refl id) refl in
        inr (
          s.target,
          s.front,
          s.back,
          s.rows,
          s.has_id,
          rw (s.rows, matches-split id store.responses k s.target same s.back s.none_behind s.front)
              refl,
          rw s.rows (
              keep-split id store.responses k s.target same s.back s.none_behind s.front
                s.none_before),
          rw s.rows (
              without-split id store.responses k s.target same s.back s.none_behind s.front
                s.none_before),
        )
  ],
)
