-- ===== src/MockApi/Store/Split.antt =====
-- The one row of a valid table that has an id.
use tunnelgate.Prelude.{
  ◌≡◌, ◌∷◌, ◌==◌, ap, false, List, [], arith, All, ℕ_eq, ◌⊎◌, ◌++◌, refl, inl, inr, Bool-cases,
  eq_of_true,
}
use tunnelgate.Text.{Text, text_eq, text_eq_iff}
use tunnelgate.MockApi.Types.{StoredApi}
use tunnelgate.MockApi.Store.Exclusive.{Pairs, Apart}

-- No row has the id.
abbrev pub NoneHas : Text → List StoredApi → Type 0
NoneHas id = All (λ api. (api.id == id) ≡ false)

-- The one row with the id, and the rows before and behind it.
pub record IsSplit (id : Text) (apis : List StoredApi) : Type 0 where
  pub target : StoredApi
  pub front : List StoredApi
  pub back : List StoredApi
  pub rows : apis ≡ front ++ target ∷ back
  pub has_id : target.id ≡ id
  pub none_before : NoneHas id front
  pub none_behind : NoneHas id back

others-NoneHas :
    (id : Text) (a : StoredApi) (rest : List StoredApi)
    → a.id ≡ id
    → All (Apart a) rest
    → NoneHas id rest
others-NoneHas id a [] e h = tt
others-NoneHas id a (b ∷ rest) e (r, h) =
    (ground (arith, e, r.ids, text_eq_iff b.id id), others-NoneHas id a rest e h)

pub row_with_id :
    (id : Text) (apis : List StoredApi) → Pairs Apart apis → NoneHas id apis ⊎ IsSplit id apis
row_with_id id [] h = inl tt
row_with_id id (a ∷ rest) (r, h) = elim (Bool-cases (a.id == id)) [
  | inl e ↦ inr (record {
    target = a;
    front = [];
    back = rest;
    rows = refl;
    has_id = eq_of_true a.id id e;
    none_before = tt;
    none_behind = others-NoneHas id a rest (eq_of_true a.id id e) r;
  })
  | inr e ↦ elim (row_with_id id rest h) [
    | inl none_there ↦ inl (e, none_there)
    | inr s ↦ inr (record {
      target = s.target;
      front = a ∷ s.front;
      back = s.back;
      rows = ap (λ apis. a ∷ apis) s.rows;
      has_id = s.has_id;
      none_before = (e, s.none_before);
      none_behind = s.none_behind;
    })
  ]
]
