-- ===== src/MockApi/Lookup/Scan.antt =====
-- What the loop over the candidates finds, and what the order of the rows leaves as it is.
use mathlib.Core.Path.{subst}
use tunnelgate.Prelude.{
  refl, ◌≡◌, ◌≢◌, ◌⊎◌, ◌&&◌, ◌∷◌, inl, inr, Bool, true, false, Option, none, some, List, [], arith,
  if-elim, Bool-cases, All, ℕ_eq,
}
use tunnelgate.Text.{Text, text_eq}
use tunnelgate.Text.Sort.{text_leb}
use tunnelgate.MockApi.Types.{StoredApi}
use tunnelgate.MockApi.Routes.{Variables}
use tunnelgate.MockApi.Lookup.{is_match, is_taken, keep_first, scan_rows, insert_row, order_rows}

module _ (P : StoredApi → Type 0) where
  All-insert_row :
      (row : StoredApi) (rows : List StoredApi) → P row → All P rows → All P (insert_row row rows)
  unfolding insert_row
  All-insert_row row [] p h = (p, tt)
  All-insert_row row (r ∷ rows) p (q, h) =
      if-elim (All P) (text_leb row.route_path r.route_path) _ _ (λ _. (p, (q, h)))
        (λ _. (q, All-insert_row row rows p h))

  pub All-order_rows : (rows : List StoredApi) → All P rows → All P (order_rows rows)
  unfolding order_rows
  All-order_rows [] h = tt
  All-order_rows (row ∷ rows) (p, h) =
      All-insert_row row (order_rows rows) p (All-order_rows rows h)

  All-of_insert_row :
      (row : StoredApi) (rows : List StoredApi) → All P (insert_row row rows) → P row × All P rows
  unfolding insert_row
  All-of_insert_row row [] h = h
  All-of_insert_row row (r ∷ rows) h =
      if-elim (λ l. All P l → P row × (P r × All P rows)) (text_leb row.route_path r.route_path) _ _
        (λ _ k. (k.0, k.1)) (λ _ k. let (p, q) = All-of_insert_row row rows k.1 in (p, (k.0, q))) h

  pub All-of_order_rows : (rows : List StoredApi) → All P (order_rows rows) → All P rows
  unfolding order_rows
  All-of_order_rows [] h = tt
  All-of_order_rows (row ∷ rows) h =
      let (p, k) = All-of_insert_row row (order_rows rows) h in (p, All-of_order_rows rows k)

module _ (env_vars : Variables) (path : Text) (only : Bool) where
  -- The row that is found has what all rows have, and it matches.
  pub scan_rows-some :
      (P : StoredApi → Type 0) (fallback : Option StoredApi) (rows : List StoredApi)
      (row : StoredApi)
      → All P rows
      → ((r : StoredApi) → fallback ≡ some r → P r × (is_match env_vars path only r ≡ true))
      → scan_rows env_vars path only fallback rows ≡ some row
      → P row × (is_match env_vars path only row ≡ true)
  unfolding scan_rows
  scan_rows-some P fallback [] row h f e = f row e
  scan_rows-some P fallback (r ∷ rows) row (p, h) f e =
      elim (Bool-cases (is_match env_vars path only r)) [
        | inl m ↦ elim (Bool-cases (is_taken env_vars path only r)) [
          | inl t ↦
              let same : r ≡ row = ground arith in
              subst (λ x. P x × (is_match env_vars path only x ≡ true)) same (p, m)
          | inr t ↦
              scan_rows-some P (keep_first env_vars path only fallback r) rows row h
                (kept fallback f m) (rw (m, t) at e)
        ]
        | inr m ↦ scan_rows-some P fallback rows row h f (rw m at e)
      ]
    where
      kept :
          (o : Option StoredApi)
          → ((x : StoredApi) → o ≡ some x → P x × (is_match env_vars path only x ≡ true))
          → is_match env_vars path only r ≡ true
          → (x : StoredApi) → keep_first env_vars path only o r ≡ some x
          → P x × (is_match env_vars path only x ≡ true)
      kept none g m x k =
          let same : r ≡ x = ground arith in
          subst (λ y. P y × (is_match env_vars path only y ≡ true)) same (p, m)
      kept (some first) g m x k = g x k

  -- Something is found if there was something already, or a row matches.
  pub scan_rows-none :
      (fallback : Option StoredApi) (rows : List StoredApi)
      → scan_rows env_vars path only fallback rows ≡ none
      → (fallback ≡ none) × All (λ r. is_match env_vars path only r ≡ false) rows
  unfolding scan_rows
  scan_rows-none fallback [] e = (e, tt)
  scan_rows-none fallback (r ∷ rows) e = elim (Bool-cases (is_match env_vars path only r)) [
    | inl m ↦ elim (Bool-cases (is_taken env_vars path only r)) [
      | inl t ↦ ground arith
      | inr t ↦ absurd (
          held fallback
            (scan_rows-none (keep_first env_vars path only fallback r) rows (rw (m, t) at e)).0)
    ]
    | inr m ↦ let (a, b) = scan_rows-none fallback rows (rw m at e) in (a, (m, b))
  ]
    where
      held : (o : Option StoredApi) → keep_first env_vars path only o r ≢ none
      held none k = cc
      held (some first) k = cc

  -- A row that is not taken at once is found only where no matching row is.
  pub scan_rows-taken :
      (fallback : Option StoredApi) (rows : List StoredApi) (row : StoredApi)
      → scan_rows env_vars path only fallback rows ≡ some row
      → (is_taken env_vars path only row ≡ true)
        ⊎ All (λ r. (is_match env_vars path only r && is_taken env_vars path only r) ≡ false) rows
  unfolding scan_rows
  scan_rows-taken fallback [] row e = inr tt
  scan_rows-taken fallback (r ∷ rows) row e = elim (Bool-cases (is_match env_vars path only r)) [
    | inl m ↦ elim (Bool-cases (is_taken env_vars path only r)) [
      | inl t ↦
          let same : r ≡ row = ground arith in
          inl (subst (λ x. is_taken env_vars path only x ≡ true) same t)
      | inr t ↦
          elim (scan_rows-taken (keep_first env_vars path only fallback r) rows row
            (rw (m, t) at e)) [ inl k ↦ inl k | inr k ↦ inr (rw (m, t) refl, k) ]
    ]
    | inr m ↦ elim (scan_rows-taken fallback rows row (rw m at e)) [
      | inl k ↦ inl k
      | inr k ↦ inr (rw m refl, k)
    ]
  ]
