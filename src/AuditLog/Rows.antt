-- ===== src/AuditLog/Rows.antt =====
-- The ids of records and the keys of shadows under the operations on lists that the statements are.
use tunnelgate.Prelude.{
  refl, ◌<◌, ◌≡◌, ◌∙◌, ◌&&◌, ◌||◌, ◌∷◌, ◌++◌, ◌==◌, ℕ, ap, Bool, true, false, List, [], map, arith,
  nat_eq_iff, if-elim, any, keep, All, ℕ_eq, elem, elem-append, distinct,
}
use tunnelgate.Text.{Text, text_eq, text_eq_iff}
use mathlib.Core.Path.{ap₂}
use tunnelgate.AuditLog.Types.{AuditRow, ShadowRow}
use tunnelgate.AuditLog.Log.{lacks_public_id, with_public_id, is_shadow_of}

abbrev pub row_ids : List AuditRow → List ℕ
row_ids = map (λ (row : AuditRow). row.id)

-- No two shadows are of one record and one endpoint.
abbrev pub HasUniqueKeys : List ShadowRow → Type 0
HasUniqueKeys [] = Unit
HasUniqueKeys (row ∷ rows) =
    (any (is_shadow_of row.proxy_audit_log_id row.shadow_endpoint_id) rows ≡ false)
    × HasUniqueKeys rows

abbrev pub IsRecorded : List ℕ → ShadowRow → Type 0
IsRecorded ids row = elem row.proxy_audit_log_id ids ≡ true

-- Lists.
module _ {ℓ κ} {A : Type ℓ} (P : A → Type κ) where
  pub All-keep : (p : A → Bool) (xs : List A) → All P xs → All P (keep p xs)
  All-keep p [] h = tt
  All-keep p (x ∷ xs) (h, k) =
      if-elim (All P) (p x) _ _ (λ _. (h, All-keep p xs k)) (λ _. All-keep p xs k)

  pub keep-All : (p : A → Bool) (xs : List A) → ((x : A) → p x ≡ true → P x) → All P (keep p xs)
  keep-All p [] h = tt
  keep-All p (x ∷ xs) h =
      if-elim (All P) (p x) _ _ (λ e. (h x e, keep-All p xs h)) (λ _. keep-All p xs h)

  pub All-mono {μ} : {Q : A → Type μ} (xs : List A) → ((x : A) → P x → Q x) → All P xs → All Q xs
  All-mono [] f h = tt
  All-mono (x ∷ xs) f (p, h) = (f x p, All-mono xs f h)

pub not_elem_of_below : (n : ℕ) (ids : List ℕ) → All (λ i. i < n) ids → elem n ids ≡ false
not_elem_of_below n [] h = refl
not_elem_of_below n (i ∷ ids) (lt, h) = ground (arith, not_elem_of_below n ids h, nat_eq_iff i n)

pub distinct-snoc :
    (n : ℕ) (ids : List ℕ)
    → elem n ids ≡ false
    → distinct ids ≡ true
    → distinct (ids ++ n ∷ []) ≡ true
distinct-snoc n [] h k = refl
distinct-snoc n (i ∷ ids) h k =
    ground (arith, distinct-snoc n ids, elem-append i ids (n ∷ []), nat_eq_iff i n, nat_eq_iff n i)

pub row_ids-append : (xs ys : List AuditRow) → row_ids (xs ++ ys) ≡ row_ids xs ++ row_ids ys
row_ids-append [] ys = refl
row_ids-append (x ∷ xs) ys = ap (λ t. x.id ∷ t) (row_ids-append xs ys)

pub with_public_id-id :
    (new_id : ℕ → Text) (row : AuditRow) → (with_public_id new_id row).id ≡ row.id
with_public_id-id new_id row =
    if-elim (λ (r : AuditRow). r.id ≡ row.id) (lacks_public_id row) _ _ (λ _. refl) (λ _. refl)

pub row_ids-with_public_id :
    (new_id : ℕ → Text) (rows : List AuditRow)
    → row_ids (map (with_public_id new_id) rows) ≡ row_ids rows
row_ids-with_public_id new_id [] = refl
row_ids-with_public_id new_id (row ∷ rows) =
    ap₂ ◌∷◌ (with_public_id-id new_id row) (row_ids-with_public_id new_id rows)

pub elem-row_ids-keep :
    (k : ℕ) (p : AuditRow → Bool) (rows : List AuditRow)
    → elem k (row_ids rows) ≡ false
    → elem k (row_ids (keep p rows)) ≡ false
elem-row_ids-keep k p [] h = refl
elem-row_ids-keep k p (row ∷ rows) h =
    if-elim (λ rs. elem k (row_ids rs) ≡ false) (p row) _ _
      (λ _. ground (arith, elem-row_ids-keep k p rows))
      (λ _. elem-row_ids-keep k p rows (ground arith))

pub distinct-row_ids-keep :
    (p : AuditRow → Bool) (rows : List AuditRow)
    → distinct (row_ids rows) ≡ true
    → distinct (row_ids (keep p rows)) ≡ true
distinct-row_ids-keep p [] h = refl
distinct-row_ids-keep p (row ∷ rows) h =
    if-elim (λ rs. distinct (row_ids rs) ≡ true) (p row) _ _
      (λ _. ground (arith, distinct-row_ids-keep p rows, elem-row_ids-keep row.id p rows))
      (λ _. distinct-row_ids-keep p rows (ground arith))

pub All-row_ids-keep :
    (n : ℕ) (p : AuditRow → Bool) (rows : List AuditRow)
    → All (λ i. i < n) (row_ids rows)
    → All (λ i. i < n) (row_ids (keep p rows))
All-row_ids-keep n p [] h = tt
All-row_ids-keep n p (row ∷ rows) (h, k) =
    if-elim (λ rs. All (λ i. i < n) (row_ids rs)) (p row) _ _
      (λ _. (h, All-row_ids-keep n p rows k)) (λ _. All-row_ids-keep n p rows k)

pub elem-row_ids :
    (k : ℕ) (rows : List AuditRow)
    → elem k (row_ids rows) ≡ any (λ (log : AuditRow). log.id == k) rows
elem-row_ids k [] = refl
elem-row_ids k (row ∷ rows) = ap (λ b. row.id == k || b) (elem-row_ids k rows)

-- The shadows.
module _ (f : ShadowRow → ShadowRow)
    (keeps_log : (row : ShadowRow) → (f row).proxy_audit_log_id ≡ row.proxy_audit_log_id)
    (keeps_endpoint : (row : ShadowRow) → (f row).shadow_endpoint_id ≡ row.shadow_endpoint_id) where
  pub any-is_shadow_of-map :
      (log : ℕ) (endpoint : Text) (rows : List ShadowRow)
      → any (is_shadow_of log endpoint) (map f rows) ≡ any (is_shadow_of log endpoint) rows
  any-is_shadow_of-map log endpoint [] = refl
  any-is_shadow_of-map log endpoint (row ∷ rows) =
      ap₂ ◌||◌ (ap₂ (λ l e. l == log && e == endpoint) (keeps_log row) (keeps_endpoint row))
        (any-is_shadow_of-map log endpoint rows)

  pub HasUniqueKeys-map : (rows : List ShadowRow) → HasUniqueKeys rows → HasUniqueKeys (map f rows)
  HasUniqueKeys-map [] h = tt
  HasUniqueKeys-map (row ∷ rows) (h, k) = (
    ap₂ (λ l e. any (is_shadow_of l e) (map f rows)) (keeps_log row) (keeps_endpoint row)
        ∙ any-is_shadow_of-map row.proxy_audit_log_id row.shadow_endpoint_id rows
        ∙ h,
    HasUniqueKeys-map rows k,
  )

  pub All-IsRecorded-map :
      (ids : List ℕ) (rows : List ShadowRow)
      → All (IsRecorded ids) rows
      → All (IsRecorded ids) (map f rows)
  All-IsRecorded-map ids [] h = tt
  All-IsRecorded-map ids (row ∷ rows) (h, k) =
      (ap (λ l. elem l ids) (keeps_log row) ∙ h, All-IsRecorded-map ids rows k)

pub is_shadow_of_sym :
    (a b : ShadowRow)
    → is_shadow_of a.proxy_audit_log_id a.shadow_endpoint_id b ≡ false
    → is_shadow_of b.proxy_audit_log_id b.shadow_endpoint_id a ≡ false
is_shadow_of_sym a b h = ground (
  arith,
  nat_eq_iff a.proxy_audit_log_id b.proxy_audit_log_id,
  nat_eq_iff b.proxy_audit_log_id a.proxy_audit_log_id,
  text_eq_iff a.shadow_endpoint_id b.shadow_endpoint_id,
  text_eq_iff b.shadow_endpoint_id a.shadow_endpoint_id,
)

pub any-is_shadow_of-snoc :
    (log : ℕ) (endpoint : Text) (rows : List ShadowRow) (row : ShadowRow)
    → any (is_shadow_of log endpoint) rows ≡ false
    → is_shadow_of log endpoint row ≡ false
    → any (is_shadow_of log endpoint) (rows ++ row ∷ []) ≡ false
any-is_shadow_of-snoc log endpoint [] row h k = ground arith
any-is_shadow_of-snoc log endpoint (r ∷ rows) row h k =
    ground (arith, any-is_shadow_of-snoc log endpoint rows row)

pub HasUniqueKeys-snoc :
    (rows : List ShadowRow) (row : ShadowRow)
    → any (is_shadow_of row.proxy_audit_log_id row.shadow_endpoint_id) rows ≡ false
    → HasUniqueKeys rows
    → HasUniqueKeys (rows ++ row ∷ [])
HasUniqueKeys-snoc [] row h k = (refl, tt)
HasUniqueKeys-snoc (r ∷ rows) row h (k, u) = (
  any-is_shadow_of-snoc r.proxy_audit_log_id r.shadow_endpoint_id rows row k
      (is_shadow_of_sym row r (ground arith)),
  HasUniqueKeys-snoc rows row (ground arith) u,
)

pub any-keep :
    (p q : ShadowRow → Bool) (rows : List ShadowRow)
    → any q rows ≡ false
    → any q (keep p rows) ≡ false
any-keep p q [] h = refl
any-keep p q (r ∷ rows) h =
    if-elim (λ rs. any q rs ≡ false) (p r) _ _ (λ _. ground (arith, any-keep p q rows))
      (λ _. any-keep p q rows (ground arith))

pub HasUniqueKeys-keep :
    (p : ShadowRow → Bool) (rows : List ShadowRow)
    → HasUniqueKeys rows
    → HasUniqueKeys (keep p rows)
HasUniqueKeys-keep p [] h = tt
HasUniqueKeys-keep p (r ∷ rows) (h, k) =
    if-elim HasUniqueKeys (p r) _ _
      (λ _. (
        any-keep p (is_shadow_of r.proxy_audit_log_id r.shadow_endpoint_id) rows h,
        HasUniqueKeys-keep p rows k,
      ))
      (λ _. HasUniqueKeys-keep p rows k)
