-- ===== src/AuditLog/Paging.antt =====
-- The pages of the audit log: `List` of backend/internal/features/audit-log/service.go.
use tunnelgate.Prelude.{
  refl, ◌+◌, ◌-◌, ◌*◌, ◌/◌, ◌≤◌, ◌<◌, ◌≡◌, ◌∙◌, ◌∷◌, ◌++◌, ℕ, zero, suc, sym, ap, Option, List, [],
  map, arith, ltb, leb, if-elim, length, take, drop, length-take, ℕ_eq, ℤ, pos, negsuc,
}
use tunnelgate.Text.{Text, text_eq}
use mathlib.Core.Path.{ap₂}
use native.Mathlib.Nat.{div-add-mod', mod-lt}
use tunnelgate.MockApi.Store.{Store}
use tunnelgate.Proxy.Services.{ShadowTarget}
use tunnelgate.AuditLog.Types.{AuditRow, Record, ListResult}
use tunnelgate.AuditLog.Log.{
  AuditTables, ensure_public_ids, scan_record, with_shadows, list, insert_newer, with_public_id,
  newest_first, page_of, total_pages_of, clamp_page,
}

-- The numbers `from`, `from + 1`, … of which there are `count`.
abbrev pub count_up : ℕ → ℕ → List ℕ
count_up zero from = []
count_up (suc count) from = from ∷ count_up count (suc from)

abbrev pub concat {ℓ} : {A : Type ℓ} → List (List A) → List A
concat [] = []
concat (xs ∷ xss) = xs ++ concat xss

module _ {ℓ} {A : Type ℓ} where
  take-nil : (n : ℕ) → take {A = A} n [] ≡ []
  take-nil zero = refl
  take-nil (suc n) = refl

  drop-nil : (n : ℕ) → drop {A = A} n [] ≡ []
  drop-nil zero = refl
  drop-nil (suc n) = refl

  take_same : {m n : ℕ} (xs : List A) → m ≡ n → take m xs ≡ take n xs
  take_same xs = ap (λ k. take k xs)

  drop_same : {m n : ℕ} (xs : List A) → m ≡ n → drop m xs ≡ drop n xs
  drop_same xs = ap (λ k. drop k xs)

  drop-drop : (m n : ℕ) (xs : List A) → drop m (drop n xs) ≡ drop (n + m) xs
  drop-drop m zero xs = drop_same xs (omega arith)
  drop-drop m (suc n) [] = drop-nil m ∙ sym (drop-nil (suc n + m))
  drop-drop m (suc n) (x ∷ xs) =
      drop-drop m n xs ∙ drop_same {m = suc (n + m)} (x ∷ xs) (omega arith)

  take-add : (m n : ℕ) (xs : List A) → take (m + n) xs ≡ take m xs ++ take n (drop m xs)
  take-add zero n xs = take_same xs (omega arith)
  take-add (suc m) n [] = take-nil (suc m + n) ∙ sym (take-nil n)
  take-add (suc m) n (x ∷ xs) =
      take_same {n = suc (m + n)} (x ∷ xs) (omega arith) ∙ ap (λ t. x ∷ t) (take-add m n xs)

  take_of_length : (n : ℕ) (xs : List A) → length xs ≤ n → take n xs ≡ xs
  take_of_length zero [] h = refl
  take_of_length zero (x ∷ xs) h = absurd (omega arith)
  take_of_length (suc n) [] h = refl
  take_of_length (suc n) (x ∷ xs) h = ap (λ t. x ∷ t) (take_of_length n xs (omega arith))

  -- Consecutive pages are a longer cut.
  concat-pages :
      (size count page : ℕ) (xs : List A)
      → concat (map (λ p. page_of size p xs) (count_up count (suc page)))
        ≡ take (count * size) (drop (page * size) xs)
  concat-pages size zero page xs = sym (take_same {n = 0} (drop (page * size) xs) (omega arith))
  concat-pages size (suc count) page xs =
      let rest = drop (page * size) xs in
      let one : page_of size (suc page) xs ≡ take size rest =
        ap (λ k. take size (drop (k * size) xs)) {x = suc page - 1} (omega arith) in
      let next : drop (suc page * size) xs ≡ drop size rest =
        drop_same {n = page * size + size} xs (grind arith)
        ∙ sym (drop-drop size (page * size) xs) in
      ap (λ p. p ++ concat (map (λ p. page_of size p xs) (count_up count (suc (suc page))))) one
      ∙ ap (λ t. take size rest ++ t)
          (concat-pages size count (suc page) xs ∙ ap (take (count * size)) next)
      ∙ sym (take-add size (count * size) rest)
      ∙ take_same {m = size + count * size} {n = suc count * size} rest (grind arith)

-- The pages hold all items, and there is at least one.
total_pages_of_covers : (total size : ℕ) → 0 < size → total ≤ total_pages_of total size * size
total_pages_of_covers total size h =
    let pages = (total + size - 1) / size in
    let enough : total ≤ pages * size =
      omega (arith, div-add-mod' (total + size - 1) size, mod-lt (total + size - 1) h) in
    if-elim (λ n. total ≤ n * size) (ltb pages 1) 1 pages
      (λ few.
        let none_left : pages * size ≡ 0 =
          ap (λ n. n * size) {y = 0} (ground arith) ∙ omega arith in
        omega arith)
      (λ many. enough)

map-count_up {ℓ} :
    {B : Type ℓ} (f g : ℕ → B) (count from : ℕ)
    → ((p : ℕ) → from ≤ p → p < from + count → f p ≡ g p)
    → map f (count_up count from) ≡ map g (count_up count from)
map-count_up f g zero from h = refl
map-count_up f g (suc count) from h =
    ap₂ ◌∷◌ (h from (omega arith) (omega arith))
      (map-count_up f g count (suc from) (λ p lo hi. h p (omega arith) (omega arith)))

map-append {ℓ κ} :
    {A : Type ℓ} {B : Type κ} (f : A → B) (xs ys : List A) → map f (xs ++ ys) ≡ map f xs ++ map f ys
map-append f [] ys = refl
map-append f (x ∷ xs) ys = ap (λ t. f x ∷ t) (map-append f xs ys)

concat-map-map {ℓ κ μ} :
    {A : Type ℓ} {B : Type κ} {C : Type μ} (f : B → C) (g : A → List B) (xs : List A)
    → concat (map (λ x. map f (g x)) xs) ≡ map f (concat (map g xs))
concat-map-map f g [] = refl
concat-map-map f g (x ∷ xs) =
    ap (λ t. map f (g x) ++ t) (concat-map-map f g xs) ∙ sym (map-append f (g x) _)

length-map {ℓ κ} :
    {A : Type ℓ} {B : Type κ} (f : A → B) (xs : List A) → length (map f xs) ≡ length xs
length-map f [] = refl
length-map f (x ∷ xs) = ap suc (length-map f xs)

length-insert_newer :
    (row : AuditRow) (rows : List AuditRow) → length (insert_newer row rows) ≡ suc (length rows)
length-insert_newer row [] = refl
length-insert_newer row (r ∷ rows) =
    if-elim (λ xs. length xs ≡ suc (suc (length rows))) (leb r.id row.id) _ _ (λ _. refl)
      (λ _. ap suc (length-insert_newer row rows))

length-newest_first : (rows : List AuditRow) → length (newest_first rows) ≡ length rows
length-newest_first [] = refl
length-newest_first (row ∷ rows) =
    length-insert_newer row (newest_first rows) ∙ ap suc (length-newest_first rows)

clamp_page_inside : (p n : ℕ) → 1 ≤ p → p ≤ n → clamp_page (pos p) n ≡ p
clamp_page_inside p n lo hi = ground arith

clamp_page_bounds : (page : ℤ) (n : ℕ) → 1 ≤ n → (1 ≤ clamp_page page n) × (clamp_page page n ≤ n)
clamp_page_bounds (pos p) n h = ground arith
clamp_page_bounds (negsuc p) n h = ground arith

total_pages_of_positive : (total size : ℕ) → 1 ≤ total_pages_of total size
total_pages_of_positive total size =
    if-elim (λ n. 1 ≤ n) (ltb ((total + size - 1) / size) 1) _ _ (λ _. omega arith)
      (λ h. ground arith)

module _ (itoa : ℕ → Text) (unmarshal_targets : Text → Option (List ShadowTarget))
    (new_id : ℕ → Text) (specs : Store) where
  abbrev pub list_of : AuditTables → ℤ → ℕ → ListResult
  list_of tables page page_size = (list itoa unmarshal_targets new_id specs tables page page_size).1

  -- All records of the log with their shadows, newest first.
  abbrev pub whole_log : AuditTables → List Record
  whole_log tables =
      let ensured = ensure_public_ids new_id tables in
      map (λ row. with_shadows ensured (scan_record itoa unmarshal_targets row))
        (newest_first ensured.audit_logs)

  -- The items of the pages from 1 to the number of pages that `list` gives are, one page after the
  -- other, the whole log with the newest record first, if the page size is positive.
  pub list-pages :
      (tables : AuditTables) (page_size : ℕ)
      → 0 < page_size
      → concat (
          map
            (λ p. (list_of tables (pos p) page_size).items)
            (count_up (list_of tables (pos 1) page_size).total_pages 1))
        ≡ whole_log tables
  unfolding list ensure_public_ids
  list-pages tables page_size h =
      let ensured = ensure_public_ids new_id tables in
      let rows = newest_first ensured.audit_logs in
      let total = length ensured.audit_logs in
      let n = total_pages_of total page_size in
      let show : AuditRow → Record =
        λ row. with_shadows ensured (scan_record itoa unmarshal_targets row) in
      ap concat (
        map-count_up _ (λ p. map show (page_of page_size p rows)) n 1
          (λ p lo hi.
            ap (λ k. map show (page_of page_size k rows)) (clamp_page_inside p n lo (omega arith))))
      ∙ concat-map-map show (λ p. page_of page_size p rows) (count_up n 1)
      ∙ ap (map show) (
          concat-pages page_size n 0 rows
          ∙ ap (take (n * page_size)) (drop_same {m = 0 * page_size} {n = 0} rows (omega arith))
          ∙ take_of_length (n * page_size) rows (
              omega (
                arith,
                length-newest_first ensured.audit_logs,
                total_pages_of_covers total page_size h,
              )))

  -- Whatever page is asked for, the page that `list` gives is between 1 and the number of pages and
  -- holds at most as many items as a page has, and the total is the number of the records.
  pub list_bounds :
      (tables : AuditTables) (page : ℤ) (page_size : ℕ)
      → (1 ≤ (list_of tables page page_size).page)
        × ((list_of tables page page_size).page ≤ (list_of tables page page_size).total_pages)
        × (length (list_of tables page page_size).items ≤ page_size)
        × ((list_of tables page page_size).total ≡ length tables.audit_logs)
  unfolding list ensure_public_ids
  list_bounds tables page page_size =
      let ensured = ensure_public_ids new_id tables in
      let n = total_pages_of (length ensured.audit_logs) page_size in
      let (lo, hi) = clamp_page_bounds page n (total_pages_of_positive _ page_size) in
      let rest = drop ((clamp_page page n - 1) * page_size) (newest_first ensured.audit_logs) in
      (
        lo,
        hi,
        omega (
          arith,
          length-map (λ row. with_shadows ensured (scan_record itoa unmarshal_targets row))
              (take page_size rest),
          length-take page_size rest,
        ),
        length-map (with_public_id new_id) tables.audit_logs,
      )
