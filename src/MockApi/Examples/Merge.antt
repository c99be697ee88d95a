-- ===== src/MockApi/Examples/Merge.antt =====
-- Merging response examples, against an update of one list by the other.
use mathlib.Core.Path.{subst}
use tunnelgate.Prelude.{
  ℕ, ◌≡◌, ◌∙◌, ◌∷◌, ◌++◌, ◌==◌, if◌then◌else◌, refl, sym, ap, inl, inr, true, false, none, some,
  List, [], append_assoc, append-nil, arith, nat_eq_iff, Bool-cases, Option-cases, length, is_empty,
  keep, All, ℕ_eq, elem, elem-append, distinct,
}
use tunnelgate.MockApi.Types.{ResponseExample}
use tunnelgate.MockApi.Examples.{
  valid_http_status, set, Merging, push, merge_existing, merge_one, merge_incoming,
  merge_response_examples,
}
use tunnelgate.MockApi.Examples.Put.{
  put, put_all, statuses, position, position-append, position-none, set-position, put-append,
}

-- What `statusIndex` says of `merged`.
record IsIndexed (m : Merging) : Type 0 where
  indexed : (status : ℕ) → m.status_index status ≡ position status m.merged
  distinct_statuses : distinct (statuses m.merged) ≡ true

statuses-append :
    (xs : List ResponseExample) (x : ResponseExample)
    → statuses (xs ++ x ∷ []) ≡ statuses xs ++ x.status ∷ []
statuses-append [] x = refl
statuses-append (y ∷ xs) x = ap (λ t. y.status ∷ t) (statuses-append xs x)

distinct-append :
    (l : List ℕ) (s : ℕ) → distinct l ≡ true → elem s l ≡ false → distinct (l ++ s ∷ []) ≡ true
distinct-append [] s h k = refl
distinct-append (t ∷ l) s h k =
    ground (arith, distinct-append l s, elem-append t l (s ∷ []), nat_eq_iff s t)

push-IsIndexed :
    (m : Merging) (x : ResponseExample)
    → IsIndexed m
    → elem x.status (statuses m.merged) ≡ false
    → IsIndexed (push m x)
push-IsIndexed m x h k = record {
  indexed = λ status.
      ap (λ o. if x.status == status then some (length m.merged) else o) (h.indexed status)
      ∙ sym (position-append status m.merged x k);
  distinct_statuses =
      rw (statuses-append m.merged x) (distinct-append _ x.status h.distinct_statuses k);
}

position-eq :
    (status : ℕ) (xs ys : List ResponseExample)
    → statuses xs ≡ statuses ys
    → position status xs ≡ position status ys
unfolding position
position-eq status [] [] h = refl
position-eq status [] (y ∷ ys) h = cc
position-eq status (x ∷ xs) [] h = cc
position-eq status (x ∷ xs) (y ∷ ys) h = ground (arith, position-eq status xs ys)

merge_one_lem :
    (m : Merging) (x : ResponseExample)
    → IsIndexed m
    → IsIndexed (merge_one m x) × ((merge_one m x).merged ≡ put m.merged x)
unfolding merge_one
merge_one_lem m x h = elim (Option-cases (m.status_index x.status)) [
  | inl e ↦
      let absent = position-none x.status m.merged (sym (h.indexed x.status) ∙ e) in
      rw (e, merge_one) (push-IsIndexed m x h absent, sym (put-append m.merged x absent))
  | inr (i, e) ↦
      let (place, same) = set-position m.merged x i (sym (h.indexed x.status) ∙ e) in
      rw (e, merge_one)
        (
          record {
            indexed = λ status.
                h.indexed status
                ∙ position-eq status m.merged (set m.merged i x)
                    (sym same ∙ ap statuses (sym place));
            distinct_statuses = rw (ap statuses place ∙ same) h.distinct_statuses;
          },
          place,
        )
]

merge_incoming-merged :
    (m : Merging) (incoming : List ResponseExample)
    → IsIndexed m
    → (merge_incoming m incoming).merged ≡ put_all m.merged incoming
unfolding merge_incoming put_all
merge_incoming-merged m [] h = refl
merge_incoming-merged m (x ∷ incoming) h =
    let (indexed, same) = merge_one_lem m x h in
    merge_incoming-merged (merge_one m x) incoming indexed ∙ ap (λ l. put_all l incoming) same

-- No status of the first list stands in the second.
abbrev IsFresh : List ResponseExample → List ResponseExample → Type 0
IsFresh xs ys = All (λ (x : ResponseExample). elem x.status (statuses ys) ≡ false) xs

IsFresh-push :
    (existing ys : List ResponseExample) (x : ResponseExample)
    → elem x.status (statuses existing) ≡ false
    → IsFresh existing ys
    → IsFresh existing (ys ++ x ∷ [])
IsFresh-push [] ys x h k = tt
IsFresh-push (y ∷ existing) ys x h (k, ks) = (
  rw (statuses-append ys x) (
      ground (
        arith,
        elem-append y.status (statuses ys) (x.status ∷ []),
        nat_eq_iff x.status y.status,
        nat_eq_iff y.status x.status,
      )),
  IsFresh-push existing ys x (ground arith) ks,
)

merge_existing-IsIndexed :
    (m : Merging) (existing : List ResponseExample)
    → IsIndexed m
    → distinct (statuses existing) ≡ true
    → IsFresh existing m.merged
    → IsIndexed (merge_existing m existing)
      × ((merge_existing m existing).merged
          ≡ m.merged ++ keep (λ x. valid_http_status x.status) existing)
unfolding merge_existing
merge_existing-IsIndexed m [] h d f = (h, sym (append-nil m.merged))
merge_existing-IsIndexed m (x ∷ existing) h d (f, fs) =
    elim (Bool-cases (valid_http_status x.status)) [
      | inl e ↦
          let (indexed, same) =
            merge_existing-IsIndexed (push m x) existing (push-IsIndexed m x h f) (ground arith)
              (IsFresh-push existing m.merged x (ground arith) fs) in
          let step = ap (λ b. merge_existing (if b then push m x else m) existing) e in
          (
            subst IsIndexed (sym step) indexed,
            ap (λ (r : Merging). r.merged) step
                ∙ same
                ∙ append_assoc m.merged (x ∷ []) kept
                ∙ ap (λ b. m.merged ++ (if b then x ∷ kept else kept)) (sym e),
          )
      | inr e ↦
          let (indexed, same) = merge_existing-IsIndexed m existing h (ground arith) fs in
          let step = ap (λ b. merge_existing (if b then push m x else m) existing) e in
          (
            subst IsIndexed (sym step) indexed,
            ap (λ (r : Merging). r.merged) step
                ∙ same
                ∙ ap (λ b. m.merged ++ (if b then x ∷ kept else kept)) (sym e),
          )
    ]
  where
    kept : List ResponseExample
    kept = keep (λ (y : ResponseExample). valid_http_status y.status) existing

IsFresh-nil : (xs : List ResponseExample) → IsFresh xs []
IsFresh-nil [] = tt
IsFresh-nil (x ∷ xs) = (refl, IsFresh-nil xs)

is_empty-put : (xs : List ResponseExample) (x : ResponseExample) → is_empty (put xs x) ≡ false
unfolding put
is_empty-put [] x = refl
is_empty-put (y ∷ xs) x = ground arith

is_empty-put_all :
    (l incoming : List ResponseExample) → is_empty l ≡ false → is_empty (put_all l incoming) ≡ false
unfolding put_all
is_empty-put_all l [] h = h
is_empty-put_all l (x ∷ incoming) h = is_empty-put_all (put l x) incoming (is_empty-put l x)

-- Nothing is left only where there was nothing to merge.
put_all-nil :
    (l incoming : List ResponseExample)
    → is_empty (put_all l incoming) ≡ true
    → incoming ≡ put_all l incoming
unfolding put_all
put_all-nil [] [] h = refl
put_all-nil (x ∷ l) [] h = cc
put_all-nil l (x ∷ incoming) h = cc (is_empty-put_all (put l x) incoming (is_empty-put l x))

-- If no two existing examples share a status, which the index of their table says, merging gives
-- the valid existing examples in their order, each incoming one put in the place of the one with
-- its status or else at the end.
pub merge_response_examples_lem :
    (existing incoming : List ResponseExample)
    → distinct (statuses existing) ≡ true
    → merge_response_examples existing incoming
      ≡ put_all (keep (λ x. valid_http_status x.status) existing) incoming
unfolding merge_response_examples
merge_response_examples_lem existing incoming d = elim (Bool-cases (is_empty merged)) [
  | inl e ↦ rw e (put_all-nil _ incoming (ap is_empty (sym same) ∙ e))
  | inr e ↦ rw e same
]
  where
    start : Merging
    start = record { merged = []; status_index = λ status. none }

    merged : List ResponseExample
    merged = (merge_incoming (merge_existing start existing) incoming).merged

    first :
        IsIndexed (merge_existing start existing)
        × ((merge_existing start existing).merged
            ≡ keep (λ (x : ResponseExample). valid_http_status x.status) existing)
    first =
        merge_existing-IsIndexed start existing
          (record { indexed = λ s. unfold position in refl; distinct_statuses = refl }) d
          (IsFresh-nil existing)

    same : merged ≡ put_all (keep (λ x. valid_http_status x.status) existing) incoming
    same =
        merge_incoming-merged (merge_existing start existing) incoming first.0
        ∙ ap (λ l. put_all l incoming) first.1
