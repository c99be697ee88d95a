-- ===== src/Text/Sort.antt =====
-- The byte order of Go strings, and `sort.Strings`: the sorted list is one whatever the algorithm.
use tunnelgate.Prelude.{
  Bool, true, false, ◌||◌, ◌&&◌, List, [], ◌∷◌, ◌≡◌, refl, arith, elem, ◌==◌, ℕ_eq, ltb,
  if◌then◌else◌, length, suc, all, inl, inr, Bool-cases, ap, ◌∙◌,
}
use tunnelgate.Text.{Text, text_eq}

-- `s <= t`
unfoldable pub text_leb : Text → Text → Bool
text_leb [] t = true
text_leb (x ∷ s) [] = false
text_leb (x ∷ s) (y ∷ t) = ltb x y || (x == y && text_leb s t)

pub text_leb_total : (s t : Text) → text_leb s t ≡ false → text_leb t s ≡ true
unfolding text_leb
text_leb_total [] t h = cc
text_leb_total (x ∷ s) [] h = refl
text_leb_total (x ∷ s) (y ∷ t) h = ground (arith, text_leb_total s t)

pub text_leb_trans :
    (s t u : Text) → text_leb s t ≡ true → text_leb t u ≡ true → text_leb s u ≡ true
unfolding text_leb
text_leb_trans [] t u h k = refl
text_leb_trans (x ∷ s) [] u h k = cc
text_leb_trans (x ∷ s) (y ∷ t) [] h k = cc
text_leb_trans (x ∷ s) (y ∷ t) (z ∷ u) h k = ground (arith, text_leb_trans s t u)

insert : Text → List Text → List Text
insert s [] = s ∷ []
insert s (t ∷ ts) = if text_leb s t then s ∷ t ∷ ts else t ∷ insert s ts

unfoldable pub sort : List Text → List Text
unfolding insert text_leb
sort [] = []
sort (s ∷ ts) = insert s (sort ts)

elem-insert : (k s : Text) (ts : List Text) → elem k (insert s ts) ≡ (s == k || elem k ts)
unfolding insert
elem-insert k s [] = refl
elem-insert k s (t ∷ ts) = elim (Bool-cases (text_leb s t)) [
  | inl e ↦ rw e
  | inr e ↦ rw e (ground (arith, elem-insert k s ts))
]

pub elem-sort : (k : Text) (ts : List Text) → elem k (sort ts) ≡ elem k ts
unfolding sort
elem-sort k [] = refl
elem-sort k (s ∷ ts) = elem-insert k s (sort ts) ∙ ap (λ b. s == k || b) (elem-sort k ts)

length-insert : (s : Text) (ts : List Text) → length (insert s ts) ≡ suc (length ts)
unfolding insert
length-insert s [] = refl
length-insert s (t ∷ ts) = ground (arith, length-insert s ts)

pub length-sort : (ts : List Text) → length (sort ts) ≡ length ts
unfolding sort
length-sort [] = refl
length-sort (s ∷ ts) = length-insert s (sort ts) ∙ ap suc (length-sort ts)

-- Every text is at most each later one.
abbrev pub is_sorted : List Text → Bool
is_sorted [] = true
is_sorted (s ∷ ts) = all (text_leb s) ts && is_sorted ts

all-leb-insert :
    (r s : Text) (ts : List Text)
    → text_leb r s ≡ true
    → all (text_leb r) ts ≡ true
    → all (text_leb r) (insert s ts) ≡ true
unfolding insert
all-leb-insert r s [] h k = ground arith
all-leb-insert r s (t ∷ ts) h k = ground (arith, all-leb-insert r s ts)

all-leb_trans :
    (r s : Text) (ts : List Text)
    → text_leb r s ≡ true
    → all (text_leb s) ts ≡ true
    → all (text_leb r) ts ≡ true
all-leb_trans r s [] h k = refl
all-leb_trans r s (t ∷ ts) h k = ground (arith, text_leb_trans r s t, all-leb_trans r s ts)

insert-is_sorted :
    (s : Text) (ts : List Text) → is_sorted ts ≡ true → is_sorted (insert s ts) ≡ true
unfolding insert
insert-is_sorted s [] h = refl
insert-is_sorted s (t ∷ ts) h =
    ground (
      arith,
      insert-is_sorted s ts,
      all-leb_trans s t ts,
      all-leb-insert t s ts,
      text_leb_total s t,
    )

pub sort-is_sorted : (ts : List Text) → is_sorted (sort ts) ≡ true
unfolding sort
sort-is_sorted [] = refl
sort-is_sorted (s ∷ ts) = insert-is_sorted s (sort ts) (sort-is_sorted ts)
