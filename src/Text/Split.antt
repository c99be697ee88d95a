-- ===== src/Text/Split.antt =====
-- Cutting a text at a byte: `before`, `trim_right`, `split` and `join`.
use tunnelgate.Prelude.{
  ℕ, true, false, List, [], ◌∷◌, ◌++◌, ◌≡◌, refl, sym, ap, ◌∙◌, ◌⊎◌, inl, inr, arith, elem, All,
  ◌==◌, ℕ_eq, Bool-cases, nat_eq_iff,
}
use tunnelgate.Text.{Text, before, trim_right, push_front, split, join, has_prefix, text_eq}

pub elem-before_self : (s : Text) (c : ℕ) → elem c (before s c) ≡ false
elem-before_self [] c = refl
elem-before_self (x ∷ s) c = ground (arith, elem-before_self s c)

-- What stands behind the byte is not looked at.
pub before-append : (s t : Text) (c : ℕ) → before (s ++ c ∷ t) c ≡ before s c
before-append [] t c = ground (arith, nat_eq_iff c c)
before-append (x ∷ s) t c = ground (arith, before-append s t c)

pub before_of_not_elem : (s : Text) (c : ℕ) → elem c s ≡ false → before s c ≡ s
before_of_not_elem [] c h = refl
before_of_not_elem (x ∷ s) c h = ground (arith, before_of_not_elem s c)

pub elem-trim_right :
    (d : ℕ) (s : Text) (c : ℕ) → elem d s ≡ false → elem d (trim_right s c) ≡ false
elem-trim_right d [] c h = refl
elem-trim_right d (x ∷ s) c h = ground (arith, elem-trim_right d s c)

pub trim_right_idempotent : (s : Text) (c : ℕ) → trim_right (trim_right s c) c ≡ trim_right s c
trim_right_idempotent [] c = refl
trim_right_idempotent (x ∷ s) c = ground (arith, trim_right_idempotent s c)

-- Trimming at the end keeps what the text begins with, if anything is left.
pub has_prefix-trim_right :
    (s : Text) (c d : ℕ)
    → has_prefix s (d ∷ []) ≡ true
    → (trim_right s c ≡ []) ⊎ (has_prefix (trim_right s c) (d ∷ []) ≡ true)
has_prefix-trim_right [] c d h = cc
has_prefix-trim_right (x ∷ s) c d h = ground arith

-- Joining the parts gives the text back.
join-push_front :
    (x : ℕ) (ws : List Text) (sep : Text) → join (push_front x ws) sep ≡ x ∷ join ws sep
join-push_front x [] sep = refl
join-push_front x (w ∷ []) sep = refl
join-push_front x (w ∷ v ∷ ws) sep = refl

push_front-cons :
    (x : ℕ) (ws : List Text) → (v : Text) × (vs : List Text) × (push_front x ws ≡ v ∷ vs)
push_front-cons x [] = (x ∷ [], [], refl)
push_front-cons x (w ∷ ws) = (x ∷ w, ws, refl)

split-cons : (s : Text) (c : ℕ) → (w : Text) × (ws : List Text) × (split s c ≡ w ∷ ws)
split-cons [] c = ([], [], refl)
split-cons (x ∷ s) c = elim (Bool-cases (x == c)) [
  | inl e ↦ ([], split s c, rw e)
  | inr e ↦ let (v, vs, k) = push_front-cons x (split s c) in (v, vs, rw e k)
]

join-nil_cons : (s : Text) (c : ℕ) → join ([] ∷ split s c) (c ∷ []) ≡ c ∷ join (split s c) (c ∷ [])
join-nil_cons s c = let (w, ws, e) = split-cons s c in rw e

pub join-split : (s : Text) (c : ℕ) → join (split s c) (c ∷ []) ≡ s
join-split [] c = refl
join-split (x ∷ s) c = elim (Bool-cases (x == c)) [
  | inl e ↦ rw e (
      join-nil_cons s c
      ∙ ap (λ t. c ∷ t) (join-split s c)
      ∙ ap (λ y. y ∷ s) (sym ((nat_eq_iff x c).0 e)))
  | inr e ↦ rw e (join-push_front x (split s c) (c ∷ []) ∙ ap (λ t. x ∷ t) (join-split s c))
]

pub All-push_front :
    (x : ℕ) (c : ℕ) (ws : List Text)
    → (x == c) ≡ false
    → All (λ w. elem c w ≡ false) ws
    → All (λ w. elem c w ≡ false) (push_front x ws)
All-push_front x c [] e h = ground arith
All-push_front x c (w ∷ ws) e h = (ground arith, h.1)

-- No part holds the separator.
pub split-All : (s : Text) (c : ℕ) → All (λ w. elem c w ≡ false) (split s c)
split-All [] c = (refl, tt)
split-All (x ∷ s) c = elim (Bool-cases (x == c)) [
  | inl e ↦ rw e (refl, split-All s c)
  | inr e ↦ rw e (All-push_front x c (split s c) e (split-All s c))
]
