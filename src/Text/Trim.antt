-- ===== src/Text/Trim.antt =====
-- What `trim_space` cuts, and that cutting twice changes nothing.
use mathlib.Core.List.{reverse, reverse-append, reverse-reverse}
use mathlib.Core.Path.{subst}
use tunnelgate.Prelude.{
  ℕ, zero, suc, true, false, none, List, [], ◌∷◌, ◌++◌, ◌≡◌, refl, sym, ap, ◌∙◌, ◌⊎◌, inl, inr,
  arith, find, Option-cases, elem, elem-append, ℕ_eq, map, ◌-◌, length, ◌≤◌, ◌&&◌, Bool, not,
  Option, some, nat_eq_iff, if-elim, is_empty, all,
}
use tunnelgate.Text.{Text, has_prefix, spaces, cut_front, cut_back, trim_space, text_eq}

-- `cut_front` leaves a suffix.
cut_front_suffix :
    (seqs : List Text) (skip : ℕ) (s : Text) → (pre : Text) × (s ≡ pre ++ cut_front seqs skip s)
unfolding cut_front
cut_front_suffix seqs skip [] = ([], refl)
cut_front_suffix seqs zero (c ∷ s) = elim (Option-cases (find (has_prefix (c ∷ s)) seqs)) [
  | inl e ↦ ([], rw (e, cut_front))
  | inr (seq, e) ↦
      let (pre, h) = cut_front_suffix seqs (length seq - 1) s in
      (c ∷ pre, rw (e, cut_front) (ap (λ t. c ∷ t) h))
]
cut_front_suffix seqs (suc skip) (c ∷ s) =
    let (pre, h) = cut_front_suffix seqs skip s in (c ∷ pre, ap (λ t. c ∷ t) h)

-- `cut_back` leaves a prefix.
cut_back_prefix : (seqs : List Text) (s : Text) → (post : Text) × (s ≡ cut_back seqs s ++ post)
unfolding cut_back
cut_back_prefix seqs s =
    let (pre, h) = cut_front_suffix (map reverse seqs) 0 (reverse s) in
    (reverse pre, sym (reverse-reverse s) ∙ ap reverse h ∙ reverse-append pre _)

-- What is left stands in the text as it is.
pub trim_space_infix :
    (s : Text) → (pre : Text) × (post : Text) × (s ≡ pre ++ (trim_space s ++ post))
unfolding trim_space
trim_space_infix s =
    let (pre, h) = cut_front_suffix spaces 0 s in
    let (post, k) = cut_back_prefix spaces (cut_front spaces 0 s) in
    (pre, post, h ∙ ap (λ t. pre ++ t) k)

-- So a byte that a text does not hold is not in the trimmed text.
pub elem-trim_space : (c : ℕ) (s : Text) → elem c s ≡ false → elem c (trim_space s) ≡ false
elem-trim_space c s h =
    let (pre, post, e) = trim_space_infix s in
    let k : elem c (pre ++ (trim_space s ++ post)) ≡ false = rw (← e) h in
    ground (arith, k, elem-append c pre (trim_space s ++ post), elem-append c (trim_space s) post)

-- A text that no sequence begins.
abbrev IsCut : List Text → Text → Type 0
IsCut seqs s = (s ≡ []) ⊎ (find (has_prefix s) seqs ≡ none)

cut_front-IsCut : (seqs : List Text) (skip : ℕ) (s : Text) → IsCut seqs (cut_front seqs skip s)
unfolding cut_front
cut_front-IsCut seqs skip [] = inl refl
cut_front-IsCut seqs zero (c ∷ s) = elim (Option-cases (find (has_prefix (c ∷ s)) seqs)) [
  | inl e ↦ rw (e, cut_front) (inr e)
  | inr (seq, e) ↦ rw (e, cut_front) (cut_front-IsCut seqs (length seq - 1) s)
]
cut_front-IsCut seqs (suc skip) (c ∷ s) = cut_front-IsCut seqs skip s

cut_front_of_IsCut : (seqs : List Text) (s : Text) → IsCut seqs s → cut_front seqs 0 s ≡ s
unfolding cut_front
cut_front_of_IsCut seqs [] h = refl
cut_front_of_IsCut seqs (c ∷ s) (inl e) = cc
cut_front_of_IsCut seqs (c ∷ s) (inr e) = rw (e, cut_front)

has_prefix-append : (s t p : Text) → has_prefix s p ≡ true → has_prefix (s ++ t) p ≡ true
has_prefix-append s t [] h = ground arith
has_prefix-append [] t (q ∷ p) h = cc
has_prefix-append (c ∷ s) t (q ∷ p) h = ground (arith, has_prefix-append s t p)

find-append :
    (seqs : List Text) (s t : Text)
    → find (has_prefix (s ++ t)) seqs ≡ none
    → find (has_prefix s) seqs ≡ none
find-append [] s t h = refl
find-append (p ∷ seqs) s t h = ground (arith, has_prefix-append s t p, find-append seqs s t)

IsCut-append : (seqs : List Text) (s t : Text) → IsCut seqs (s ++ t) → IsCut seqs s
IsCut-append seqs [] t h = inl refl
IsCut-append seqs (c ∷ s) t (inl e) = cc
IsCut-append seqs (c ∷ s) t (inr e) = inr (find-append seqs (c ∷ s) t e)

-- What is cut at the back of a text that is cut at the front stays cut at the front.
cut_back-IsCut : (seqs : List Text) (s : Text) → IsCut seqs s → IsCut seqs (cut_back seqs s)
cut_back-IsCut seqs s h =
    let (post, e) = cut_back_prefix seqs s in
    IsCut-append seqs (cut_back seqs s) post (subst (IsCut seqs) e h)

cut_back_again : (seqs : List Text) (s : Text) → cut_back seqs (cut_back seqs s) ≡ cut_back seqs s
unfolding cut_back
cut_back_again seqs s = ap reverse (
    ap (cut_front (map reverse seqs) 0) (reverse-reverse _)
    ∙ cut_front_of_IsCut (map reverse seqs) _ (cut_front-IsCut (map reverse seqs) 0 (reverse s)))

-- Trimming a second time changes nothing.
pub trim_space_idempotent : (s : Text) → trim_space (trim_space s) ≡ trim_space s
unfolding trim_space
trim_space_idempotent s =
    let cut = cut_front spaces 0 s in
    ap (cut_back spaces) (
      cut_front_of_IsCut spaces (cut_back spaces cut)
        (cut_back-IsCut spaces cut (cut_front-IsCut spaces 0 s)))
    ∙ cut_back_again spaces cut

-- A text that begins with a slash still does so when it is trimmed, unless nothing is left.
begins_of_prefix :
    (c : ℕ) (s cut post : Text)
    → c ∷ s ≡ cut ++ post
    → (cut ≡ []) ⊎ ((rest : Text) × (cut ≡ c ∷ rest))
begins_of_prefix c s [] post e = inl refl
begins_of_prefix c s (d ∷ cut) post e = inr (cut, ap (λ h. h ∷ cut) (sym (head_injective e)))
  where
    head_injective : {x y : ℕ} {xs ys : Text} → x ∷ xs ≡ y ∷ ys → x ≡ y
    head_injective h = cc

pub trim_space-rooted :
    (s : Text)
    → (trim_space (b'/' ∷ s) ≡ []) ⊎ ((rest : Text) × (trim_space (b'/' ∷ s) ≡ b'/' ∷ rest))
unfolding trim_space cut_front spaces
trim_space-rooted s =
    let (post, e) = cut_back_prefix spaces (b'/' ∷ s) in begins_of_prefix b'/' s _ post e

-- A byte that no sequence holds is not cut.
abbrev is_spared : ℕ → Text → Bool
is_spared c q = not (is_empty q) && not (elem c q)

abbrev Found : (Text → Bool) → (Text → Bool) → Option Text → Type 0
Found p f none = Unit
Found p f (some q) = (p q ≡ true) × (f q ≡ true)

find-Found : (p f : Text → Bool) (seqs : List Text) → all p seqs ≡ true → Found p f (find f seqs)
find-Found p f [] h = tt
find-Found p f (q ∷ seqs) h =
    if-elim (Found p f) (f q) _ _ (λ e. (ground (arith, h), e))
      (λ _. find-Found p f seqs (ground (arith, h)))

has_prefix-length :
    (c : ℕ) (u q : Text)
    → elem c q ≡ false
    → has_prefix (u ++ c ∷ []) q ≡ true
    → length q ≤ length u
has_prefix-length c u [] h k = omega arith
has_prefix-length c [] (x ∷ q) h k = absurd (ground (arith, h, k, nat_eq_iff c x, nat_eq_iff x c))
has_prefix-length c (d ∷ u) (x ∷ q) h k =
    omega (arith, has_prefix-length c u q (ground (arith, h)) (ground (arith, k)))

spared_length : (c : ℕ) (q : Text) → is_spared c q ≡ true → 1 ≤ length q
spared_length c [] h = cc
spared_length c (x ∷ q) h = omega arith

cut_front-full :
    (c : ℕ) (seqs : List Text) (skip : ℕ) (t : Text)
    → all (is_spared c) seqs ≡ true
    → skip ≤ length t
    → is_empty (cut_front seqs skip (t ++ c ∷ [])) ≡ false
unfolding cut_front
cut_front-full c seqs zero [] h k = elim (Option-cases (find (has_prefix (c ∷ [])) seqs)) [
  | inl e ↦ rw (cut_front, e) refl
  | inr (seq, e) ↦
      let (spared, begins) =
        subst (Found (is_spared c) (has_prefix (c ∷ []))) e
          (find-Found (is_spared c) (has_prefix (c ∷ [])) seqs h) in
      absurd (
        omega (
          arith,
          has_prefix-length c [] seq (ground (arith, spared)) begins,
          spared_length c seq spared,
        ))
]
cut_front-full c seqs (suc skip) [] h k = absurd (omega (arith, k))
cut_front-full c seqs (suc skip) (d ∷ t) h k = cut_front-full c seqs skip t h (omega (arith, k))
cut_front-full c seqs zero (d ∷ t) h k =
    elim (Option-cases (find (has_prefix (d ∷ t ++ c ∷ [])) seqs)) [
      | inl e ↦ rw (cut_front, e) refl
      | inr (seq, e) ↦
          let (spared, begins) =
            subst (Found (is_spared c) (has_prefix (d ∷ t ++ c ∷ []))) e
              (find-Found (is_spared c) (has_prefix (d ∷ t ++ c ∷ [])) seqs h) in
          rw (cut_front, e)
            (cut_front-full c seqs (length seq - 1) t h
              (omega (arith, has_prefix-length c (d ∷ t) seq (ground (arith, spared)) begins)))
    ]

is_empty-append : (s : Text) (c : ℕ) → is_empty (s ++ c ∷ []) ≡ false
is_empty-append [] c = refl
is_empty-append (d ∷ s) c = refl

is_empty-reverse : (s : Text) → is_empty s ≡ false → is_empty (reverse s) ≡ false
is_empty-reverse [] h = h
is_empty-reverse (c ∷ s) h = ap is_empty (reverse-append (c ∷ []) s) ∙ is_empty-append (reverse s) c

-- Something is left of a text that begins with a slash.
pub trim_space-full : (s : Text) → is_empty (trim_space (b'/' ∷ s)) ≡ false
unfolding trim_space cut_front spaces cut_back
trim_space-full s = is_empty-reverse (cut_front (map reverse spaces) 0 (reverse (b'/' ∷ s))) (
    ap (λ t. is_empty (cut_front (map reverse spaces) 0 t)) (reverse-append (b'/' ∷ []) s)
    ∙ cut_front-full b'/' (map reverse spaces) 0 (reverse s) refl (omega arith))
