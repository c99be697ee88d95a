-- ===== src/MockApi/Directory/Unique.antt =====
-- What `uniqueTrimmed` keeps.
use tunnelgate.Prelude.{
  refl, ◌≡◌, ◌∙◌, ◌&&◌, ◌||◌, ◌∷◌, ◌==◌, inl, inr, Bool, true, not, List, [], arith, if-elim,
  Bool-cases, is_empty, any, ℕ_eq, eq_refl, eq_of_true, elem, distinct,
}
use tunnelgate.Text.{Text, text_eq, trim_space}
use tunnelgate.MockApi.Directory.{trim_into, unique_trimmed}

-- Some value trims to the text.
abbrev pub comes_from : Text → List Text → Bool
comes_from s values = any (λ value. trim_space value == s) values

elem-trim_into :
    (s : Text) (seen values : List Text)
    → elem s (trim_into seen values)
      ≡ (not (is_empty s) && not (elem s seen) && comes_from s values)
unfolding trim_into
elem-trim_into s seen [] = ground arith
elem-trim_into s seen (value ∷ values) = elim (Bool-cases (trim_space value == s)) [
  | inl e ↦
      let same = eq_of_true (trim_space value) s e in
      rw (same, eq_refl s)
        (if-elim (λ l. elem s l ≡ (not (is_empty s) && not (elem s seen) && true))
          (is_empty s || elem s seen) _ _ (λ k. ground (arith, elem-trim_into s seen values))
          (λ k. ground (arith, eq_refl s)))
  | inr e ↦
      if-elim
        (λ l. elem s l ≡ (
          not (is_empty s) && not (elem s seen) && (trim_space value == s || comes_from s values)))
        (is_empty (trim_space value) || elem (trim_space value) seen) _ _
        (λ k. rw e (elem-trim_into s seen values))
        (λ k. rw e (elem-trim_into s (trim_space value ∷ seen) values ∙ rw e refl))
]

distinct-trim_into : (seen values : List Text) → distinct (trim_into seen values) ≡ true
unfolding trim_into
distinct-trim_into seen [] = refl
distinct-trim_into seen (value ∷ values) =
    if-elim (λ (l : List Text). distinct l ≡ true)
      (is_empty (trim_space value) || elem (trim_space value) seen) _ _
      (λ _. distinct-trim_into seen values)
      (λ _. ground (
        arith,
        distinct-trim_into (trim_space value ∷ seen) values,
        elem-trim_into (trim_space value) (trim_space value ∷ seen) values,
        eq_refl (trim_space value),
      ))

-- `uniqueTrimmed` gives no text twice, and just the non-empty texts that some value trims to.
pub unique_trimmed_lem :
    (values : List Text)
    → (distinct (unique_trimmed values) ≡ true)
      × ((s : Text) → elem s (unique_trimmed values) ≡ (not (is_empty s) && comes_from s values))
unfolding unique_trimmed
unique_trimmed_lem values =
    (distinct-trim_into [] values, λ s. ground (arith, elem-trim_into s [] values))
