-- ===== src/OpenApi/Paths/Converted.antt =====
-- A route path that is exported and imported again:
-- backend/internal/features/api-specs/spec_transform.go.
use tunnelgate.Prelude.{
  refl, ◌+◌, ◌≡◌, ◌∙◌, ◌≢◌, ◌&&◌, ◌||◌, ◌∷◌, ◌++◌, ◌==◌, ℕ, suc, sym, ap, inl, inr, Bool, true,
  false, not, some, List, [], map, append_assoc, append-nil, arith, ltb, nat_eq_iff, if-elim,
  Bool-cases, and-eq-true, length, drop, is_empty, length-append, All, ℕ_eq, eq_of_true, elem,
}
use tunnelgate.Text.{Text, text_eq, trim_space, split, join}
use tunnelgate.Text.Split.{join-split, split-All, All-push_front, before_of_not_elem}
use tunnelgate.Text.Trim.{trim_space-full}
use tunnelgate.MockApi.Routes.{split_route_segments, is_wildcard}
use tunnelgate.OpenApi.Paths.{
  param_name, replace_params, slash, open_api_path_to_route_path, braced,
  route_path_to_open_api_path,
}

abbrev IsPlain : Text → Type 0
IsPlain w = (elem b'{' w ≡ false) × ((elem b'}' w ≡ false) × (elem b'/' w ≡ false))

-- Passing over a text.
replace_params-skip : (w t : Text) → replace_params (length w) (w ++ t) ≡ replace_params 0 t
replace_params-skip [] t = refl
replace_params-skip (c ∷ w) t = replace_params-skip w t

-- Without an opening brace nothing is replaced.
replace_params-plain :
    (w t : Text) → elem b'{' w ≡ false → replace_params 0 (w ++ t) ≡ w ++ replace_params 0 t
replace_params-plain [] t h = refl
replace_params-plain (c ∷ w) t h =
    let no_brace : (c == b'{') ≡ false = ground (arith, h) in
    rw no_brace (ap (λ u. c ∷ u) (replace_params-plain w t (ground (arith, h))))

param_name-append :
    (so_far : Bool) (w t : Text)
    → elem b'}' w ≡ false
    → elem b'/' w ≡ false
    → (so_far || not (is_empty w)) ≡ true
    → param_name so_far (w ++ b'}' ∷ t) ≡ some w
param_name-append so_far [] t h k full = ground (arith, full)
param_name-append so_far (c ∷ w) t h k full =
    let no_brace : (c == b'}') ≡ false = ground (arith, h) in
    let no_slash : (c == b'/') ≡ false = ground (arith, k) in
    let rest = param_name-append true w t (ground (arith, h)) (ground (arith, k)) refl in
    rw (no_brace, no_slash, rest) refl

-- What is put into braces is taken out again.
replace_params-name :
    (c : ℕ) (name t : Text)
    → IsPlain (c ∷ name)
    → replace_params 0 (b'{' ∷ (c ∷ name) ++ b'}' ∷ t) ≡ (b':' ∷ c ∷ name) ++ replace_params 0 t
replace_params-name c name t (_, (no_brace, no_slash)) =
    rw (param_name-append false (c ∷ name) t no_brace no_slash refl) (
      ap (λ u. (b':' ∷ c ∷ name) ++ u)
        (ap (λ k. replace_params k ((c ∷ name) ++ b'}' ∷ t)) {x = suc (length name) + 1}
            {y = length ((c ∷ name) ++ b'}' ∷ [])}
            (omega (arith, length-append (c ∷ name) (b'}' ∷ [])))
          ∙ ap (replace_params (length ((c ∷ name) ++ b'}' ∷ [])))
              (sym (append_assoc (c ∷ name) (b'}' ∷ []) t))
          ∙ replace_params-skip ((c ∷ name) ++ b'}' ∷ []) t))

replace_params-braced :
    (w t : Text) → IsPlain w → replace_params 0 (braced w ++ t) ≡ w ++ replace_params 0 t
replace_params-braced [] t plain = refl
replace_params-braced (d ∷ []) t plain =
    if-elim (λ (s : Text). replace_params 0 (s ++ t) ≡ d ∷ replace_params 0 t)
      (is_wildcard (d ∷ []) && ltb 1 1) _ _ (λ e. absurd (ground (arith, e)))
      (λ _. replace_params-plain (d ∷ []) t plain.0)
replace_params-braced (d ∷ c ∷ name) t (no_open, (no_close, no_slash)) =
    if-elim (λ (s : Text). replace_params 0 (s ++ t) ≡ (d ∷ c ∷ name) ++ replace_params 0 t)
      (is_wildcard (d ∷ c ∷ name) && ltb 1 (length (d ∷ c ∷ name))) _ _
      (λ e.
        let colon : b':' ≡ d = sym ((nat_eq_iff d b':').0 (ground (arith, e))) in
        ap (λ u. replace_params 0 (b'{' ∷ u)) (append_assoc (c ∷ name) (b'}' ∷ []) t)
        ∙ replace_params-name c name t
            (ground (arith, no_open), (ground (arith, no_close), ground (arith, no_slash)))
        ∙ ap (λ x. x ∷ (c ∷ name) ++ replace_params 0 t) colon)
      (λ _. replace_params-plain (d ∷ c ∷ name) t no_open)

-- A byte that a text does not hold is in no part of it.
elem-split : (c d : ℕ) (s : Text) → elem c s ≡ false → All (λ w. elem c w ≡ false) (split s d)
elem-split c d [] h = (refl, tt)
elem-split c d (x ∷ s) h = elim (Bool-cases (x == d)) [
  | inl e ↦ rw e (refl, elem-split c d s (ground (arith, h)))
  | inr e ↦
      rw e
        (All-push_front x c (split s d) (ground (arith, h)) (elem-split c d s (ground (arith, h))))
]

All-and {ℓ κ μ} :
    {A : Type ℓ} (P : A → Type κ) (Q : A → Type μ) (xs : List A)
    → All P xs
    → All Q xs
    → All (λ x. P x × Q x) xs
All-and P Q [] h k = tt
All-and P Q (x ∷ xs) (p, h) (q, k) = ((p, q), All-and P Q xs h k)

All-IsPlain : (s : Text) → elem b'{' s ≡ false → elem b'}' s ≡ false → All IsPlain (split s b'/')
All-IsPlain s h k =
    All-and (λ w. elem b'{' w ≡ false) (λ w. (elem b'}' w ≡ false) × (elem b'/' w ≡ false))
      (split s b'/') (elem-split b'{' b'/' s h)
      (All-and (λ w. elem b'}' w ≡ false) (λ w. elem b'/' w ≡ false) (split s b'/')
        (elem-split b'}' b'/' s k) (split-All s b'/'))

replace_params-join :
    (ws : List Text)
    → All IsPlain ws
    → replace_params 0 (join (map braced ws) slash) ≡ join ws slash
replace_params-join [] h = refl
replace_params-join (w ∷ []) (h, _) =
    ap (replace_params 0) (sym (append-nil (braced w)))
    ∙ replace_params-braced w [] h
    ∙ append-nil w
replace_params-join (w ∷ v ∷ ws) (h, k) =
    ap (replace_params 0) (append_assoc (braced w) slash (join (map braced (v ∷ ws)) slash))
    ∙ replace_params-braced w (b'/' ∷ join (map braced (v ∷ ws)) slash) h
    ∙ ap (λ u. w ++ b'/' ∷ u) (replace_params-join (v ∷ ws) k)
    ∙ sym (append_assoc w slash (join (v ∷ ws) slash))

not_nil : (c : ℕ) (s : Text) → c ∷ s ≢ []
not_nil c s e = cc

-- A route path that begins with a slash and has no braces and no query is left as it is when it is
-- turned into a path of OpenAPI and back.
pub open_api_path_to_route_path-route_path_to_open_api_path :
    (path : Text)
    → elem b'{' path ≡ false
    → elem b'}' path ≡ false
    → elem b'?' path ≡ false
    → open_api_path_to_route_path (route_path_to_open_api_path (b'/' ∷ path)) ≡ b'/' ∷ path
unfolding open_api_path_to_route_path route_path_to_open_api_path split_route_segments trim_space
open_api_path_to_route_path-route_path_to_open_api_path [] h k q = refl
open_api_path_to_route_path-route_path_to_open_api_path (c ∷ s) h k q =
    let path = c ∷ s in
    let joined = join (map braced (split path b'/')) slash in
    let back : replace_params 0 joined ≡ path =
      replace_params-join (split path b'/') (All-IsPlain path h k) ∙ join-split path b'/' in
    rw (before_of_not_elem path b'?' q) (
      if-elim (λ (t : Text). open_api_path_to_route_path t ≡ b'/' ∷ path)
        (b'/' ∷ joined == slash && not (b'/' ∷ path == slash)) _ _
        (λ e.
          let (same, _) = and-eq-true (b'/' ∷ joined == slash) (not (b'/' ∷ path == slash)) e in
          let gone : joined ≡ [] = ap (drop 1) (eq_of_true (b'/' ∷ joined) slash same) in
          absurd (not_nil c s (sym back ∙ ap (replace_params 0) gone)))
        (λ _. rw (open_api_path_to_route_path, back, trim_space-full path) refl))
