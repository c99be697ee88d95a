-- ===== src/Proxy/Security/Limits.antt =====
-- When the security checks let a request through.
use tunnelgate.Prelude.{
  refl, ◌≡◌, ◌↔◌, ◌⊎◌, ◌&&◌, ◌∷◌, ◌==◌, ℕ, inl, inr, Bool, true, false, none, List, [], arith,
  Bool-cases, ℕ_eq, eq_refl, eq_of_true, elem, is_nonpositive,
}
use tunnelgate.Text.{Text, text_eq}
use tunnelgate.Proxy.Config.{PublicProxySecurity}
use tunnelgate.Proxy.RateLimit.{Buckets, allow}
use tunnelgate.Proxy.Security.{
  Request, minute, limiter_key, xss_patterns, sql_injection_patterns, contains_any_pattern,
  security_inspection_values, filter_reason, security_block_reason, limited, matches_any,
}

module _ (matches : Text → Text → Bool) where
  -- The request is not limited, or the limiter lets it pass.
  abbrev pub IsWithinLimit : Buckets → ℕ → PublicProxySecurity → Request → Type 0
  IsWithinLimit limiter now config req =
      (config.rate_limit ≡ false)
      ⊎ ((is_nonpositive config.rate_limit_per_minute ≡ true)
          ⊎ ((allow limiter (limiter_key req) config.rate_limit_per_minute minute now).1 ≡ true))

  -- A filter is off, or no inspected value matches one of its patterns.
  abbrev pub Passes : Bool → List Text → Request → Type 0
  Passes filter patterns req =
      (filter ≡ false)
      ⊎ ((value pattern : Text)
          → elem value (security_inspection_values req) ≡ true
          → elem pattern patterns ≡ true
          → matches pattern value ≡ false)

  matches_any_none :
      (patterns : List Text) (value : Text)
      → matches_any matches patterns value ≡ false
      → (pattern : Text) → elem pattern patterns ≡ true
      → matches pattern value ≡ false
  unfolding matches_any
  matches_any_none [] value h pattern e = cc
  matches_any_none (p ∷ patterns) value h pattern e = elim (Bool-cases (p == pattern)) [
    | inl k ↦ rw (← eq_of_true p pattern k) (ground arith)
    | inr k ↦ matches_any_none patterns value (ground arith) pattern (rw k at e)
  ]

  none-matches_any :
      (patterns : List Text) (value : Text)
      → ((pattern : Text) → elem pattern patterns ≡ true → matches pattern value ≡ false)
      → matches_any matches patterns value ≡ false
  unfolding matches_any
  none-matches_any [] value h = refl
  none-matches_any (p ∷ patterns) value h =
      rw (h p (rw (eq_refl p) refl)) (none-matches_any patterns value (λ q e. h q (ground arith)))

  contains_none :
      (values patterns : List Text)
      → contains_any_pattern matches values patterns ≡ false
      → (value pattern : Text) → elem value values ≡ true
      → elem pattern patterns ≡ true
      → matches pattern value ≡ false
  unfolding contains_any_pattern
  contains_none [] patterns h value pattern e f = cc
  contains_none (v ∷ values) patterns h value pattern e f = elim (Bool-cases (v == value)) [
    | inl k ↦ rw (← eq_of_true v value k) (matches_any_none patterns v (ground arith) pattern f)
    | inr k ↦ contains_none values patterns (ground arith) value pattern (rw k at e) f
  ]

  none-contains :
      (values patterns : List Text)
      → ((value pattern : Text)
          → elem value values ≡ true
          → elem pattern patterns ≡ true
          → matches pattern value ≡ false)
      → contains_any_pattern matches values patterns ≡ false
  unfolding contains_any_pattern
  none-contains [] patterns h = refl
  none-contains (v ∷ values) patterns h =
      rw (none-matches_any patterns v (λ p f. h v p (rw (eq_refl v) refl) f))
        (none-contains values patterns (λ w p e f. h w p (ground arith) f))

  Passes-iff :
      (filter : Bool) (patterns : List Text) (req : Request)
      → ((filter && contains_any_pattern matches (security_inspection_values req) patterns) ≡ false)
        ↔ Passes filter patterns req
  Passes-iff false patterns req = (λ _. inl refl, λ _. refl)
  Passes-iff true patterns req = (
    λ h. inr (contains_none _ patterns h),
    elim [ inl h ↦ ground arith | inr h ↦ none-contains _ patterns h ],
  )

  filter_reason_iff :
      (config : PublicProxySecurity) (req : Request)
      → (filter_reason matches config req ≡ none) ↔ (
          Passes config.xss xss_patterns req
          × Passes config.sql_injection sql_injection_patterns req)
  unfolding filter_reason
  filter_reason_iff config req = (
    λ h. (
      (Passes-iff config.xss xss_patterns req).0 (ground arith),
      (Passes-iff config.sql_injection sql_injection_patterns req).0 (ground arith),
    ),
    λ (a, b).
        rw
          (
            (Passes-iff config.xss xss_patterns req).1 a,
            (Passes-iff config.sql_injection sql_injection_patterns req).1 b,
          )
          refl,
  )

  -- The security checks let a request through exactly when they are off, or the request is within
  -- the rate limit and passes each filter that is on: none of the inspected texts matches one of
  -- its patterns.
  pub security_block_reason_iff :
      (limiter : Buckets) (now : ℕ) (config : PublicProxySecurity) (req : Request)
      → ((security_block_reason matches limiter now config req).1 ≡ none) ↔ (
          (config.enabled ≡ false)
          ⊎ (IsWithinLimit limiter now config req
              × Passes config.xss xss_patterns req
              × Passes config.sql_injection sql_injection_patterns req))
  unfolding security_block_reason limited
  security_block_reason_iff limiter now config req = ground (arith, filter_reason_iff config req)
