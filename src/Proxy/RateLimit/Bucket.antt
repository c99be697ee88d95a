-- ===== src/Proxy/RateLimit/Bucket.antt =====
-- What one request does to the bucket of its own key, and to any other.
use tunnelgate.Prelude.{
  ℕ, ◌+◌, ◌<◌, Bool, true, false, Option, some, ◌≡◌, refl, arith, ◌⊎◌, inl, inr, if◌then◌else◌,
  ◌==◌, ℕ_eq, ℤ, is_nonpositive, int_leb, Bool-cases, eq_refl,
}
use tunnelgate.Text.{Text, text_eq}
use tunnelgate.Proxy.RateLimit.{RateLimitBucket, Buckets, or_zero, survive, is_over, allow}

-- A request, seen from its own bucket.
abbrev pub bucket_step : ℤ → ℕ → ℕ → Option RateLimitBucket → Option RateLimitBucket × Bool
bucket_step limit window now b =
    if is_nonpositive limit
    then (b, true)
    else if is_over (or_zero b) now window
    then (some (record { window_start = now; count = 1 }), true)
    else if int_leb limit (or_zero b).count
    then (b, false)
    else (some (record (or_zero b) { count = (or_zero b).count + 1 }), true)

survive_new :
    (now window count : ℕ)
    → 0 < window
    → survive now window (some (record { window_start = now; count = count }))
      ≡ some (record { window_start = now; count = count })
survive_new now window count h = ground arith

module _ (buckets : Buckets) (limit : ℤ) (window now : ℕ) where
  pub allow_self :
      (key : Text)
      → 0 < window
      → ((allow buckets key limit window now).0 key
          ≡ (bucket_step limit window now (buckets key)).0)
        × ((allow buckets key limit window now).1 ≡ (bucket_step limit window now (buckets key)).1)
  unfolding allow
  allow_self key h = elim (Bool-cases (is_nonpositive limit)) [
    | inl e ↦ rw e (refl, refl)
    | inr e ↦ elim (Bool-cases (is_over (or_zero (buckets key)) now window)) [
      | inl o ↦ rw (e, o, eq_refl key) (survive_new now window 1 h, refl)
      | inr o ↦ elim (Bool-cases (int_leb limit (or_zero (buckets key)).count)) [
        | inl d ↦ rw (e, o, d) (refl, refl)
        | inr d ↦ rw (e, o, d, eq_refl key) (refl, refl)
      ]
    ]
  ]

  -- Any other bucket stays, or is pruned.
  pub allow_other :
      (key k : Text)
      → (key == k) ≡ false
      → ((allow buckets key limit window now).0 k ≡ buckets k)
        ⊎ ((allow buckets key limit window now).0 k ≡ survive now window (buckets k))
  unfolding allow
  allow_other key k ne = elim (Bool-cases (is_nonpositive limit)) [
    | inl e ↦ rw e (inl refl)
    | inr e ↦ elim (Bool-cases (is_over (or_zero (buckets key)) now window)) [
      | inl o ↦ rw (e, o, ne) (inr refl)
      | inr o ↦ elim (Bool-cases (int_leb limit (or_zero (buckets key)).count)) [
        | inl d ↦ rw (e, o, d) (inl refl)
        | inr d ↦ rw (e, o, d, ne) (inl refl)
      ]
    ]
  ]
