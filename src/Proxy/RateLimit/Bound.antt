-- ===== src/Proxy/RateLimit/Bound.antt =====
-- How much the limiter lets through.
use tunnelgate.Prelude.{
  ℕ, ◌+◌, ◌-◌, ◌*◌, ◌≤◌, ◌<◌, ◌&&◌, Option, none, some, List, [], ◌∷◌, ◌≡◌, arith, inl, inr,
  if◌then◌else◌, leb, ◌==◌, ℕ_eq, pos, All, Bool-cases,
}
use tunnelgate.Proxy.RateLimit.Bucket.{bucket_step, allow_self, allow_other}
use tunnelgate.Text.{Text, text_eq, text_eq_iff}
use tunnelgate.Proxy.RateLimit.{RateLimitBucket, Buckets, survive, allow, Call, allowed_count}

-- How many requests a bucket can still let through in the time from `from` on, of one window's
-- length: what is left of its own window, and a whole new one unless its own began in that time.
abbrev slack : ℕ → ℕ → Option RateLimitBucket → ℕ
slack limit from none = limit
slack limit from (some b) =
    if leb from b.window_start then limit - b.count else limit - b.count + limit

slack-le : (limit from : ℕ) (b : Option RateLimitBucket) → slack limit from b ≤ 2 * limit
slack-le limit from none = omega arith
slack-le limit from (some b) = ground arith

-- A time of the span.
abbrev pub IsWithin : ℕ → ℕ → Call → Type 0
IsWithin from window call = (from ≤ call.now) × (call.now < from + window)

slack-survive :
    (limit from window now : ℕ) (b : Option RateLimitBucket)
    → from ≤ now
    → now < from + window
    → slack limit from (survive now window b) ≤ slack limit from b
slack-survive limit from window now none g h = omega arith
slack-survive limit from window now (some b) g h = ground arith

module _ (limit from window : ℕ) (h : 0 < limit) (hf : 0 < from) where
  bucket_step-slack :
      (now : ℕ) (b : Option RateLimitBucket)
      → from ≤ now
      → now < from + window
      → (if (bucket_step (pos limit) window now b).1 then 1 else 0)
          + slack limit from (bucket_step (pos limit) window now b).0
        ≤ slack limit from b
  bucket_step-slack now none g k = ground arith
  bucket_step-slack now (some b) g k = ground arith

  module _ (key : Text) where
    allow_self-slack :
        (buckets : Buckets) (k : Text) (now : ℕ)
        → from ≤ now
        → now < from + window
        → k ≡ key
        → (if (allow buckets k (pos limit) window now).1 then 1 else 0)
            + slack limit from ((allow buckets k (pos limit) window now).0 key)
          ≤ slack limit from (buckets key)
    allow_self-slack buckets k now g l e =
        let (state, answer) = allow_self buckets (pos limit) window now key (omega arith) in
        rw (e, state, answer) (bucket_step-slack now (buckets key) g l)

    allow-slack :
        (buckets : Buckets) (call : Call)
        → IsWithin from window call
        → (if (allow buckets call.key (pos limit) window call.now).1 && call.key == key
              then 1
              else 0)
            + slack limit from ((allow buckets call.key (pos limit) window call.now).0 key)
          ≤ slack limit from (buckets key)
    allow-slack buckets call (g, k) = elim (Bool-cases (call.key == key)) [
      | inl e ↦
          ground
            (arith, allow_self-slack buckets call.key call.now g k ((text_eq_iff call.key key).0 e))
      | inr e ↦ elim (allow_other buckets (pos limit) window call.now call.key key e) [
        | inl s ↦ rw (e, s) (ground arith)
        | inr s ↦
            rw (e, s) (ground (arith, slack-survive limit from window call.now (buckets key) g k))
      ]
    ]

    allowed_count-slack :
        (buckets : Buckets) (calls : List Call)
        → All (IsWithin from window) calls
        → allowed_count buckets (pos limit) window key calls ≤ slack limit from (buckets key)
    unfolding allowed_count
    allowed_count-slack buckets [] w = omega arith
    allowed_count-slack buckets (call ∷ calls) (w, ws) = omega (
      arith,
      allow-slack buckets call w,
      allowed_count-slack (allow buckets call.key (pos limit) window call.now).0 calls ws,
    )

-- In any time of one window's length at most twice the limit is let through under one key, whatever
-- the limiter has seen before and whatever other keys are asked for in between.
pub allowed_count-le :
    (buckets : Buckets) (limit from window : ℕ) (key : Text) (calls : List Call)
    → 0 < limit
    → 0 < from
    → All (IsWithin from window) calls
    → allowed_count buckets (pos limit) window key calls ≤ 2 * limit
allowed_count-le buckets limit from window key calls h hf w = omega (
  arith,
  allowed_count-slack limit from window h hf key buckets calls w,
  slack-le limit from (buckets key),
)

-- If the key's bucket began at the span's start and has counted `used` requests, at most what is
-- left of the limit is let through.
pub allowed_count-le_rest :
    (buckets : Buckets) (limit from window used : ℕ) (key : Text) (calls : List Call)
    → 0 < limit
    → 0 < from
    → buckets key ≡ some (record { window_start = from; count = used })
    → All (IsWithin from window) calls
    → allowed_count buckets (pos limit) window key calls ≤ limit - used
allowed_count-le_rest buckets limit from window used key calls h hf e w =
    let bound = allowed_count-slack limit from window h hf key buckets calls w in
    let start : slack limit from (buckets key) ≤ limit - used = rw e (ground arith) in omega arith
