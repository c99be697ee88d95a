-- ===== src/Proxy/RateLimit.antt =====
-- The rate limiter of the public proxy: `rateLimiter` of backend/internal/features/proxy/handler.go.
-- A time is a number of nanoseconds, 0 for the zero `time.Time`; a difference of times that would
-- be negative is 0, which is as far from a window of positive length. A map of buckets is a
-- function. The clock is an argument.
pub mod Bound
pub mod Bucket
pub mod Pruning
mod Tests
use tunnelgate.Prelude.{
  ℕ, ◌+◌, ◌-◌, ◌*◌, Bool, true, false, not, ◌&&◌, ◌||◌, Option, none, some, List, [], ◌∷◌,
  if◌then◌else◌, leb, ◌==◌, ℕ_eq, ℤ, is_nonpositive, int_leb,
}
use tunnelgate.Text.{Text, text_eq}

pub record RateLimitBucket : Type 0 where
  pub window_start : ℕ
  pub count : ℕ

abbrev pub Buckets : Type 0
Buckets = Text → Option RateLimitBucket

-- `newRateLimiter`
abbrev pub no_buckets : Buckets
no_buckets key = none

-- Reading a missing key gives the zero bucket.
abbrev pub or_zero : Option RateLimitBucket → RateLimitBucket
or_zero none = record { window_start = 0; count = 0 }
or_zero (some bucket) = bucket

abbrev pub store : Buckets → Text → RateLimitBucket → Buckets
store buckets key bucket k = if key == k then some bucket else buckets k

-- One bucket under `prune`.
abbrev pub survive : ℕ → ℕ → Option RateLimitBucket → Option RateLimitBucket
survive now window none = none
survive now window (some bucket) =
    if leb (2 * window) (now - bucket.window_start) then none else some bucket

pub prune : Buckets → ℕ → ℕ → Buckets
prune buckets now window key = survive now window (buckets key)

abbrev pub is_over : RateLimitBucket → ℕ → ℕ → Bool
is_over bucket now window = bucket.window_start == 0 || leb window (now - bucket.window_start)

-- `Allow` of a limiter that is there.
unfoldable pub allow : Buckets → Text → ℤ → ℕ → ℕ → Buckets × Bool
unfolding prune
allow buckets key limit window now =
    let bucket = or_zero (buckets key) in
    if is_nonpositive limit
    then (buckets, true)
    else if is_over bucket now window
    then (prune (store buckets key (record { window_start = now; count = 1 })) now window, true)
    else if int_leb limit bucket.count
    then (buckets, false)
    else (store buckets key (record bucket { count = bucket.count + 1 }), true)

-- `Allow` with its receiver, which may be nil.
pub allow_on : Option Buckets → Text → ℤ → ℕ → ℕ → Option Buckets × Bool
allow_on none key limit window now = (none, true)
allow_on (some buckets) key limit window now =
    let (buckets', allowed) = allow buckets key limit window now in (some buckets', allowed)

-- A request: its key, and the time at which it is looked at.
pub record Call : Type 0 where
  pub key : Text
  pub now : ℕ

-- The answers to a sequence of requests.
pub answers : Buckets → ℤ → ℕ → List Call → List Bool
answers buckets limit window [] = []
answers buckets limit window (call ∷ calls) =
    let (buckets', allowed) = allow buckets call.key limit window call.now in
    allowed ∷ answers buckets' limit window calls

-- How many requests under one key are let through.
unfoldable pub allowed_count : Buckets → ℤ → ℕ → Text → List Call → ℕ
allowed_count buckets limit window key [] = 0
allowed_count buckets limit window key (call ∷ calls) =
    let (buckets', allowed) = allow buckets call.key limit window call.now in
    (if allowed && call.key == key then 1 else 0) + allowed_count buckets' limit window key calls
