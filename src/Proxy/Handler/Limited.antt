-- ===== src/Proxy/Handler/Limited.antt =====
-- How many requests get past the rate limit: `Middleware` over a sequence of requests.
use tunnelgate.Prelude.{
  refl, ◌+◌, ◌*◌, ◌≤◌, ◌<◌, ◌≡◌, ◌∙◌, ◌&&◌, ◌∷◌, ◌==◌, if◌then◌else◌, ℕ, sym, ap, inl, inr, Bool,
  true, false, not, Option, none, some, List, [], arith, if-elim, Bool-cases, All, ℕ_eq, pos,
  is_nonpositive, ok,
}
use tunnelgate.Text.{bytes, Text, text_eq}
use mathlib.Core.Path.{subst}
use tunnelgate.Proxy.Config.{Config}
use tunnelgate.Proxy.Headers.{is_web_socket_upgrade}
use tunnelgate.Proxy.RateLimit.{Buckets, Call, allow, allowed_count}
use tunnelgate.Proxy.RateLimit.Bound.{IsWithin, allowed_count-le}
use tunnelgate.Proxy.Security.{Request, Block, minute, limiter_key, security_block_reason}
use tunnelgate.Proxy.Services.{Services, Event, replied, message}
use tunnelgate.Proxy.Handler.{middleware, configured, checked}
use tunnelgate.Proxy.Handler.Blocked.{middleware-limited}

-- A request, and the time at which the handler looks at it.
pub record Visit : Type 0 where
  pub req : Request
  pub now : ℕ

-- Whether the one thing done is the answer 429 of the rate limit.
abbrev pub is_refusal : List Event → Bool
is_refusal (replied status headers (message m) ∷ []) =
    status == 429 && m == bytes "Rate limit exceeded"
is_refusal events = false

-- Whether a request is no upgrade to a web socket, which is not limited, and is counted under the
-- key.
abbrev pub counts_under : Text → Request → Bool
counts_under key req = not (is_web_socket_upgrade req.headers) && limiter_key req == key

-- How many of the requests under the key `Middleware` does anything for but refuse them, the
-- limiter handed on from each to the next.
unfoldable pub served_count : Services → Text → Buckets → List Visit → ℕ
served_count services key limiter [] = 0
served_count services key limiter (visit ∷ visits) =
    let (limiter', events) = middleware services visit.req limiter visit.now in
    (if counts_under key visit.req && not (is_refusal events) then 1 else 0)
    + served_count services key limiter' visits

-- A time of the minute from `from` on.
abbrev pub IsInMinute : ℕ → Visit → Type 0
IsInMinute from visit = (from ≤ visit.now) × (visit.now < from + minute)

-- The calls of the limiter.
calls_of : List Visit → List Call
calls_of [] = []
calls_of (visit ∷ visits) =
    let rest = calls_of visits in
    if is_web_socket_upgrade visit.req.headers
    then rest
    else record { key = limiter_key visit.req; now = visit.now } ∷ rest

one_le :
    (limited same refusal allowed : Bool)
    → (allowed ≡ false → refusal ≡ true)
    → (if (limited && same) && not refusal then 1 else 0) ≤ (if allowed && same then 1 else 0)
one_le limited same true allowed h = ground arith
one_le limited same false true h = ground arith
one_le limited same false false h = ground (arith, h refl)

calls_of-IsWithin :
    (from : ℕ) (visits : List Visit)
    → All (IsInMinute from) visits
    → All (IsWithin from minute) (calls_of visits)
unfolding calls_of
calls_of-IsWithin from [] h = tt
calls_of-IsWithin from (visit ∷ visits) (h, hs) =
    if-elim (All (IsWithin from minute)) (is_web_socket_upgrade visit.req.headers) _ _
      (λ _. calls_of-IsWithin from visits hs) (λ _. (h, calls_of-IsWithin from visits hs))

checked_limiter :
    (services : Services) (req : Request) (config : Config) (limiter : Buckets)
    (reason : Option Block)
    → (checked services req config (limiter, reason)).0 ≡ limiter
checked_limiter services req config limiter none = refl
checked_limiter services req config limiter (some block) = refl

module _ (services : Services) (config : Config) (limit : ℕ)
    (readable : services.config ≡ ok config) (on : config.security.enabled ≡ true)
    (rate_limited : config.security.rate_limit ≡ true)
    (limit_is : config.security.rate_limit_per_minute ≡ pos limit) (positive : 0 < limit) where
  middleware_upgrade :
      (req : Request) (limiter : Buckets) (now : ℕ)
      → is_web_socket_upgrade req.headers ≡ true
      → (middleware services req limiter now).0 ≡ limiter
  unfolding middleware
  middleware_upgrade req limiter now w =
      subst (λ x. (configured services req limiter now x).0 ≡ limiter) (sym readable) (rw w refl)

  is_positive : is_nonpositive config.security.rate_limit_per_minute ≡ false
  is_positive = rw limit_is (ground (arith, positive))

  reason_limiter :
      (req : Request) (limiter : Buckets) (now : ℕ)
      → (security_block_reason services.matches limiter now config.security req).0
        ≡ (allow limiter (limiter_key req) (pos limit) minute now).0
  unfolding security_block_reason
  reason_limiter req limiter now = rw (on, rate_limited, is_positive, limit_is) refl

  middleware_limiter :
      (req : Request) (limiter : Buckets) (now : ℕ)
      → is_web_socket_upgrade req.headers ≡ false
      → (middleware services req limiter now).0
        ≡ (allow limiter (limiter_key req) (pos limit) minute now).0
  unfolding middleware security_block_reason
  middleware_limiter req limiter now w =
      let reason = security_block_reason services.matches limiter now config.security req in
      subst
        (λ x.
          (configured services req limiter now x).0
          ≡ (allow limiter (limiter_key req) (pos limit) minute now).0)
        (sym readable)
        (rw w
          (checked_limiter services req config reason.0 reason.1 ∙ reason_limiter req limiter now))

  middleware_refused :
      (req : Request) (limiter : Buckets) (now : ℕ)
      → is_web_socket_upgrade req.headers ≡ false
      → (allow limiter (limiter_key req) (pos limit) minute now).1 ≡ false
      → is_refusal (middleware services req limiter now).1 ≡ true
  middleware_refused req limiter now w denied =
      ap (λ r. is_refusal r.1)
        (middleware-limited services req config limiter now readable w on rate_limited is_positive
          (rw limit_is denied))

  served_step :
      (key : Text) (req : Request) (limiter : Buckets) (now : ℕ)
      → is_web_socket_upgrade req.headers ≡ false
      → (if counts_under key req && not (is_refusal (middleware services req limiter now).1)
          then 1
          else 0)
        ≤ (if (allow limiter (limiter_key req) (pos limit) minute now).1 && limiter_key req == key
            then 1
            else 0)
  served_step key req limiter now w =
      one_le (not (is_web_socket_upgrade req.headers)) (limiter_key req == key)
        (is_refusal (middleware services req limiter now).1)
        (allow limiter (limiter_key req) (pos limit) minute now).1
        (middleware_refused req limiter now w)

  served_count-le_allowed_count :
      (key : Text) (limiter : Buckets) (visits : List Visit)
      → served_count services key limiter visits
        ≤ allowed_count limiter (pos limit) minute key (calls_of visits)
  unfolding served_count allowed_count calls_of
  served_count-le_allowed_count key limiter [] = omega arith
  served_count-le_allowed_count key limiter (visit ∷ visits) =
      elim (Bool-cases (is_web_socket_upgrade visit.req.headers)) [
        | inl w ↦
            rw (w, middleware_upgrade visit.req limiter visit.now w)
              (omega (arith, served_count-le_allowed_count key limiter visits))
        | inr w ↦
            let step = rw w at (served_step key visit.req limiter visit.now w) in
            rw (w, middleware_limiter visit.req limiter visit.now w)
              (omega (
                arith,
                step,
                served_count-le_allowed_count key
                    (allow limiter (limiter_key visit.req) (pos limit) minute visit.now).0 visits,
              ))
      ]

-- Where the checks are on with a positive limit, at most twice the limit of requests with one key,
-- which is made of method, path and client, get anything but the answer 429 in any minute that begins
-- after the time zero, whatever the limiter has seen before and whatever other requests come in
-- between. The configuration is readable and stays as it is, and upgrades to a web socket, which are
-- not limited, are not counted.
pub served_count-le :
    (services : Services) (config : Config) (limit from : ℕ) (key : Text) (limiter : Buckets)
    (visits : List Visit)
    → services.config ≡ ok config
    → config.security.enabled ≡ true
    → config.security.rate_limit ≡ true
    → config.security.rate_limit_per_minute ≡ pos limit
    → 0 < limit
    → 0 < from
    → All (IsInMinute from) visits
    → served_count services key limiter visits ≤ 2 * limit
served_count-le services config limit from key limiter visits c e r l h f w = omega (
  arith,
  served_count-le_allowed_count services config limit c e r l h key limiter visits,
  allowed_count-le limiter limit from minute key (calls_of visits) h f
      (calls_of-IsWithin from visits w),
)
