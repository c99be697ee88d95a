-- ===== src/Proxy/Handler/Blocked.antt =====
-- A request that the security checks block.
use mathlib.Core.Path.{subst}
use tunnelgate.Prelude.{
  refl, ◌≡◌, ◌∷◌, ℕ, sym, Bool, true, false, some, List, [], arith, ℕ_eq, ℤ, is_nonpositive, ok,
}
use tunnelgate.Text.{bytes, Text, text_eq}
use tunnelgate.Proxy.Config.{Config, PublicProxySecurity}
use tunnelgate.Proxy.Headers.{is_web_socket_upgrade, apply_secure_headers}
use tunnelgate.Proxy.RateLimit.{Buckets, allow}
use tunnelgate.Proxy.Security.{Request, minute, limiter_key, security_block_reason}
use tunnelgate.Proxy.Services.{Services, Event, replied, message}
use tunnelgate.Proxy.Handler.{middleware, configured}

-- The one thing done: an answer with status 429 and the secure headers.
abbrev pub refused : Config → Buckets → Buckets × List Event
refused config limiter = (
  limiter,
  replied 429 (apply_secure_headers [] config.security.secure_headers)
        (message (bytes "Rate limit exceeded"))
      ∷ [],
)

allow-denied :
    (limiter : Buckets) (key : Text) (limit : ℤ) (window now : ℕ)
    → (allow limiter key limit window now).1 ≡ false
    → (allow limiter key limit window now).0 ≡ limiter
unfolding allow
allow-denied limiter key limit window now h = ground arith

security_block_reason-limited :
    (matches : Text → Text → Bool) (limiter : Buckets) (now : ℕ) (config : PublicProxySecurity)
    (req : Request)
    → config.enabled ≡ true
    → config.rate_limit ≡ true
    → is_nonpositive config.rate_limit_per_minute ≡ false
    → (allow limiter (limiter_key req) config.rate_limit_per_minute minute now).1 ≡ false
    → security_block_reason matches limiter now config req
      ≡ (limiter, some (record { status = 429; message = bytes "Rate limit exceeded" }))
unfolding security_block_reason
security_block_reason-limited matches limiter now config req e r p a =
    rw
      (e, r, p, a, allow-denied limiter (limiter_key req) config.rate_limit_per_minute minute now a)
      refl

-- Where the checks are on with a positive limit, a request that the limiter turns down is answered
-- with status 429 and the secure headers, and nothing else is done for it: nothing is fetched,
-- logged, reported or passed on, and the limiter is as it was. The configuration is readable, and
-- the request no upgrade to a web socket.
pub middleware-limited :
    (services : Services) (req : Request) (config : Config) (limiter : Buckets) (now : ℕ)
    → services.config ≡ ok config
    → is_web_socket_upgrade req.headers ≡ false
    → config.security.enabled ≡ true
    → config.security.rate_limit ≡ true
    → is_nonpositive config.security.rate_limit_per_minute ≡ false
    → (allow limiter (limiter_key req) config.security.rate_limit_per_minute minute now).1 ≡ false
    → middleware services req limiter now ≡ refused config limiter
unfolding middleware
middleware-limited services req config limiter now c w e r p a =
    subst (λ x. configured services req limiter now x ≡ refused config limiter) (sym c) go
  where
    blocked :
        security_block_reason services.matches limiter now config.security req
        ≡ (limiter, some (record { status = 429; message = bytes "Rate limit exceeded" }))
    blocked = security_block_reason-limited services.matches limiter now config.security req e r p a

    go : configured services req limiter now (ok config) ≡ refused config limiter
    go = rw (w, blocked) refl
