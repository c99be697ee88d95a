-- ===== src/Proxy/Handler/Guarded.antt =====
-- What each thing that a run of `Middleware` does presupposes.
use mathlib.Core.Path.{subst}
use tunnelgate.Prelude.{
  if-elim, refl, ◌≡◌, ◌&&◌, ℕ, sym, true, false, not, Option, none, some, List, [], arith, All,
  All-append, ℕ_eq, Result, ok, err,
}
use tunnelgate.Text.{Text, text_eq}
use tunnelgate.MockApi.Types.{ApiRecord}
use tunnelgate.MockApi.Validation.{validate_request_keys, validate_request_params}
use tunnelgate.Proxy.Config.{Config}
use tunnelgate.Proxy.Headers.{is_web_socket_upgrade}
use tunnelgate.Proxy.RateLimit.{Buckets}
use tunnelgate.Proxy.Security.{Request, Block, security_block_reason}
use tunnelgate.Proxy.Services.{Services, Event, from_mock}
use tunnelgate.Proxy.Forward.{broadcast_activity, capture_proxy, or_root}
use tunnelgate.Proxy.Forward.Guarded.{
  Presupposed, IsServed, IsSecured-apply, proxy-Presupposed, capture_proxy-Presupposed,
}
use tunnelgate.Proxy.Handler.{
  serve_mock, dispatch, middleware, without_mock, served, validation_body, configured, failed_with,
  checked,
}

module _ (services : Services) (req : Request) (config : Config) where
  abbrev Sound : List Event → Type 0
  Sound = All (Presupposed services req config)

  served-Presupposed :
      (mock : ApiRecord)
      → config.capture_enabled ≡ false
      → IsServed services req config mock
      → Sound (served services req mock config)
  served-Presupposed mock c s =
      All-append (Presupposed services req config)
        (broadcast_activity services req mock from_mock (some mock.response_status) true) _
        (if-elim Sound services.has_hub _ _ (λ _. ((c, s, refl), tt)) (λ _. tt))
        (IsSecured-apply services req config _, tt)

  serve_mock-Presupposed :
      (mock : ApiRecord)
      → config.capture_enabled ≡ false
      → services.find_active_mock req.method (or_root services req req.path) ≡ ok (some mock)
      → Sound (serve_mock services req mock config)
  unfolding serve_mock
  serve_mock-Presupposed mock c f =
      let body = validation_body services req in
      if-elim Sound (not (validate_request_keys mock body).ok) _ _
        (λ _. (IsSecured-apply services req config [], tt))
        (λ b.
          if-elim Sound (not (validate_request_params mock req.query_keys).ok) _ _
            (λ _. (IsSecured-apply services req config [], tt))
            (λ p.
              served-Presupposed mock c (record {
                found = f;
                body_conforms = ground arith;
                params_conform = ground arith;
              })))

  without_mock-Presupposed :
      (matched : Option ApiRecord)
      → config.capture_enabled ≡ false
      → services.find_route req.method (or_root services req req.path) ≡ ok matched
      → Sound (without_mock services req config matched)
  unfolding without_mock
  without_mock-Presupposed none c f = (c, tt)
  without_mock-Presupposed (some api) c f =
      if-elim Sound (not api.mock_enabled && api.proxy_enabled) _ _
        (λ _. proxy-Presupposed services req config api f) (λ _. (c, tt))

  dispatch-Presupposed : Sound (dispatch services req config)
  unfolding dispatch
  dispatch-Presupposed =
      if-elim Sound config.capture_enabled _ _
        (λ c. captured (services.find_route req.method path) refl)
        (λ c. mocked c (services.find_active_mock req.method path) refl)
    where
      path : Text
      path = or_root services req req.path

      captured :
          (found : Result (Option ApiRecord))
          → services.find_route req.method path ≡ found
          → Sound (elim found [
            | err e ↦ failed_with services req config e
            | ok matched ↦ capture_proxy services req matched config
          ])
      captured (err e) f = (IsSecured-apply services req config [], tt)
      captured (ok matched) f = capture_proxy-Presupposed services req config matched f

      routed :
          config.capture_enabled ≡ false
          → (found : Result (Option ApiRecord)) → services.find_route req.method path ≡ found
          → Sound (elim found [
            | err e ↦ failed_with services req config e
            | ok matched ↦ without_mock services req config matched
          ])
      routed c (err e) f = (IsSecured-apply services req config [], tt)
      routed c (ok matched) f = without_mock-Presupposed matched c f

      mocked :
          config.capture_enabled ≡ false
          → (found : Result (Option ApiRecord)) → services.find_active_mock req.method path ≡ found
          → Sound (elim found [
            | err e ↦ failed_with services req config e
            | ok (some mock) ↦ serve_mock services req mock config
            | ok none ↦ elim (services.find_route req.method path) [
              | err e ↦ failed_with services req config e
              | ok matched ↦ without_mock services req config matched
            ]
          ])
      mocked c (err e) f = (IsSecured-apply services req config [], tt)
      mocked c (ok (some mock)) f = serve_mock-Presupposed mock c f
      mocked c (ok none) f = routed c (services.find_route req.method path) refl

  -- Let the configuration be readable, and the request no upgrade to a web socket. Then of the
  -- things that `Middleware` does: it fetches only from the configured real server, with the
  -- configured rules; it starts only shadow fetches from enabled endpoints of the configuration,
  -- and none in capture mode; it writes to the audit log only where that is on; it reports a mock
  -- only outside capture mode, and only one that was found for the request and whose expected body
  -- and parameters the request has; it reports a proxied spec only as the one found for the route;
  -- it passes a request on only outside capture mode; and on every response each key that the
  -- configured secure headers fix has the one value that they fix.
  pub middleware-Presupposed :
      (limiter : Buckets) (now : ℕ)
      → services.config ≡ ok config
      → is_web_socket_upgrade req.headers ≡ false
      → All (Presupposed services req config) (middleware services req limiter now).1
  unfolding middleware
  middleware-Presupposed limiter now c w =
      subst (λ r. Sound (configured services req limiter now r).1) (sym c)
        (if-elim (λ (r : Buckets × List Event). Sound r.1) (is_web_socket_upgrade req.headers) _ _
          (λ e. ground arith)
          (λ _. go (security_block_reason services.matches limiter now config.security req)))
    where
      go : (asked : Buckets × Option Block) → Sound (checked services req config asked).1
      go (after, some block) = (IsSecured-apply services req config [], tt)
      go (after, none) = dispatch-Presupposed
