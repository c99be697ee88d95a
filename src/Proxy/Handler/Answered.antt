-- ===== src/Proxy/Handler/Answered.antt =====
-- Every request is answered once.
use tunnelgate.Prelude.{
  if-elim, refl, ◌≡◌, ◌&&◌, ℕ, true, false, not, Option, none, some, List, All, ℕ_eq, Result, ok,
  err,
}
use tunnelgate.Text.{text_eq}
use tunnelgate.MockApi.Types.{ApiRecord}
use tunnelgate.MockApi.Validation.{validate_request_keys, validate_request_params}
use tunnelgate.Proxy.Config.{Config}
use tunnelgate.Proxy.RateLimit.{Buckets}
use tunnelgate.Proxy.Security.{Request, Block}
use tunnelgate.Proxy.Headers.{is_web_socket_upgrade}
use tunnelgate.Proxy.Services.{from_mock, Services, Event}
use tunnelgate.Proxy.Forward.{broadcast_activity, capture_proxy, or_root}
use tunnelgate.Proxy.Forward.Once.{
  is_answer, ends_in_answer, ends_in_answer-append, proxy-ends_in_answer,
  capture_proxy-ends_in_answer, websocket_passthrough-ends_in_answer,
}
use tunnelgate.Proxy.Handler.{
  serve_mock, dispatch, middleware, without_mock, served, validation_body, configured, failed_with,
  checked,
}

module _ (services : Services) (req : Request) (config : Config) where
  abbrev Once : List Event → Type 0
  Once l = ends_in_answer l ≡ true

  served-Once : (mock : ApiRecord) → Once (served services req mock config)
  served-Once mock =
      ends_in_answer-append
        (broadcast_activity services req mock from_mock (some mock.response_status) true) _
        (if-elim (All (λ e. is_answer e ≡ false)) services.has_hub _ _ (λ _. (refl, tt)) (λ _. tt))
        refl

  serve_mock-Once : (mock : ApiRecord) → Once (serve_mock services req mock config)
  unfolding serve_mock
  serve_mock-Once mock =
      if-elim Once (not (validate_request_keys mock (validation_body services req)).ok) _ _
        (λ _. unfold ends_in_answer in refl)
        (λ _.
          if-elim Once (not (validate_request_params mock req.query_keys).ok) _ _
            (λ _. unfold ends_in_answer in refl) (λ _. served-Once mock))

  without_mock-Once : (matched : Option ApiRecord) → Once (without_mock services req config matched)
  unfolding without_mock ends_in_answer
  without_mock-Once none = refl
  without_mock-Once (some api) =
      if-elim Once (not api.mock_enabled && api.proxy_enabled) _ _
        (λ _. proxy-ends_in_answer services req config api) (λ _. refl)

  routed-Once :
      (found : Result (Option ApiRecord))
      → Once (elim found [
        | err e ↦ failed_with services req config e
        | ok matched ↦ without_mock services req config matched
      ])
  unfolding ends_in_answer
  routed-Once (err e) = refl
  routed-Once (ok matched) = without_mock-Once matched

  captured-Once :
      (found : Result (Option ApiRecord))
      → Once (elim found [
        | err e ↦ failed_with services req config e
        | ok matched ↦ capture_proxy services req matched config
      ])
  unfolding ends_in_answer
  captured-Once (err e) = refl
  captured-Once (ok matched) = capture_proxy-ends_in_answer services req config matched

  mocked-Once :
      (found : Result (Option ApiRecord))
      → Once (elim found [
        | err e ↦ failed_with services req config e
        | ok (some mock) ↦ serve_mock services req mock config
        | ok none ↦ elim (services.find_route req.method (or_root services req req.path)) [
          | err e ↦ failed_with services req config e
          | ok matched ↦ without_mock services req config matched
        ]
      ])
  unfolding ends_in_answer
  mocked-Once (err e) = refl
  mocked-Once (ok (some mock)) = serve_mock-Once mock
  mocked-Once (ok none) =
      routed-Once (services.find_route req.method (or_root services req req.path))

  dispatch-Once : Once (dispatch services req config)
  unfolding dispatch
  dispatch-Once =
      if-elim Once config.capture_enabled _ _ (λ _. captured-Once _) (λ _. mocked-Once _)

  checked-Once : (asked : Buckets × Option Block) → Once (checked services req config asked).1
  checked-Once (limiter, some block) = unfold ends_in_answer in refl
  checked-Once (limiter, none) = dispatch-Once

-- Whatever the services say, the last thing that `Middleware` does for a request is to answer it
-- (with a response, by serving a web socket, or by passing it on), and it answers nothing before.
pub middleware-ends_in_answer :
    (services : Services) (req : Request) (limiter : Buckets) (now : ℕ)
    → ends_in_answer (middleware services req limiter now).1 ≡ true
unfolding middleware
middleware-ends_in_answer services req limiter now = go services.config
  where
    go :
        (config : Result Config)
        → ends_in_answer (configured services req limiter now config).1 ≡ true
    go (err e) = unfold ends_in_answer in refl
    go (ok config) =
        if-elim (λ (r : Buckets × List Event). ends_in_answer r.1 ≡ true)
          (is_web_socket_upgrade req.headers) _ _
          (λ _. websocket_passthrough-ends_in_answer services req config)
          (λ _. checked-Once services req config _)
