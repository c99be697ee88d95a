-- ===== src/Proxy/Handler.antt =====
-- The request pipeline of the public proxy: `Middleware` of
-- backend/internal/features/proxy/handler.go.
-- A run gives the limiter after it and the list of the things it did, in their order. What the
-- handler asks of the services behind it is a record of functions.
pub mod Answered
pub mod Guarded
pub mod Blocked
pub mod Limited
pub mod Composed
mod Tests
use tunnelgate.Prelude.{
  [], ◌&&◌, ◌∷◌, ◌++◌, if◌then◌else◌, ℕ, true, not, Option, none, some, List, is_empty, ℕ_eq,
  list_eq, Result, ok, err,
}
use tunnelgate.Text.{bytes, Text, text_eq, trim_space}
use tunnelgate.Json.{Value}
use tunnelgate.MockApi.Types.{ApiRecord}
use tunnelgate.MockApi.Validation.{
  validate_request_keys, validate_request_params, parse_validation_body,
}
use tunnelgate.Proxy.Config.{Config}
use tunnelgate.Proxy.Headers.{Headers, get_header, set_header, is_web_socket_upgrade}
use tunnelgate.Proxy.RateLimit.{Buckets}
use tunnelgate.Proxy.Forward.{
  reply_secured, broadcast_activity, or_root, proxy, capture_proxy, websocket_passthrough,
}
use tunnelgate.Proxy.Services.{
  from_mock, message, wrong_body, wrong_params, content, Event, replied, passed_on, Services,
}
use tunnelgate.Proxy.Security.{Request, Block, security_block_reason}
use tunnelgate.Proxy.Preview.{stored_content_type}

-- The entries of the object that `applyStoredResponseHeaders` reads, written one after the other.
set_stored : Headers → List (Text × Text) → Headers
set_stored headers [] = headers
set_stored headers ((key, value) ∷ parsed) =
    set_stored (if is_empty (trim_space key) then headers else set_header key value headers) parsed

module _ (services : Services) (req : Request) where
  stored_response_headers : ApiRecord → Headers
  unfolding set_stored
  stored_response_headers mock = elim (services.stored_headers mock.response_headers) [
    | none ↦ []
    | some parsed ↦ set_stored [] parsed
  ]

  abbrev validation_body : Value
  validation_body =
      parse_validation_body services.unmarshal services.parse_query
        (get_header (bytes "Content-Type") req.headers) req.body

  abbrev served : ApiRecord → Config → List Event
  served mock config =
      broadcast_activity services req mock from_mock (some mock.response_status) true
      ++ reply_secured services req config mock.response_status (stored_response_headers mock)
          (content (stored_content_type services.is_json mock.response_body) mock.response_body)
        ∷ []

  -- The part of `Middleware` for a mock that was found.
  serve_mock : ApiRecord → Config → List Event
  unfolding stored_response_headers
  serve_mock mock config =
      let body_validation = validate_request_keys mock validation_body in
      let param_validation = validate_request_params mock req.query_keys in
      if not body_validation.ok
      then reply_secured services req config 400 [] (wrong_body mock body_validation) ∷ []
      else if not param_validation.ok
      then reply_secured services req config 400 [] (wrong_params param_validation) ∷ []
      else served mock config

  abbrev failed_with : Config → Text → List Event
  failed_with config e = reply_secured services req config 500 [] (message e) ∷ []

  -- The part of `Middleware` where no mock was found.
  without_mock : Config → Option ApiRecord → List Event
  without_mock config none = passed_on ∷ []
  without_mock config (some api) =
      if not api.mock_enabled && api.proxy_enabled
      then proxy services req api config
      else passed_on ∷ []

  -- `Middleware` behind the security checks.
  dispatch : Config → List Event
  unfolding serve_mock without_mock
  dispatch config =
      if config.capture_enabled
      then elim (services.find_route req.method (or_root services req req.path)) [
        | err e ↦ failed_with config e
        | ok matched ↦ capture_proxy services req matched config
      ]
      else elim (services.find_active_mock req.method (or_root services req req.path)) [
        | err e ↦ failed_with config e
        | ok (some mock) ↦ serve_mock mock config
        | ok none ↦ elim (services.find_route req.method (or_root services req req.path)) [
          | err e ↦ failed_with config e
          | ok matched ↦ without_mock config matched
        ]
      ]

  abbrev checked : Config → Buckets × Option Block → Buckets × List Event
  checked config (limiter, some block) =
      (limiter, reply_secured services req config block.status [] (message block.message) ∷ [])
  checked config (limiter, none) = (limiter, dispatch config)

  abbrev configured : Buckets → ℕ → Result Config → Buckets × List Event
  configured limiter now (err e) = (limiter, replied 500 [] (message e) ∷ [])
  configured limiter now (ok config) =
      if is_web_socket_upgrade req.headers
      then (limiter, websocket_passthrough services req config)
      else checked config (security_block_reason services.matches limiter now config.security req)

  pub middleware : Buckets → ℕ → Buckets × List Event
  unfolding dispatch
  middleware limiter now = configured limiter now services.config
