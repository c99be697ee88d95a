-- ===== src/Proxy/Services.antt =====
-- What the request pipeline works with: the results of the fetches, the inputs of the audit log, the
-- things that a run does, and the services that it asks
-- (backend/internal/features/proxy/handler.go and backend/internal/features/audit-log/types.go).
use tunnelgate.Prelude.{ℕ, Bool, Option, List, ℕ_eq, Result}
use tunnelgate.Text.{Text, text_eq}
use tunnelgate.Json.{Value}
use tunnelgate.MockApi.Types.{ApiRecord}
use tunnelgate.MockApi.Validation.{BodyValidationResult, ParamValidationResult}
use tunnelgate.Proxy.Config.{Config, ShadowEndpoint, HeaderMatchReplaceRule}
use tunnelgate.Proxy.Headers.{Headers}

-- `proxyResult`; `http_headers` is its field `Headers`.
pub record ProxyResult : Type 0 where
  pub target_url : Text
  pub response_status : Option ℕ
  pub duration_ms : ℕ
  pub success : Bool
  pub error_message : Option Text
  pub request_headers : Text
  pub http_headers : Headers
  pub response_headers : Text
  pub body : Text
  pub content_type : Text

pub record ShadowTarget : Type 0 where
  pub id : Text
  pub name : Text
  pub base_url : Text
  pub target_url : Text

pub record CreateInput : Type 0 where
  pub api_mock_db_id : Option ℕ
  pub api_mock_id : Text
  pub route_name : Text
  pub method : Text
  pub route_path : Text
  pub target_url : Text
  pub response_status : Option ℕ
  pub duration_ms : ℕ
  pub success : Bool
  pub error_message : Option Text
  pub request_headers : Text
  pub request_body : Text
  pub response_headers : Text
  pub response_body : Text
  pub shadow_targets : List ShadowTarget

pub data Source : Type 0 where
  from_mock from_proxy : Source

-- What is written as the body of a response.
pub data Reply : Type 0 where
  message : Text → Reply
  wrong_body : ApiRecord → BodyValidationResult → Reply
  wrong_params : ParamValidationResult → Reply
  content : Text → Text → Reply

-- What a run does. `fetched` is the request to the real server, `shadow_started` the start of a
-- goroutine that fetches from a shadow endpoint and stores the outcome under an audit record, if
-- there is one; `passed_on` is `c.Next()`.
pub data Event : Type 0 where
  fetched : Text → List HeaderMatchReplaceRule → Event
  shadow_started : ShadowEndpoint → Option ℕ → Event
  audited : CreateInput → Event
  audit_broadcast : ℕ → Event
  activity : ApiRecord → Source → Option ℕ → Bool → Event
  replied : ℕ → Headers → Reply → Event
  web_socket_served : Text → Event
  passed_on : Event

-- The services: the configuration, the lookups of the API specs, the client of HTTP, the audit log
-- (`create_audit` gives the internal id of the record), whether there is a hub, and the functions
-- of the standard library that the handler uses. `is_served_url` is the test of the target of a
-- web socket, and `headers_json` prints headers.
pub record Services : Type 0 where
  pub config : Result Config
  pub find_route : Text → Text → Result (Option ApiRecord)
  pub find_active_mock : Text → Text → Result (Option ApiRecord)
  pub fetch : Text → List HeaderMatchReplaceRule → ProxyResult
  pub create_audit : CreateInput → Result ℕ
  pub has_hub : Bool
  pub target_url : Text → Text → Text
  pub is_served_url : Text → Bool
  pub headers_json : Headers → Text
  pub stored_headers : Text → Option (List (Text × Text))
  pub is_json : Text → Bool
  pub matches : Text → Text → Bool
  pub unmarshal : Text → Option Value
  pub parse_query : Text → List (Text × List Text)
  pub itoa : ℕ → Text
