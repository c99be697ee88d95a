-- ===== src/Proxy/Handler/Tests.antt =====
-- Runs of the pipeline, and its theorems at a concrete request.
use tunnelgate.Prelude.{
  [], refl, ◌*◌, ◌≤◌, ◌≡◌, ◌↔◌, ◌⊎◌, ◌∷◌, ◌++◌, Bool, true, false, none, some, arith, length, any,
  All, ℕ_eq, pos, ok, ℕ, List, ◌+◌, ◌/◌, ◌%◌, if◌then◌else◌, zero, suc, ap, ltb, length-append,
}
use tunnelgate.Text.{bytes, text_eq, to_lower, equal_fold, Text}
use tunnelgate.Proxy.Config.{Config, ShadowEndpoint}
use tunnelgate.Proxy.Headers.{is_web_socket_upgrade, canonical_key}
use tunnelgate.Proxy.RateLimit.{Buckets, no_buckets, store, allow}
use tunnelgate.Proxy.Security.{
  Request, security_block_reason, filter_reason, limiter_key, security_inspection_values,
  contains_any_pattern, xss_patterns, sql_injection_patterns,
}
use tunnelgate.Proxy.Security.Limits.{IsWithinLimit, Passes, security_block_reason_iff}
use tunnelgate.Proxy.Services.{Services, ProxyResult, Event, fetched}
use tunnelgate.Proxy.Preview.{request_body_preview}
use tunnelgate.Proxy.Preview.Bounds.{length-request_body_preview}
use tunnelgate.Proxy.Forward.{capture_proxy}
use tunnelgate.Proxy.Forward.Guarded.{Presupposed}
use tunnelgate.Proxy.Forward.Once.{ends_in_answer}
use tunnelgate.Proxy.Handler.{middleware}
use tunnelgate.Proxy.Handler.Answered.{middleware-ends_in_answer}
use tunnelgate.MockApi.Types.{RequestBodyTypes, StoredApi}
use tunnelgate.MockApi.Store.{Store}
use tunnelgate.MockApi.Lookup.{find_active_mock}
use tunnelgate.Proxy.Handler.Composed.{IsStored, middleware-IsStored}
use tunnelgate.Proxy.Handler.Limited.{Visit, served_count, served_count-le}
use tunnelgate.Proxy.Handler.Guarded.{middleware-Presupposed}

abbrev shadow : ShadowEndpoint
shadow = record {
  id = bytes "shadow-1";
  name = bytes "s";
  base_url = bytes "http://shadow";
  enabled = true;
}

abbrev config : Bool → Config
config capture = record {
  real_server_base_url = bytes "http://real";
  shadow_endpoints = shadow ∷ [];
  capture_enabled = capture;
  audit_log_enabled = true;
  header_rules = [];
  security = record {
    enabled = true;
    xss = true;
    sql_injection = false;
    rate_limit = true;
    rate_limit_per_minute = pos 1;
    secure_headers = record {
      enabled = true;
      headers =
          record {
            id = bytes "1";
            name = bytes "X-Frame-Options";
            value = bytes "DENY";
            enabled = true;
          }
          ∷ [];
    };
  };
  updated_at = none;
}

abbrev result : ProxyResult
result = record {
  target_url = bytes "http://real/x";
  response_status = some 204;
  duration_ms = 3;
  success = true;
  error_message = none;
  request_headers = bytes "{}";
  http_headers = [];
  response_headers = bytes "{}";
  body = bytes "x";
  content_type = [];
}

abbrev services : Bool → Services
services capture = record {
  config = ok (config capture);
  find_route = λ method path. ok none;
  find_active_mock = λ method path. ok none;
  fetch = λ base rules. result;
  create_audit = λ input. ok 1;
  has_hub = true;
  target_url = λ base uri. base ++ uri;
  is_served_url = λ target. true;
  headers_json = λ headers. bytes "{}";
  stored_headers = λ value. none;
  is_json = λ body. true;
  matches = λ pattern value. false;
  unmarshal = λ body. none;
  parse_query = λ body. [];
  itoa = λ n. bytes "7";
}

abbrev req : Request
req = record {
  method = bytes "GET";
  path = bytes "/x";
  raw_query = [];
  uri = bytes "/x";
  query_keys = [];
  client_ip = bytes "::1";
  headers = [];
  body = [];
}

-- The limiter after one request.
abbrev used : Buckets
used = store no_buckets (limiter_key req) (record { window_start = 100; count = 1 })

abbrev is_fetch : Event → Bool
is_fetch (fetched base rules) = true
is_fetch _ = false

middleware_tests :
    (any is_fetch (middleware (services true) req no_buckets 100).1 ≡ true)
    × (any is_fetch (middleware (services true) req used 101).1 ≡ false)
    × (length (middleware (services false) req no_buckets 100).1 ≡ 1)
unfolding middleware capture_proxy security_block_reason filter_reason allow is_web_socket_upgrade
    equal_fold to_lower canonical_key contains_any_pattern security_inspection_values
middleware_tests = (refl, refl, refl)

no_upgrade : is_web_socket_upgrade req.headers ≡ false
unfolding is_web_socket_upgrade equal_fold to_lower
no_upgrade = refl

middleware-Presupposed_example :
    All
      (Presupposed (services true) req (config true))
      (middleware (services true) req no_buckets 100).1
middleware-Presupposed_example =
    middleware-Presupposed (services true) req (config true) no_buckets 100 refl no_upgrade

middleware-ends_in_answer_example :
    ends_in_answer (middleware (services true) req no_buckets 100).1 ≡ true
middleware-ends_in_answer_example = middleware-ends_in_answer (services true) req no_buckets 100

-- Three requests in one minute; with a limit of one the first is served.
abbrev visits : List Visit
visits =
    record { req = req; now = 100 }
    ∷ record { req = req; now = 101 }
    ∷ record { req = req; now = 102 }
    ∷ []

served_test : served_count (services false) (limiter_key req) no_buckets visits ≡ 1
unfolding served_count middleware security_block_reason filter_reason allow is_web_socket_upgrade
    equal_fold to_lower canonical_key contains_any_pattern security_inspection_values
served_test = refl

served_count-le_example : served_count (services false) (limiter_key req) no_buckets visits ≤ 2 * 1
served_count-le_example =
    served_count-le (services false) (config false) 1 100 (limiter_key req) no_buckets visits refl
      refl refl refl (omega arith) (omega arith)
      ((omega arith, omega arith), ((omega arith, omega arith), ((omega arith, omega arith), tt)))

security_block_reason_iff_example :
    ((security_block_reason (λ pattern value. false) used 101 (config true).security req).1 ≡ none)
    ↔ (((config true).security.enabled ≡ false)
        ⊎ (IsWithinLimit (λ pattern value. false) used 101 (config true).security req
            × Passes (λ pattern value. false) (config true).security.xss xss_patterns req
            × Passes
                (λ pattern value. false)
                (config true).security.sql_injection
                sql_injection_patterns
                req))
security_block_reason_iff_example =
    security_block_reason_iff (λ pattern value. false) used 101 (config true).security req

-- Decimal printing with at most so many digits.
decimal : ℕ → ℕ → Text
decimal zero n = []
decimal (suc fuel) n =
    let rest = decimal fuel (n / 10) in
    if ltb n 10 then (b'0' + n) ∷ [] else rest ++ (b'0' + n % 10) ∷ []

decimal_test : decimal 20 9223372036854775807 ≡ bytes "9223372036854775807"
unfolding decimal
decimal_test = refl

length-decimal : (fuel n : ℕ) → length (decimal fuel n) ≤ fuel
unfolding decimal
length-decimal zero n = omega arith
length-decimal (suc fuel) n = ground (
  arith,
  length-decimal fuel (n / 10),
  length-append (decimal fuel (n / 10)) ((b'0' + n % 10) ∷ []),
)

zeros : ℕ → Text
zeros zero = []
zeros (suc n) = 0 ∷ zeros n

length-zeros : (n : ℕ) → length (zeros n) ≡ n
unfolding zeros
length-zeros zero = refl
length-zeros (suc n) = ap suc (length-zeros n)

-- A binary body that is too long for its preview.
abbrev upload : Request
upload = record req {
  method = bytes "POST";
  headers = (bytes "Content-Type", bytes "image/png" ∷ []) ∷ [];
  body = zeros 9000;
}

length-request_body_preview_example : length (request_body_preview (decimal 20) upload) ≤ 64 * 1024
length-request_body_preview_example =
    length-request_body_preview (decimal 20) upload (λ n h. length-decimal 20 n)
      (omega (arith, length-zeros 9000))

abbrev mock_row : StoredApi
mock_row = record {
  internal_id = 1;
  id = bytes "a";
  collection_name = bytes "shop";
  route_name = bytes "orders";
  postman_folder_path = bytes "[]";
  method = bytes "GET";
  route_path = bytes "/:name";
  mock_enabled = true;
  proxy_enabled = false;
  response_status = 200;
  response_body = bytes "{}";
  response_body_type = bytes "json";
  request_headers = bytes "{}";
  response_headers = bytes "{}";
  request_body_keys = bytes "[]";
  request_body_types = bytes "{}";
  request_body_raw = [];
  request_body_type = [];
  request_param_keys = bytes "[]";
  request_param_types = bytes "{}";
  updated_at = [];
}

abbrev mock_store : Store
mock_store = record { apis = mock_row ∷ []; responses = λ k. []; next_id = 2 }

abbrev new_id : ℕ → Text
new_id k = bytes "new"

abbrev strings : Text → List Text
strings s = []

abbrev types : Text → RequestBodyTypes
types s = []

abbrev wired_services : Services
wired_services = record (services false) {
  find_active_mock =
      λ method path. ok (find_active_mock new_id strings types mock_store [] method path).1;
}

middleware-IsStored_example :
    All
      (IsStored new_id strings types mock_store [] wired_services req)
      (middleware wired_services req no_buckets 100).1
middleware-IsStored_example =
    middleware-IsStored new_id strings types mock_store [] wired_services req (config false)
      no_buckets 100 (λ method path. refl) refl no_upgrade
