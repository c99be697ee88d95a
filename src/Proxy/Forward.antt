-- ===== src/Proxy/Forward.antt =====
-- Sending a request on: `proxy`, `captureProxy` and `websocketPassthrough` of
-- backend/internal/features/proxy/handler.go.
pub mod Guarded
pub mod Once
use tunnelgate.Prelude.{
  [], ◌∷◌, ◌++◌, if◌then◌else◌, ℕ, Bool, true, not, Option, none, some, List, is_empty, keep, ℕ_eq,
  ok, err,
}
use tunnelgate.Text.{bytes, Text, text_eq}
use tunnelgate.MockApi.Types.{ApiRecord}
use tunnelgate.Proxy.Config.{Config, ShadowEndpoint}
use tunnelgate.Proxy.Headers.{Headers, copy_response_headers, apply_secure_headers}
use tunnelgate.Proxy.Services.{
  ProxyResult, ShadowTarget, CreateInput, Source, from_proxy, Reply, message, content, Event,
  fetched, shadow_started, audited, audit_broadcast, activity, replied, web_socket_served, Services,
}
use tunnelgate.Proxy.Security.{Request}
use tunnelgate.Proxy.Preview.{request_body_preview, response_body_preview, status_or_default}

abbrev or_message : Option Text → Text
or_message none = bytes "Proxy request failed"
or_message (some text) = text

abbrev or_octets : Text → Text
or_octets content_type =
    if is_empty content_type then bytes "application/octet-stream" else content_type

-- What became of the audit record.
pub data Audit : Type 0 where
  not_kept : Audit
  kept : ℕ → Audit
  lost : Audit

module _ (services : Services) (req : Request) where
  -- `c.JSON` after `applySecureHeaders`.
  abbrev pub reply_secured : Config → ℕ → Headers → Reply → Event
  reply_secured config status headers reply =
      replied status (apply_secure_headers headers config.security.secure_headers) reply

  -- The end that `proxy` and `captureProxy` share.
  relay : Config → ProxyResult → Event
  relay config result =
      if not result.success
      then reply_secured config 502 [] (message (or_message result.error_message))
      else reply_secured config (status_or_default result.response_status 200)
          (copy_response_headers [] result.http_headers)
          (content (or_octets result.content_type) result.body)

  -- `broadcastActivity`
  abbrev pub broadcast_activity : ApiRecord → Source → Option ℕ → Bool → List Event
  broadcast_activity api source status success =
      if services.has_hub then activity api source status success ∷ [] else []

  abbrev audit_request_headers : ProxyResult → Text
  audit_request_headers result =
      if is_empty result.request_headers
      then services.headers_json req.headers
      else result.request_headers

  audit_input : Option ℕ → Text → Text → Text → ProxyResult → List ShadowTarget → CreateInput
  audit_input api_mock_db_id api_mock_id route_name route_path result targets = record {
    api_mock_db_id = api_mock_db_id;
    api_mock_id = api_mock_id;
    route_name = route_name;
    method = req.method;
    route_path = route_path;
    target_url = result.target_url;
    response_status = result.response_status;
    duration_ms = result.duration_ms;
    success = result.success;
    error_message = result.error_message;
    request_headers = audit_request_headers result;
    request_body = request_body_preview services.itoa req;
    response_headers = result.response_headers;
    response_body = response_body_preview result.body;
    shadow_targets = targets;
  }

  abbrev pub or_root : Text → Text
  or_root path = if is_empty path then bytes "/" else path

  capture_audit_input : ProxyResult → Option ApiRecord → CreateInput
  unfolding audit_input
  capture_audit_input result none =
      audit_input none [] (req.method ++ bytes " " ++ or_root req.path) (or_root req.path) result []
  capture_audit_input result (some api) =
      audit_input (some api.internal_id) api.id api.route_name api.resolved_route_path result []

  create_audit : Bool → CreateInput → Audit
  create_audit enabled input =
      if not enabled
      then not_kept
      else elim (services.create_audit input) [ ok id ↦ kept id | err e ↦ lost ]

  abbrev audit_events : Bool → CreateInput → List Event
  audit_events enabled input = if enabled then audited input ∷ [] else []

  proxy_broadcasts : Audit → ApiRecord → ProxyResult → List Event
  proxy_broadcasts lost api result = []
  proxy_broadcasts not_kept api result =
      broadcast_activity api from_proxy result.response_status result.success
  proxy_broadcasts (kept id) api result =
      if services.has_hub
      then audit_broadcast id
        ∷ broadcast_activity api from_proxy result.response_status result.success
      else []

  start_shadows : Option ℕ → List ShadowEndpoint → List Event
  start_shadows audit_id [] = []
  start_shadows audit_id (endpoint ∷ rest) =
      shadow_started endpoint audit_id ∷ start_shadows audit_id rest

  shadow_events : Audit → List ShadowEndpoint → List Event
  unfolding start_shadows
  shadow_events (kept id) shadows = start_shadows (some id) shadows
  shadow_events _ shadows = start_shadows none shadows

  enabled_shadows : Config → List ShadowEndpoint
  enabled_shadows config =
      if config.capture_enabled
      then []
      else keep (λ endpoint. endpoint.enabled) config.shadow_endpoints

  shadow_targets : List ShadowEndpoint → List ShadowTarget
  shadow_targets [] = []
  shadow_targets (endpoint ∷ rest) =
      record {
        id = endpoint.id;
        name = endpoint.name;
        base_url = endpoint.base_url;
        target_url = services.target_url endpoint.base_url req.uri;
      }
      ∷ shadow_targets rest

  -- `proxy` behind the test of the base URL, with what it fetched and what became of its record.
  proxy_events : ApiRecord → Config → ProxyResult → CreateInput → Audit → List Event
  unfolding relay proxy_broadcasts shadow_events enabled_shadows
  proxy_events api config result input audit =
      fetched config.real_server_base_url config.header_rules
        ∷ audit_events config.audit_log_enabled input
      ++ proxy_broadcasts audit api result
      ++ shadow_events audit (enabled_shadows config)
      ++ relay config result ∷ []

  abbrev not_configured : Config → List Event
  not_configured config =
      reply_secured config 502 [] (message (bytes "Real server endpoint is not configured")) ∷ []

  unfoldable pub proxy : ApiRecord → Config → List Event
  unfolding proxy_events create_audit shadow_targets audit_input
  proxy api config =
      if is_empty config.real_server_base_url
      then not_configured config
      else let result = services.fetch config.real_server_base_url config.header_rules in
        let input =
          audit_input (some api.internal_id) api.id api.route_name api.resolved_route_path result
            (shadow_targets (enabled_shadows config)) in
        proxy_events api config result input (create_audit config.audit_log_enabled input)

  abbrev capture_broadcast : Audit → List Event
  capture_broadcast (kept id) = if services.has_hub then audit_broadcast id ∷ [] else []
  capture_broadcast _ = []

  capture_activity : Option ApiRecord → ProxyResult → List Event
  capture_activity none result = []
  capture_activity (some api) result = elim result.response_status [
    | none ↦ []
    | some status ↦
        if result.success then broadcast_activity api from_proxy (some status) true else []
  ]

  unfoldable pub capture_proxy : Option ApiRecord → Config → List Event
  unfolding relay capture_audit_input create_audit capture_activity
  capture_proxy matched config =
      if is_empty config.real_server_base_url
      then not_configured config
      else let result = services.fetch config.real_server_base_url config.header_rules in
        let input = capture_audit_input result matched in
        fetched config.real_server_base_url config.header_rules
          ∷ audit_events config.audit_log_enabled input
        ++ capture_broadcast (create_audit config.audit_log_enabled input)
        ++ capture_activity matched result
        ++ relay config result ∷ []

  unfoldable pub websocket_passthrough : Config → List Event
  websocket_passthrough config =
      if is_empty config.real_server_base_url
      then replied 502 [] (message (bytes "Real server endpoint is not configured")) ∷ []
      else let target = services.target_url config.real_server_base_url req.uri in
        if services.is_served_url target
        then web_socket_served target ∷ []
        else replied 502 [] (message (bytes "Real server endpoint is invalid")) ∷ []
