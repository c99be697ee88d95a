-- ===== src/Proxy/Forward/Guarded.antt =====
-- What each thing that a run does presupposes.
use tunnelgate.Prelude.{
  IsIn, here, there, if-elim, refl, ◌≡◌, ◌∙◌, ◌∷◌, if◌then◌else◌, ℕ, ap, inl, inr, true, false,
  Option, none, some, List, [], arith, Bool-cases, is_empty, keep, All, All-append, ℕ_eq, ok,
}
use tunnelgate.Text.{bytes, Text, text_eq}
use tunnelgate.MockApi.Types.{ApiRecord}
use tunnelgate.MockApi.Validation.{
  validate_request_keys, validate_request_params, parse_validation_body,
}
use tunnelgate.Proxy.Config.{Config, ShadowEndpoint}
use tunnelgate.Proxy.Headers.{
  Headers, get_header, values_at, apply_secure_headers, is_web_socket_upgrade,
  copy_response_headers,
}
use tunnelgate.Proxy.Headers.Secure.{secure_value, values_at-apply_secure_headers, or_values}
use tunnelgate.Proxy.Security.{Request}
use tunnelgate.Proxy.Services.{
  ProxyResult, CreateInput, from_mock, from_proxy, Event, fetched, shadow_started, audited,
  audit_broadcast, activity, replied, web_socket_served, passed_on, Services,
}
use tunnelgate.Proxy.Forward.{
  Audit, not_kept, kept, lost, broadcast_activity, or_root, proxy, capture_proxy, relay,
  proxy_broadcasts, start_shadows, shadow_events, enabled_shadows, proxy_events, create_audit,
  not_configured, capture_activity, capture_broadcast, audit_events, not_configured,
}

-- Every key that the configuration fixes has its one value.
abbrev pub IsSecured : Config → Headers → Type 0
IsSecured config headers =
    (key value : Text)
    → secure_value config.security.secure_headers key ≡ some value
    → values_at key headers ≡ value ∷ []

module _ (services : Services) (req : Request) (config : Config) where
  -- The mock may answer the request: it was found for it, and the request conforms to it.
  pub record IsServed (mock : ApiRecord) : Type 0 where
    pub found :
        services.find_active_mock req.method (or_root services req req.path) ≡ ok (some mock)
    pub body_conforms :
        (validate_request_keys mock (
          parse_validation_body services.unmarshal services.parse_query
            (get_header (bytes "Content-Type") req.headers)
            req.body)).ok
        ≡ true
    pub params_conform : (validate_request_params mock req.query_keys).ok ≡ true

  abbrev pub Presupposed : Event → Type 0
  Presupposed (fetched base rules) =
      (base ≡ config.real_server_base_url) × (rules ≡ config.header_rules) × (is_empty base ≡ false)
  Presupposed (shadow_started endpoint audit_id) =
      (config.capture_enabled ≡ false)
      × (endpoint.enabled ≡ true)
      × IsIn endpoint config.shadow_endpoints
  Presupposed (audited input) = config.audit_log_enabled ≡ true
  Presupposed (audit_broadcast id) = (config.audit_log_enabled ≡ true) × (services.has_hub ≡ true)
  Presupposed (activity api from_mock status success) =
      (config.capture_enabled ≡ false) × IsServed api × (status ≡ some api.response_status)
  Presupposed (activity api from_proxy status success) =
      services.find_route req.method (or_root services req req.path) ≡ ok (some api)
  Presupposed (replied status headers reply) = IsSecured config headers
  Presupposed (web_socket_served target) = is_web_socket_upgrade req.headers ≡ true
  Presupposed passed_on = config.capture_enabled ≡ false

  pub IsSecured-apply :
      (headers : Headers)
      → IsSecured config (apply_secure_headers headers config.security.secure_headers)
  IsSecured-apply headers key value e =
      values_at-apply_secure_headers key headers config.security.secure_headers
      ∙ ap (λ o. or_values o (values_at key headers)) e

  relay-Presupposed : (result : ProxyResult) → Presupposed (relay services req config result)
  unfolding relay
  relay-Presupposed result = elim (Bool-cases result.success) [
    | inl e ↦ rw (e, relay) (IsSecured-apply (copy_response_headers [] result.http_headers))
    | inr e ↦ rw (e, relay) (IsSecured-apply [])
  ]

  audit_events-Presupposed :
      (input : CreateInput)
      → All Presupposed (audit_events services req config.audit_log_enabled input)
  audit_events-Presupposed input = elim (Bool-cases config.audit_log_enabled) [
    | inl e ↦ rw e (refl, tt)
    | inr e ↦ rw e tt
  ]

  -- A record is kept only where the log is on.
  create_audit-kept :
      (input : CreateInput) {id : ℕ}
      → create_audit services req config.audit_log_enabled input ≡ kept id
      → config.audit_log_enabled ≡ true
  unfolding create_audit
  create_audit-kept input h = ground arith

  broadcasts-Presupposed :
      (audit : Audit) (api : ApiRecord) (result : ProxyResult)
      → ((id : ℕ) → audit ≡ kept id → config.audit_log_enabled ≡ true)
      → services.find_route req.method (or_root services req req.path) ≡ ok (some api)
      → All Presupposed (proxy_broadcasts services req audit api result)
  unfolding proxy_broadcasts
  broadcasts-Presupposed not_kept api result h f = elim (Bool-cases services.has_hub) [
    | inl e ↦ rw e (f, tt)
    | inr e ↦ rw e tt
  ]
  broadcasts-Presupposed (kept id) api result h f =
      if-elim (All Presupposed) services.has_hub _ _
        (λ e.
          ((h id refl, e), if-elim (All Presupposed) services.has_hub _ _ (λ _. (f, tt)) (λ _. tt)))
        (λ e. tt)
  broadcasts-Presupposed lost api result h f = tt

  -- The endpoints are some of those of the configuration.
  abbrev IsStarted : List ShadowEndpoint → Type 0
  IsStarted = All (λ (e : ShadowEndpoint).
      (config.capture_enabled ≡ false) × (e.enabled ≡ true) × IsIn e config.shadow_endpoints)

  start_shadows-Presupposed :
      (audit_id : Option ℕ) (shadows : List ShadowEndpoint)
      → IsStarted shadows
      → All Presupposed (start_shadows services req audit_id shadows)
  unfolding start_shadows
  start_shadows-Presupposed audit_id [] h = tt
  start_shadows-Presupposed audit_id (e ∷ shadows) (h, hs) =
      (h, start_shadows-Presupposed audit_id shadows hs)

  keep-IsStarted :
      (l : List ShadowEndpoint)
      → config.capture_enabled ≡ false
      → ((e : ShadowEndpoint) → IsIn e l → IsIn e config.shadow_endpoints)
      → IsStarted (keep (λ endpoint. endpoint.enabled) l)
  keep-IsStarted [] c h = tt
  keep-IsStarted (e ∷ l) c h =
      if-elim IsStarted e.enabled _ _
        (λ k. ((c, k, h e here), keep-IsStarted l c (λ x i. h x (there i))))
        (λ k. keep-IsStarted l c (λ x i. h x (there i)))

  enabled_shadows-IsStarted : IsStarted (enabled_shadows services req config)
  unfolding enabled_shadows
  enabled_shadows-IsStarted =
      if-elim IsStarted config.capture_enabled _ _ (λ e. tt)
        (λ e. keep-IsStarted config.shadow_endpoints e (λ x i. i))

  shadow_events-Presupposed :
      (audit : Audit) (shadows : List ShadowEndpoint)
      → IsStarted shadows
      → All Presupposed (shadow_events services req audit shadows)
  unfolding shadow_events
  shadow_events-Presupposed not_kept shadows h = start_shadows-Presupposed none shadows h
  shadow_events-Presupposed (kept id) shadows h = start_shadows-Presupposed (some id) shadows h
  shadow_events-Presupposed lost shadows h = start_shadows-Presupposed none shadows h

  -- What the real server gives.
  abbrev real : ProxyResult
  real = services.fetch config.real_server_base_url config.header_rules

  not_configured-Presupposed : All Presupposed (not_configured services req config)
  not_configured-Presupposed = (IsSecured-apply [], tt)

  pub proxy-Presupposed :
      (api : ApiRecord)
      → services.find_route req.method (or_root services req req.path) ≡ ok (some api)
      → All Presupposed (proxy services req api config)
  unfolding proxy proxy_events
  proxy-Presupposed api f =
      if-elim (All Presupposed) (is_empty config.real_server_base_url) _ _
        (λ _. not_configured-Presupposed)
        (λ e. (
          (refl, refl, e),
          All-append Presupposed _ (relay services req config real ∷ [])
              (All-append Presupposed _ (shadow_events services req _ _)
                (All-append Presupposed _ (proxy_broadcasts services req _ api _)
                  (audit_events-Presupposed _)
                  (broadcasts-Presupposed _ api _ (λ id k. create_audit-kept _ k) f))
                (shadow_events-Presupposed _ _ enabled_shadows-IsStarted))
              (relay-Presupposed real, tt),
        ))

  capture_broadcast-Presupposed :
      (audit : Audit)
      → ((id : ℕ) → audit ≡ kept id → config.audit_log_enabled ≡ true)
      → All Presupposed (capture_broadcast services req audit)
  capture_broadcast-Presupposed not_kept h = tt
  capture_broadcast-Presupposed (kept id) h =
      if-elim (All Presupposed) services.has_hub _ _ (λ e. ((h id refl, e), tt)) (λ e. tt)
  capture_broadcast-Presupposed lost h = tt

  capture_activity-Presupposed :
      (matched : Option ApiRecord) (result : ProxyResult)
      → services.find_route req.method (or_root services req req.path) ≡ ok matched
      → All Presupposed (capture_activity services req matched result)
  unfolding capture_activity
  capture_activity-Presupposed none result f = tt
  capture_activity-Presupposed (some api) result f = told result.response_status
    where
      told :
          (status : Option ℕ)
          → All Presupposed (elim status [
            | none ↦ []
            | some n ↦
                if result.success
                then broadcast_activity services req api from_proxy (some n) true
                else []
          ])
      told none = tt
      told (some n) =
          if-elim (All Presupposed) result.success _ _
            (λ _. if-elim (All Presupposed) services.has_hub _ _ (λ _. (f, tt)) (λ _. tt)) (λ _. tt)

  pub capture_proxy-Presupposed :
      (matched : Option ApiRecord)
      → services.find_route req.method (or_root services req req.path) ≡ ok matched
      → All Presupposed (capture_proxy services req matched config)
  unfolding capture_proxy
  capture_proxy-Presupposed matched f =
      if-elim (All Presupposed) (is_empty config.real_server_base_url) _ _
        (λ _. not_configured-Presupposed)
        (λ e. (
          (refl, refl, e),
          All-append Presupposed _ (relay services req config real ∷ [])
              (All-append Presupposed _ (capture_activity services req matched _)
                (All-append Presupposed _ (capture_broadcast services req _)
                  (audit_events-Presupposed _)
                  (capture_broadcast-Presupposed _ (λ id k. create_audit-kept _ k)))
                (capture_activity-Presupposed matched _ f))
              (relay-Presupposed real, tt),
        ))
