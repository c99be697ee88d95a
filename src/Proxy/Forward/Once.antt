-- ===== src/Proxy/Forward/Once.antt =====
-- A request that is sent on is answered once, at the end.
use tunnelgate.Prelude.{
  if-elim, refl, ◌≡◌, ◌&&◌, ◌∷◌, ◌++◌, if◌then◌else◌, ℕ, Bool, true, false, not, Option, none, some,
  List, [], is_empty, All, All-append, ℕ_eq,
}
use tunnelgate.Text.{text_eq}
use tunnelgate.MockApi.Types.{ApiRecord}
use tunnelgate.Proxy.Config.{Config, ShadowEndpoint}
use tunnelgate.Proxy.Security.{Request}
use tunnelgate.Proxy.Services.{
  ProxyResult, CreateInput, from_proxy, Event, fetched, replied, web_socket_served, passed_on,
  Services,
}
use tunnelgate.Proxy.Forward.{
  Audit, not_kept, kept, lost, proxy, capture_proxy, relay, proxy_broadcasts, start_shadows,
  shadow_events, proxy_events, capture_activity, capture_broadcast, audit_events,
  broadcast_activity, websocket_passthrough,
}

abbrev pub is_answer : Event → Bool
is_answer (replied status headers reply) = true
is_answer (web_socket_served target) = true
is_answer passed_on = true
is_answer _ = false

-- The last thing is an answer, and the only one.
unfoldable pub ends_in_answer : List Event → Bool
ends_in_answer [] = false
ends_in_answer (e ∷ []) = is_answer e
ends_in_answer (e ∷ f ∷ rest) = not (is_answer e) && ends_in_answer (f ∷ rest)

abbrev IsSilent : List Event → Type 0
IsSilent = All (λ e. is_answer e ≡ false)

pub ends_in_answer-append :
    (l : List Event) (a : Event)
    → All (λ e. is_answer e ≡ false) l
    → is_answer a ≡ true
    → ends_in_answer (l ++ a ∷ []) ≡ true
unfolding ends_in_answer
ends_in_answer-append [] a h k = k
ends_in_answer-append (e ∷ []) a (h, hs) k = rw (h, k) refl
ends_in_answer-append (e ∷ f ∷ l) a (h, hs) k = rw h (ends_in_answer-append (f ∷ l) a hs k)

module _ (services : Services) (req : Request) (config : Config) where
  append-IsSilent : (l m : List Event) → IsSilent l → IsSilent m → IsSilent (l ++ m)
  append-IsSilent = All-append (λ e. is_answer e ≡ false)

  relay-is_answer : (result : ProxyResult) → is_answer (relay services req config result) ≡ true
  unfolding relay
  relay-is_answer result =
      if-elim (λ e. is_answer e ≡ true) (not result.success) _ _ (λ _. refl) (λ _. refl)

  audit_events-IsSilent :
      (enabled : Bool) (input : CreateInput) → IsSilent (audit_events services req enabled input)
  audit_events-IsSilent true input = (refl, tt)
  audit_events-IsSilent false input = tt

  activity-IsSilent :
      (api : ApiRecord) (status : Option ℕ) (success : Bool)
      → IsSilent (broadcast_activity services req api from_proxy status success)
  activity-IsSilent api status success =
      if-elim IsSilent services.has_hub _ _ (λ _. (refl, tt)) (λ _. tt)

  broadcasts-IsSilent :
      (audit : Audit) (api : ApiRecord) (result : ProxyResult)
      → IsSilent (proxy_broadcasts services req audit api result)
  unfolding proxy_broadcasts
  broadcasts-IsSilent not_kept api result = activity-IsSilent api _ _
  broadcasts-IsSilent (kept id) api result =
      if-elim IsSilent services.has_hub _ _ (λ _. (refl, activity-IsSilent api _ _)) (λ _. tt)
  broadcasts-IsSilent lost api result = tt

  start_shadows-IsSilent :
      (audit_id : Option ℕ) (shadows : List ShadowEndpoint)
      → IsSilent (start_shadows services req audit_id shadows)
  unfolding start_shadows
  start_shadows-IsSilent audit_id [] = tt
  start_shadows-IsSilent audit_id (e ∷ shadows) = (refl, start_shadows-IsSilent audit_id shadows)

  shadow_events-IsSilent :
      (audit : Audit) (shadows : List ShadowEndpoint)
      → IsSilent (shadow_events services req audit shadows)
  unfolding shadow_events
  shadow_events-IsSilent not_kept shadows = start_shadows-IsSilent none shadows
  shadow_events-IsSilent (kept id) shadows = start_shadows-IsSilent (some id) shadows
  shadow_events-IsSilent lost shadows = start_shadows-IsSilent none shadows

  abbrev real : ProxyResult
  real = services.fetch config.real_server_base_url config.header_rules

  pub proxy-ends_in_answer :
      (api : ApiRecord) → ends_in_answer (proxy services req api config) ≡ true
  unfolding proxy proxy_events
  proxy-ends_in_answer api =
      if-elim (λ l. ends_in_answer l ≡ true) (is_empty config.real_server_base_url) _ _
        (λ _. unfold ends_in_answer in refl)
        (λ _.
          ends_in_answer-append (fetched _ _ ∷ _) (relay services req config real)
            (
              refl,
              append-IsSilent _ (shadow_events services req _ _)
                  (append-IsSilent _ (proxy_broadcasts services req _ api _)
                    (audit_events-IsSilent config.audit_log_enabled _)
                    (broadcasts-IsSilent _ api _))
                  (shadow_events-IsSilent _ _),
            )
            (relay-is_answer real))

  capture_broadcast-IsSilent : (audit : Audit) → IsSilent (capture_broadcast services req audit)
  capture_broadcast-IsSilent not_kept = tt
  capture_broadcast-IsSilent (kept id) =
      if-elim IsSilent services.has_hub _ _ (λ _. (refl, tt)) (λ _. tt)
  capture_broadcast-IsSilent lost = tt

  capture_activity-IsSilent :
      (matched : Option ApiRecord) (result : ProxyResult)
      → IsSilent (capture_activity services req matched result)
  unfolding capture_activity
  capture_activity-IsSilent none result = tt
  capture_activity-IsSilent (some api) result = told result.response_status
    where
      told :
          (status : Option ℕ)
          → IsSilent (elim status [
            | none ↦ []
            | some n ↦
                if result.success
                then broadcast_activity services req api from_proxy (some n) true
                else []
          ])
      told none = tt
      told (some n) =
          if-elim IsSilent result.success _ _ (λ _. activity-IsSilent api (some n) true) (λ _. tt)

  pub capture_proxy-ends_in_answer :
      (matched : Option ApiRecord)
      → ends_in_answer (capture_proxy services req matched config) ≡ true
  unfolding capture_proxy
  capture_proxy-ends_in_answer matched =
      if-elim (λ l. ends_in_answer l ≡ true) (is_empty config.real_server_base_url) _ _
        (λ _. unfold ends_in_answer in refl)
        (λ _.
          ends_in_answer-append (fetched _ _ ∷ _) (relay services req config real)
            (
              refl,
              append-IsSilent _ (capture_activity services req matched _)
                  (append-IsSilent _ (capture_broadcast services req _)
                    (audit_events-IsSilent config.audit_log_enabled _)
                    (capture_broadcast-IsSilent _))
                  (capture_activity-IsSilent matched _),
            )
            (relay-is_answer real))

  pub websocket_passthrough-ends_in_answer :
      ends_in_answer (websocket_passthrough services req config) ≡ true
  unfolding websocket_passthrough ends_in_answer
  websocket_passthrough-ends_in_answer =
      if-elim (λ l. ends_in_answer l ≡ true) (is_empty config.real_server_base_url) _ _ (λ _. refl)
        (λ _.
          if-elim (λ l. ends_in_answer l ≡ true)
            (services.is_served_url (services.target_url config.real_server_base_url req.uri)) _ _
            (λ _. refl) (λ _. refl))
