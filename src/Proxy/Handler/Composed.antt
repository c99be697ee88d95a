-- ===== src/Proxy/Handler/Composed.antt =====
-- The pipeline on the store of the API specs: `Middleware` with the lookups of MockApi.Lookup.
use tunnelgate.Prelude.{ℕ, true, false, List, [], ◌∷◌, ◌≡◌, ◌∙◌, sym, ok, All, ℕ_eq}
use tunnelgate.Text.{Text, text_eq}
use tunnelgate.MockApi.Types.{RequestBodyTypes}
use tunnelgate.MockApi.Routes.{Variables}
use tunnelgate.MockApi.Store.{Store}
use tunnelgate.MockApi.Lookup.{find_active_mock}
use tunnelgate.MockApi.Lookup.Sound.{IsFound, find_route_in-some}
use tunnelgate.Proxy.Config.{Config}
use tunnelgate.Proxy.Headers.{is_web_socket_upgrade}
use tunnelgate.Proxy.RateLimit.{Buckets}
use tunnelgate.Proxy.Security.{Request}
use tunnelgate.Proxy.Services.{
  Services, Event, activity, from_mock, from_proxy, fetched, shadow_started, audited,
  audit_broadcast, replied, web_socket_served, passed_on,
}
use tunnelgate.Proxy.Forward.{or_root}
use tunnelgate.Proxy.Forward.Guarded.{Presupposed}
use tunnelgate.Proxy.Handler.{middleware}
use tunnelgate.Proxy.Handler.Guarded.{middleware-Presupposed}

ok_injective : {A : Type 0} {a b : A} → ok a ≡ ok b → a ≡ b
ok_injective e = cc

module _ (new_id : ℕ → Text) (parse_strings : Text → List Text)
    (parse_types : Text → RequestBodyTypes) (store : Store) (env_vars : Variables)
    (services : Services) (req : Request) where
  -- A mock that is reported is that of a row of the store.
  abbrev pub IsStored : Event → Type 0
  IsStored (activity api from_mock status success) =
      IsFound new_id parse_strings parse_types store env_vars req.method
        (or_root services req req.path) true api
  IsStored _ = Unit

  -- The lookup of the services is that of the store.
  abbrev pub IsWired : Type 0
  IsWired =
      (method path : Text)
      → services.find_active_mock method path
        ≡ ok (find_active_mock new_id parse_strings parse_types store env_vars method path).1

  IsStored-event :
      (config : Config) (event : Event)
      → IsWired
      → Presupposed services req config event
      → IsStored event
  unfolding find_active_mock
  IsStored-event config (activity api from_mock status success) wired (c, s, e) =
      find_route_in-some new_id parse_strings parse_types store env_vars req.method
        (or_root services req req.path) true api
        (ok_injective (sym (wired req.method (or_root services req req.path)) ∙ s.found))
  IsStored-event config (activity api from_proxy status success) wired p = tt
  IsStored-event config (fetched base rules) wired p = tt
  IsStored-event config (shadow_started endpoint audit_id) wired p = tt
  IsStored-event config (audited input) wired p = tt
  IsStored-event config (audit_broadcast id) wired p = tt
  IsStored-event config (replied status headers reply) wired p = tt
  IsStored-event config (web_socket_served target) wired p = tt
  IsStored-event config passed_on wired p = tt

  All-IsStored :
      (config : Config) (events : List Event)
      → IsWired
      → All (Presupposed services req config) events
      → All IsStored events
  All-IsStored config [] wired h = tt
  All-IsStored config (event ∷ events) wired (p, h) =
      (IsStored-event config event wired p, All-IsStored config events wired h)

  -- With the lookup of the store behind it, `Middleware` reports a mock only if it is the record of
  -- a row of the store that is enabled for mocking, has the request's method, and has a route path
  -- that matches the request's path. The configuration is readable, and the request no upgrade to a
  -- web socket.
  pub middleware-IsStored :
      (config : Config) (limiter : Buckets) (now : ℕ)
      → IsWired
      → services.config ≡ ok config
      → is_web_socket_upgrade req.headers ≡ false
      → All IsStored (middleware services req limiter now).1
  middleware-IsStored config limiter now wired c w =
      All-IsStored config _ wired (middleware-Presupposed services req config limiter now c w)
