-- ===== src/Proxy/Headers/Secure.antt =====
-- What the secure headers of the configuration do to a response.
use tunnelgate.Prelude.{
  refl, ◌≡◌, ◌&&◌, ◌∷◌, ◌==◌, if◌then◌else◌, Bool, not, Option, none, some, List, [], arith,
  Option-cases, is_empty, ℕ_eq,
}
use tunnelgate.Text.{Text, text_eq, trim_space}
use tunnelgate.Proxy.Config.{PublicProxyHeader, PublicProxySecureHeaders}
use tunnelgate.Proxy.Headers.{
  Headers, values_at, set_header, canonical_key, set_secure, apply_secure_headers,
}
use tunnelgate.Proxy.Headers.Laws.{values_at-put_values}

abbrev pub is_in_force : PublicProxyHeader → Bool
is_in_force header = header.enabled && not (is_empty (trim_space header.name))

-- The value that a list of headers fixes for a key: that of the last one in force with its name.
unfoldable pub fixed : Text → List PublicProxyHeader → Option Text
fixed key [] = none
fixed key (header ∷ rest) = elim (fixed key rest) [
  | some value ↦ some value
  | none ↦
      if is_in_force header && canonical_key header.name == key then some header.value else none
]

unfoldable pub secure_value : PublicProxySecureHeaders → Text → Option Text
secure_value config key = if config.enabled then fixed key config.headers else none

abbrev pub or_values : Option Text → List Text → List Text
or_values none values = values
or_values (some value) values = value ∷ []

values_at-set_secure :
    (key : Text) (headers : Headers) (rest : List PublicProxyHeader)
    → values_at key (set_secure headers rest) ≡ or_values (fixed key rest) (values_at key headers)
unfolding set_secure fixed
values_at-set_secure key headers [] = refl
values_at-set_secure key headers (header ∷ rest) = ground (
  arith,
  values_at-set_secure key headers rest,
  values_at-set_secure key (set_header header.name header.value headers) rest,
  values_at-put_values key (canonical_key header.name) (header.value ∷ []) headers,
  Option-cases (fixed key rest),
)

-- After `applySecureHeaders` a key has the one value that the configuration fixes for it (that of
-- the last enabled header of this name, if secure headers are on), and the values it had where the
-- configuration fixes none.
pub values_at-apply_secure_headers :
    (key : Text) (headers : Headers) (config : PublicProxySecureHeaders)
    → values_at key (apply_secure_headers headers config)
      ≡ or_values (secure_value config key) (values_at key headers)
unfolding apply_secure_headers secure_value
values_at-apply_secure_headers key headers config =
    ground (arith, values_at-set_secure key headers config.headers)
