-- ===== src/Proxy/Settings/Saved.antt =====
-- What holds of a configuration that was saved:
-- backend/internal/features/config/proxyconfig/service.go.
use tunnelgate.Prelude.{
  refl, ◌+◌, ◌≤◌, ◌≡◌, ◌∙◌, ◌∷◌, ◌==◌, if◌then◌else◌, ℕ, sym, ap, inl, inr, Bool, true, false,
  Option, some, List, [], arith, if-elim, Bool-cases, length, is_empty, All, ℕ_eq, eq_refl,
  eq_of_true, ok, ◌>>=◌, AllOk-ok,
}
use tunnelgate.Text.{Text, text_eq, trim_space}
use mathlib.Core.Path.{ap₂, subst}
use tunnelgate.Proxy.Config.{ShadowEndpoint, Config}
use tunnelgate.Proxy.Settings.{
  default_public_proxy_security, parse_bool_config, Settings, upsert_key_value, get_config, Codecs,
  normalize_security_config,
}
use tunnelgate.Proxy.Settings.Normal.{
  IsEndpoint, IsRule, IsSecurity, IsNormal, normalize_security_config-IsSecurity,
  normalize_config-AllOk,
}
use tunnelgate.Proxy.Settings.Stored.{
  real_server_base_url_key, shadow_endpoints_key, capture_enabled_key, audit_log_enabled_key,
  header_match_replace_key, public_proxy_security_key, Normalized, format_bool, normalize_config,
  write_config, with_ids, stored_endpoints, stored_rules, get, save,
}

get_config-upsert_same :
    (key value now : Text) (rows : Settings)
    → get_config (upsert_key_value key value now rows) key ≡ (value, some now)
get_config-upsert_same key value now [] = rw (eq_refl key) refl
get_config-upsert_same key value now ((k, v, updated_at) ∷ rows) = elim (Bool-cases (k == key)) [
  | inl e ↦ rw (e, eq_refl key) refl
  | inr n ↦ rw (n, n) (get_config-upsert_same key value now rows)
]

get_config-upsert_other :
    (key other value now : Text) (rows : Settings)
    → (key == other) ≡ false
    → get_config (upsert_key_value key value now rows) other ≡ get_config rows other
get_config-upsert_other key other value now [] h = rw h refl
get_config-upsert_other key other value now ((k, v, updated_at) ∷ rows) h =
    elim (Bool-cases (k == key)) [
      | inl e ↦ rw (e, h, ap (λ t. t == other) (eq_of_true k key e) ∙ h) refl
      | inr n ↦ rw n (
          ap (λ (r : Text × Option Text). if k == other then (v, some updated_at) else r)
            (get_config-upsert_other key other value now rows h))
    ]

format_bool-full : (b : Bool) → is_empty (trim_space (format_bool b)) ≡ false
unfolding trim_space
format_bool-full true = refl
format_bool-full false = refl

module _ (codecs : Codecs) where
  -- The codecs read what they write of these values, and write something.
  abbrev pub ReadsBack : Normalized → Type 0
  ReadsBack normalized =
      (is_empty (codecs.write_endpoints normalized.endpoints) ≡ false)
      × (codecs.read_endpoints (codecs.write_endpoints normalized.endpoints) ≡ normalized.endpoints)
      × (is_empty (codecs.write_rules normalized.rules) ≡ false)
      × (codecs.read_rules (codecs.write_rules normalized.rules) ≡ normalized.rules)
      × (is_empty (codecs.write_security normalized.security) ≡ false)
      × (codecs.parse_bool (format_bool normalized.capture) ≡ some normalized.capture)
      × (codecs.parse_bool (format_bool normalized.audit) ≡ some normalized.audit)

  with_ids-same :
      (index : ℕ) (endpoints : List ShadowEndpoint)
      → All (IsEndpoint codecs) endpoints
      → with_ids codecs index endpoints ≡ endpoints
  with_ids-same index [] h = refl
  with_ids-same index (endpoint ∷ endpoints) ((has_id, _, _), h) =
      ap₂ ◌∷◌
        (if-elim (λ (e : ShadowEndpoint). e ≡ endpoint) (is_empty endpoint.id) _ _
          (λ e. absurd (ground (arith, e, has_id))) (λ _. refl))
        (with_ids-same (index + 1) endpoints h)

  parse_bool_config-format_bool :
      (b fallback : Bool) {value : Text}
      → value ≡ format_bool b
      → codecs.parse_bool (format_bool b) ≡ some b
      → parse_bool_config codecs.parse_bool value fallback ≡ b
  parse_bool_config-format_bool b fallback e h =
      rw (e, parse_bool_config, format_bool-full b, h) refl

  module _ (now : Text) (normalized : Normalized) (rows : Settings) where
    abbrev written : Settings
    written = write_config codecs now normalized rows

    -- The tables after each of the writes.
    abbrev with_base_url : Settings
    with_base_url = upsert_key_value real_server_base_url_key normalized.base_url now rows

    abbrev with_endpoints : Settings
    with_endpoints =
        upsert_key_value shadow_endpoints_key (codecs.write_endpoints normalized.endpoints) now
          with_base_url

    abbrev with_capture : Settings
    with_capture =
        upsert_key_value capture_enabled_key (format_bool normalized.capture) now with_endpoints

    abbrev with_audit : Settings
    with_audit =
        upsert_key_value audit_log_enabled_key (format_bool normalized.audit) now with_capture

    abbrev with_rules : Settings
    with_rules =
        upsert_key_value header_match_replace_key (codecs.write_rules normalized.rules) now
          with_audit

    abbrev with_security : Settings
    with_security =
        upsert_key_value public_proxy_security_key (codecs.write_security normalized.security) now
          with_rules

    read_base_url_value :
        get_config written real_server_base_url_key ≡ (normalized.base_url, some now)
    unfolding write_config
    read_base_url_value =
        get_config-upsert_other public_proxy_security_key real_server_base_url_key
          (codecs.write_security normalized.security) now with_rules refl
        ∙ get_config-upsert_other header_match_replace_key real_server_base_url_key
            (codecs.write_rules normalized.rules) now with_audit refl
        ∙ get_config-upsert_other audit_log_enabled_key real_server_base_url_key
            (format_bool normalized.audit) now with_capture refl
        ∙ get_config-upsert_other capture_enabled_key real_server_base_url_key
            (format_bool normalized.capture) now with_endpoints refl
        ∙ get_config-upsert_other shadow_endpoints_key real_server_base_url_key
            (codecs.write_endpoints normalized.endpoints) now with_base_url refl
        ∙ get_config-upsert_same real_server_base_url_key normalized.base_url now rows

    read_endpoints_value :
        get_config written shadow_endpoints_key
        ≡ (codecs.write_endpoints normalized.endpoints, some now)
    unfolding write_config
    read_endpoints_value =
        get_config-upsert_other public_proxy_security_key shadow_endpoints_key
          (codecs.write_security normalized.security) now with_rules refl
        ∙ get_config-upsert_other header_match_replace_key shadow_endpoints_key
            (codecs.write_rules normalized.rules) now with_audit refl
        ∙ get_config-upsert_other audit_log_enabled_key shadow_endpoints_key
            (format_bool normalized.audit) now with_capture refl
        ∙ get_config-upsert_other capture_enabled_key shadow_endpoints_key
            (format_bool normalized.capture) now with_endpoints refl
        ∙ get_config-upsert_same shadow_endpoints_key (codecs.write_endpoints normalized.endpoints)
            now with_base_url

    read_capture_value :
        get_config written capture_enabled_key ≡ (format_bool normalized.capture, some now)
    unfolding write_config
    read_capture_value =
        get_config-upsert_other public_proxy_security_key capture_enabled_key
          (codecs.write_security normalized.security) now with_rules refl
        ∙ get_config-upsert_other header_match_replace_key capture_enabled_key
            (codecs.write_rules normalized.rules) now with_audit refl
        ∙ get_config-upsert_other audit_log_enabled_key capture_enabled_key
            (format_bool normalized.audit) now with_capture refl
        ∙ get_config-upsert_same capture_enabled_key (format_bool normalized.capture) now
            with_endpoints

    read_audit_value :
        get_config written audit_log_enabled_key ≡ (format_bool normalized.audit, some now)
    unfolding write_config
    read_audit_value =
        get_config-upsert_other public_proxy_security_key audit_log_enabled_key
          (codecs.write_security normalized.security) now with_rules refl
        ∙ get_config-upsert_other header_match_replace_key audit_log_enabled_key
            (codecs.write_rules normalized.rules) now with_audit refl
        ∙ get_config-upsert_same audit_log_enabled_key (format_bool normalized.audit) now
            with_capture

    read_rules_value :
        get_config written header_match_replace_key
        ≡ (codecs.write_rules normalized.rules, some now)
    unfolding write_config
    read_rules_value =
        get_config-upsert_other public_proxy_security_key header_match_replace_key
          (codecs.write_security normalized.security) now with_rules refl
        ∙ get_config-upsert_same header_match_replace_key (codecs.write_rules normalized.rules) now
            with_audit

    read_security_value :
        get_config written public_proxy_security_key
        ≡ (codecs.write_security normalized.security, some now)
    unfolding write_config
    read_security_value =
        get_config-upsert_same public_proxy_security_key (codecs.write_security normalized.security)
          now with_rules

  -- If a configuration can be normalised and the codecs read what they write of the result, `save`
  -- succeeds, and the configuration that it gives back, which is what `get` reads afterwards, has
  -- the normalised URL, endpoints, flags and rules, and is normal: at most 4 shadow endpoints with
  -- ids, names and URLs of HTTP, at most 50 rules, each of which is literal or a regular expression
  -- that compiles, a rate from 1 to 10000, and at most 50 headers with valid names.
  pub save-IsNormal :
      (rows : Settings) (config : Config) (now : Text) {normalized : Normalized}
      → normalize_config codecs config ≡ ok normalized
      → ReadsBack normalized
      → (later : Settings) × (stored : Config) × (save codecs rows config now ≡ ok (later, stored))
        × (get codecs later ≡ stored)
        × (stored.real_server_base_url ≡ normalized.base_url)
        × (stored.shadow_endpoints ≡ normalized.endpoints)
        × (stored.capture_enabled ≡ normalized.capture)
        × (stored.audit_log_enabled ≡ normalized.audit)
        × (stored.header_rules ≡ normalized.rules)
        × IsNormal codecs stored.shadow_endpoints stored.header_rules stored.security
  unfolding save get IsNormal
  save-IsNormal rows config now {normalized} e
        (some_endpoints, endpoints, some_rules, rules, some_security, capture, audit) =
      let later = write_config codecs now normalized rows in
      let (few, good, short, proper, _) =
        AllOk-ok (λ (n : Normalized). IsNormal codecs n.endpoints n.rules n.security) e
          (normalize_config-AllOk codecs config) in
      let same_endpoints : stored_endpoints codecs (get_config later shadow_endpoints_key).0
          ≡ normalized.endpoints =
        ap (λ (r : Text × Option Text). stored_endpoints codecs r.0)
          (read_endpoints_value now normalized rows)
        ∙ rw (stored_endpoints, some_endpoints, endpoints)
            (with_ids-same 0 normalized.endpoints good) in
      let same_rules : stored_rules codecs (get_config later header_match_replace_key).0
          ≡ normalized.rules =
        ap (λ (r : Text × Option Text). stored_rules codecs r.0)
          (read_rules_value now normalized rows)
        ∙ rw (stored_rules, some_rules) rules in
      let value = (get_config later public_proxy_security_key).0 in
      let has_security : is_empty value ≡ false =
        ap (λ (r : Text × Option Text). is_empty r.0) (read_security_value now normalized rows)
        ∙ some_security in
      (
        later,
        get codecs later,
        ap
            (λ r. r >>= λ n.
              ok (write_config codecs now n rows, get codecs (write_config codecs now n rows)))
            e,
        refl,
        ap (λ (r : Text × Option Text). r.0) (read_base_url_value now normalized rows),
        same_endpoints,
        parse_bool_config-format_bool normalized.capture false
            (ap (λ (r : Text × Option Text). r.0) (read_capture_value now normalized rows)) capture,
        parse_bool_config-format_bool normalized.audit true
            (ap (λ (r : Text × Option Text). r.0) (read_audit_value now normalized rows)) audit,
        same_rules,
        (
          subst (λ es. length es ≤ 4) (sym same_endpoints) few,
          subst (All (IsEndpoint codecs)) (sym same_endpoints) good,
          subst (λ rs. length rs ≤ 50) (sym same_rules) short,
          subst (All (IsRule codecs)) (sym same_rules) proper,
          if-elim IsSecurity (is_empty value) default_public_proxy_security
              (normalize_security_config codecs
                (codecs.read_security default_public_proxy_security value))
              (λ none_there. absurd (ground (arith, none_there, has_security)))
              (λ _. normalize_security_config-IsSecurity codecs _),
        ),
      )
