-- ===== src/Proxy/Settings/Normal.antt =====
-- What the normalisation of a configuration establishes:
-- backend/internal/features/config/proxyconfig/service.go.
use tunnelgate.Prelude.{
  refl, ◌+◌, ◌≤◌, ◌≡◌, ◌⊎◌, ◌&&◌, ◌∷◌, ◌++◌, ◌==◌, if◌then◌else◌, ℕ, suc, inl, inr, true, false,
  not, List, [], arith, leb, if-elim, Bool-cases, Option-cases, length, take, is_empty, length-take,
  All, ℕ_eq, eq_of_true, ℤ, pos, negsuc, is_nonpositive, int_leb, Result, ok, err, ◌>>=◌, AllOk,
  failed, passed, >>=-AllOk, >>=-AllOk_any,
}
use tunnelgate.Text.{bytes, Text, text_eq, trim_space, trim_right}
use tunnelgate.Sanitize.{control}
use tunnelgate.Proxy.Config.{
  ShadowEndpoint, HeaderMatchReplaceRule, PublicProxyHeader, PublicProxySecurity, Config,
}
use tunnelgate.Proxy.Settings.{
  Codecs, is_valid_header_name, clamp_rate, default_public_proxy_secure_headers, cleaned,
  normalized_header, normalized_headers, normalize_secure_headers, normalize_security_config,
  is_http, checked_url, normalize_url,
}
use tunnelgate.Proxy.Settings.Stored.{
  Normalized, or_numbered, rule_type_of, is_regex, checked_type, normalized_rule, normalized_rules,
  normalize_header_rules, normalized_endpoints, normalize_config,
}

abbrev pub IsEndpoint : Codecs → ShadowEndpoint → Type 0
IsEndpoint codecs endpoint =
    (is_empty endpoint.id ≡ false)
    × (is_empty endpoint.name ≡ false)
    × (is_http (codecs.parse_url endpoint.base_url) ≡ true)

abbrev pub IsRule : Codecs → HeaderMatchReplaceRule → Type 0
IsRule codecs rule =
    (is_empty rule.name ≡ false)
    × ((rule.rule_type ≡ bytes "literal")
        ⊎ ((rule.rule_type ≡ bytes "regex") × (codecs.compiles rule.match_text ≡ true)))

abbrev pub IsSecurity : PublicProxySecurity → Type 0
IsSecurity security =
    (is_nonpositive security.rate_limit_per_minute ≡ false)
    × (int_leb security.rate_limit_per_minute 10000 ≡ true)
    × (length security.secure_headers.headers ≤ 50)
    × All (λ (header : PublicProxyHeader). is_valid_header_name header.name ≡ true)
        security.secure_headers.headers

-- At most 4 shadow endpoints with ids, names and URLs of HTTP, at most 50 rules with names, each of
-- which is literal or a regular expression that compiles, a rate from 1 to 10000, and at most 50
-- headers with valid names.
unfoldable pub IsNormal :
    Codecs → List ShadowEndpoint → List HeaderMatchReplaceRule → PublicProxySecurity → Type 0
IsNormal codecs endpoints rules security =
    (length endpoints ≤ 4)
    × All (IsEndpoint codecs) endpoints
    × (length rules ≤ 50)
    × All (IsRule codecs) rules
    × IsSecurity security

-- The security.
abbrev IsRate : ℤ → Type 0
IsRate rate = (is_nonpositive rate ≡ false) × (int_leb rate 10000 ≡ true)

clamp_rate-IsRate : (rate : ℤ) → IsRate (clamp_rate rate)
clamp_rate-IsRate (pos n) =
    if-elim (λ positive. IsRate (if int_leb positive 10000 then positive else pos 10000)) (leb n 0)
      _ _ (λ _. (refl, refl))
      (λ some_rate.
        if-elim IsRate (int_leb (pos n) 10000) _ _ (λ small. (some_rate, small))
          (λ _. (refl, refl)))
clamp_rate-IsRate (negsuc n) = (refl, refl)

-- At most as many headers, all with valid names.
abbrev AreHeaders : ℕ → List PublicProxyHeader → Type 0
AreHeaders n headers =
    (length headers ≤ n)
    × All (λ (header : PublicProxyHeader). is_valid_header_name header.name ≡ true) headers

skip :
    (n : ℕ) (headers : List PublicProxyHeader) → AreHeaders n headers → AreHeaders (suc n) headers
skip n headers (h, k) = (omega (arith, h), k)

module _ (codecs : Codecs) where
  normalized_header-AreHeaders :
      (n index : ℕ) (header : PublicProxyHeader) (rest : List PublicProxyHeader)
      → AreHeaders n rest
      → AreHeaders (suc n) (normalized_header codecs index header rest)
  normalized_header-AreHeaders n index header rest h =
      elim (Option-cases (cleaned codecs header.name (bytes " name"))) [
        | inl e ↦ rw (normalized_header, e) (skip n rest h)
        | inr (name, e) ↦
            rw (normalized_header, e)
              (if-elim (AreHeaders (suc n)) (is_valid_header_name name) _ _
                (λ valid. elim (Option-cases (cleaned codecs header.value (bytes " value"))) [
                  | inl k ↦ rw k (skip n rest h)
                  | inr (value, k) ↦ rw k (omega (arith, h.0), (valid, h.1))
                ])
                (λ _. skip n rest h))
      ]

  normalized_headers-AreHeaders :
      (index : ℕ) (headers : List PublicProxyHeader)
      → AreHeaders (length headers) (normalized_headers codecs index headers)
  normalized_headers-AreHeaders index [] = (omega arith, tt)
  normalized_headers-AreHeaders index (header ∷ headers) =
      normalized_header-AreHeaders (length headers) index header _
        (normalized_headers-AreHeaders (index + 1) headers)

  pub normalize_security_config-IsSecurity :
      (security : PublicProxySecurity) → IsSecurity (normalize_security_config codecs security)
  unfolding normalize_security_config normalize_secure_headers
  normalize_security_config-IsSecurity security =
      let (positive, small) = clamp_rate-IsRate security.rate_limit_per_minute in
      let given = security.secure_headers in
      let headers =
        (if is_empty given.headers && not given.enabled
          then default_public_proxy_secure_headers.headers
          else given.headers) in
      let (short, valid) = normalized_headers-AreHeaders 0 (take 50 headers) in
      (positive, small, omega (arith, short, length-take 50 headers), valid)

  -- The rules.
  or_numbered-full :
      (name : Text) (index : ℕ)
      → is_empty (or_numbered codecs name (bytes "Header rule ") index) ≡ false
  or_numbered-full name index =
      if-elim (λ (s : Text). is_empty s ≡ false) (is_empty name) _ _ (λ _. refl) (λ h. h)

  or_numbered-full_shadow :
      (name : Text) (index : ℕ) → is_empty (or_numbered codecs name (bytes "Shadow ") index) ≡ false
  or_numbered-full_shadow name index =
      if-elim (λ (s : Text). is_empty s ≡ false) (is_empty name) _ _ (λ _. refl) (λ h. h)

  abbrev IsType : Text → Text → Type 0
  IsType match_text rule_type =
      (rule_type ≡ bytes "literal")
      ⊎ ((rule_type ≡ bytes "regex") × (codecs.compiles match_text ≡ true))

  checked_type-AllOk :
      (rule_type match_text : Text)
      → AllOk (IsType match_text) (checked_type codecs rule_type match_text)
  checked_type-AllOk rule_type match_text =
      if-elim (AllOk (IsType match_text))
        (not (is_regex rule_type) && not (rule_type == bytes "literal")) _ _ (λ _. failed)
        (λ known.
          if-elim (AllOk (IsType match_text))
            (is_regex rule_type && not (codecs.compiles match_text)) _ _ (λ _. failed)
            (λ fine. passed (elim (Bool-cases (is_regex rule_type)) [
              | inl e ↦ inr (eq_of_true rule_type (bytes "regex") e, ground (arith, e, fine))
              | inr n ↦ inl (eq_of_true rule_type (bytes "literal") (ground (arith, n, known)))
            ])))

  normalized_rule-AllOk :
      (index : ℕ) (rule : HeaderMatchReplaceRule) (match_text replace : Text)
      → AllOk (IsRule codecs) (normalized_rule codecs index rule match_text replace)
  normalized_rule-AllOk index rule match_text replace =
      >>=-AllOk (IsType match_text) (IsRule codecs)
        (checked_type codecs (rule_type_of rule.rule_type) match_text) _
        (checked_type-AllOk (rule_type_of rule.rule_type) match_text)
        (λ rule_type typed.
          >>=-AllOk_any (IsRule codecs)
            (control codecs.patterns (trim_space rule.name) (bytes "Header rule name")) _
            (λ name.
              >>=-AllOk_any (IsRule codecs)
                (control codecs.patterns (trim_space rule.comment) (bytes "Header rule comment")) _
                (λ comment. passed (or_numbered-full name index, typed))))

  -- At most as many rules, each of them as it should be.
  abbrev AreRules : ℕ → List HeaderMatchReplaceRule → Type 0
  AreRules n rules = (length rules ≤ n) × All (IsRule codecs) rules

  longer :
      (n : ℕ) (rules : Result (List HeaderMatchReplaceRule))
      → AllOk (AreRules n) rules
      → AllOk (AreRules (suc n)) rules
  longer n (err message) h = failed
  longer n (ok rules) (passed (short, good)) = passed (omega (arith, short), good)

  normalized_rules-AllOk :
      (index : ℕ) (rules : List HeaderMatchReplaceRule)
      → AllOk (AreRules (length rules)) (normalized_rules codecs index rules)
  normalized_rules-AllOk index [] = passed (omega arith, tt)
  normalized_rules-AllOk index (rule ∷ rules) =
      let n = length rules in
      let later = normalized_rules-AllOk (index + 1) rules in
      >>=-AllOk_any (AreRules (suc n))
        (control codecs.patterns (trim_space rule.match_text) (bytes "Header match")) _
        (λ match_text.
          >>=-AllOk_any (AreRules (suc n))
            (control codecs.patterns (trim_space rule.replace) (bytes "Header replace")) _
            (λ replace.
              if-elim (AllOk (AreRules (suc n))) (is_empty match_text && is_empty replace)
                (normalized_rules codecs (index + 1) rules)
                (normalized_rule codecs index rule match_text replace >>= λ first.
                  normalized_rules codecs (index + 1) rules >>= λ rest. ok (first ∷ rest))
                (λ _. longer n (normalized_rules codecs (index + 1) rules) later)
                (λ _.
                  >>=-AllOk (IsRule codecs) (AreRules (suc n))
                    (normalized_rule codecs index rule match_text replace)
                    (λ first.
                      normalized_rules codecs (index + 1) rules >>= λ rest. ok (first ∷ rest))
                    (normalized_rule-AllOk index rule match_text replace)
                    (λ first is_rule.
                      >>=-AllOk (AreRules n) (AreRules (suc n))
                        (normalized_rules codecs (index + 1) rules) (λ rest. ok (first ∷ rest))
                        later
                        (λ rest (short, good). passed (omega (arith, short), (is_rule, good)))))))

  -- At most as many endpoints, each of them as it should be.
  abbrev AreEndpoints : ℕ → List ShadowEndpoint → Type 0
  AreEndpoints n endpoints = (length endpoints ≤ n) × All (IsEndpoint codecs) endpoints

  -- A URL that may not be empty is one of HTTP.
  normalize_url-IsHttp :
      (value field_name : Text)
      → AllOk
          (λ url. is_http (codecs.parse_url url) ≡ true)
          (normalize_url codecs value field_name false)
  unfolding normalize_url
  normalize_url-IsHttp value field_name =
      >>=-AllOk_any IsHttp (control codecs.patterns (trim_space value) field_name)
        (λ clean. checked_url codecs field_name false (trim_right clean b'/'))
        (λ clean.
          let cut = trim_right clean b'/' in
          if-elim (AllOk IsHttp) (is_empty cut && false) (ok [])
            (if is_http (codecs.parse_url cut)
              then ok cut
              else err (field_name ++ bytes " must be a valid URL"))
            (λ e. absurd (ground (arith, e)))
            (λ _.
              if-elim (AllOk IsHttp) (is_http (codecs.parse_url cut)) (ok cut)
                (err (field_name ++ bytes " must be a valid URL")) (λ h. passed h) (λ _. failed)))
    where
      IsHttp : Text → Type 0
      IsHttp url = is_http (codecs.parse_url url) ≡ true

  normalized_endpoints-AllOk :
      (index : ℕ) (endpoints : List ShadowEndpoint)
      → AllOk (AreEndpoints (length endpoints)) (normalized_endpoints codecs index endpoints)
  unfolding normalized_endpoints
  normalized_endpoints-AllOk index [] = passed (omega arith, tt)
  normalized_endpoints-AllOk index (endpoint ∷ endpoints) =
      let n = length endpoints in
      >>=-AllOk_any (AreEndpoints (suc n))
        (control codecs.patterns (trim_space endpoint.name) (bytes "Shadow endpoint name")) _
        (λ name.
          >>=-AllOk (λ url. is_http (codecs.parse_url url) ≡ true) (AreEndpoints (suc n))
            (normalize_url codecs endpoint.base_url (bytes "Shadow endpoint") false) _
            (normalize_url-IsHttp endpoint.base_url (bytes "Shadow endpoint"))
            (λ base_url http.
              >>=-AllOk (AreEndpoints n) (AreEndpoints (suc n))
                (normalized_endpoints codecs (index + 1) endpoints)
                (λ rest. ok (
                  record {
                    id = bytes "shadow-" ++ codecs.itoa (index + 1);
                    name = or_numbered codecs name (bytes "Shadow ") index;
                    base_url = base_url;
                    enabled = endpoint.enabled;
                  }
                  ∷ rest))
                (normalized_endpoints-AllOk (index + 1) endpoints)
                (λ rest (short, good). passed (
                  omega (arith, short),
                  ((refl, or_numbered-full_shadow name index, http), good),
                ))))

  -- What `save` writes is normal.
  pub normalize_config-AllOk :
      (config : Config)
      → AllOk
          (λ (n : Normalized). IsNormal codecs n.endpoints n.rules n.security)
          (normalize_config codecs config)
  unfolding normalize_config normalize_header_rules IsNormal
  normalize_config-AllOk config =
      let endpoints = take 4 config.shadow_endpoints in
      let rules = take 50 config.header_rules in
      >>=-AllOk_any IsNormalized
        (normalize_url codecs config.real_server_base_url (bytes "Real server endpoint") true) _
        (λ base_url.
          >>=-AllOk (AreEndpoints (length endpoints)) IsNormalized
            (normalized_endpoints codecs 0 endpoints) _ (normalized_endpoints-AllOk 0 endpoints)
            (λ found (few, good).
              >>=-AllOk (AreRules (length rules)) IsNormalized (normalized_rules codecs 0 rules) _
                (normalized_rules-AllOk 0 rules)
                (λ kept (short, proper). passed (
                  omega (arith, few, length-take 4 config.shadow_endpoints),
                  good,
                  omega (arith, short, length-take 50 config.header_rules),
                  proper,
                  normalize_security_config-IsSecurity config.security,
                ))))
    where
      IsNormalized : Normalized → Type 0
      IsNormalized n = IsNormal codecs n.endpoints n.rules n.security
