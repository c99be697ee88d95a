-- ===== src/Proxy/Config.antt =====
-- The configuration of the proxy: the types of
-- backend/internal/features/config/proxyconfig/service.go.
use tunnelgate.Prelude.{Bool, List, Option, ℤ, ℕ_eq}
use tunnelgate.Text.{Text, text_eq}

pub record ShadowEndpoint : Type 0 where
  pub id : Text
  pub name : Text
  pub base_url : Text
  pub enabled : Bool

pub record HeaderMatchReplaceRule : Type 0 where
  pub id : Text
  pub name : Text
  pub enabled : Bool
  pub item : Text
  pub match_text : Text
  pub replace : Text
  pub rule_type : Text
  pub comment : Text

pub record PublicProxyHeader : Type 0 where
  pub id : Text
  pub name : Text
  pub value : Text
  pub enabled : Bool

pub record PublicProxySecureHeaders : Type 0 where
  pub enabled : Bool
  pub headers : List PublicProxyHeader

pub record PublicProxySecurity : Type 0 where
  pub enabled : Bool
  pub xss : Bool
  pub sql_injection : Bool
  pub rate_limit : Bool
  pub rate_limit_per_minute : ℤ
  pub secure_headers : PublicProxySecureHeaders

pub record Config : Type 0 where
  pub real_server_base_url : Text
  pub shadow_endpoints : List ShadowEndpoint
  pub capture_enabled : Bool
  pub audit_log_enabled : Bool
  pub header_rules : List HeaderMatchReplaceRule
  pub security : PublicProxySecurity
  pub updated_at : Option Text
