-- ===== src/AuditLog/Types.antt =====
-- The rows of the tables of the audit log and the values that are read from them
-- (backend/internal/features/audit-log/types.go, and the statements of service.go).
-- `none` is NULL, and Go's nil.
use tunnelgate.Prelude.{ℕ, Bool, Option, List, ℕ_eq}
use tunnelgate.Text.{Text, text_eq}
use tunnelgate.Proxy.Services.{ShadowTarget}

-- A row of `proxy_audit_logs`.
pub record AuditRow : Type 0 where
  pub id : ℕ
  pub public_id : Option Text
  pub api_mock_id : Option ℕ
  pub api_mock_public_id : Option Text
  pub route_name : Text
  pub method : Text
  pub route_path : Text
  pub target_url : Text
  pub response_status : Option ℕ
  pub duration_ms : ℕ
  pub success : ℕ
  pub error_message : Option Text
  pub request_headers : Text
  pub request_body : Text
  pub response_headers : Text
  pub response_body : Text
  pub shadow_targets : Text
  pub created_at : Text

-- A row of `proxy_audit_log_shadows`.
pub record ShadowRow : Type 0 where
  pub id : ℕ
  pub proxy_audit_log_id : ℕ
  pub shadow_endpoint_id : Text
  pub name : Text
  pub base_url : Text
  pub target_url : Text
  pub response_status : Option ℕ
  pub duration_ms : ℕ
  pub success : ℕ
  pub error_message : Option Text
  pub request_headers : Text
  pub request_body : Text
  pub response_headers : Text
  pub response_body : Text
  pub created_at : Text

pub record ShadowEntry : Type 0 where
  pub shadow_audit_log_id : ℕ
  pub audit_log_id : ℕ
  pub id : Text
  pub name : Text
  pub base_url : Text
  pub target_url : Text
  pub response_status : Option ℕ
  pub duration_ms : ℕ
  pub success : Bool
  pub error_message : Option Text
  pub request_headers : Text
  pub request_body : Text
  pub response_headers : Text
  pub response_body : Text

pub record PostmanExample : Type 0 where
  pub api_mock_id : Text
  pub status : ℕ
  pub name : Text
  pub response_body : Text

pub record Record : Type 0 where
  pub internal_id : ℕ
  pub id : Text
  pub api_mock_id : Option Text
  pub api_mock_db_id : Option ℕ
  pub route_name : Text
  pub method : Text
  pub route_path : Text
  pub target_url : Text
  pub response_status : Option ℕ
  pub duration_ms : ℕ
  pub success : Bool
  pub error_message : Option Text
  pub request_headers : Text
  pub request_body : Text
  pub response_headers : Text
  pub response_body : Text
  pub shadow_targets : List ShadowTarget
  pub shadow_entries : List ShadowEntry
  pub postman_example : Option PostmanExample
  pub postman_examples : List PostmanExample
  pub created_at : Text

pub record ListResult : Type 0 where
  pub items : List Record
  pub total : ℕ
  pub page : ℕ
  pub page_size : ℕ
  pub total_pages : ℕ
