-- ===== src/MockApi/Types.antt =====
-- The types of backend/internal/features/api-specs/types.go. Texts that hold JSON stay texts.
use tunnelgate.Prelude.{ℕ, Bool, List, [], ◌∷◌, ◌==◌, if◌then◌else◌}
use tunnelgate.Text.{Text, text_eq}

pub record ResponseExample : Type 0 where
  pub status : ℕ
  pub name : Text
  pub body : Text
  pub body_type : Text
  pub response_headers : Text

abbrev pub RequestBodyTypes : Type 0
RequestBodyTypes = List (Text × Text)

-- Reading a map of strings: a missing key gives the empty string.
abbrev pub type_at : RequestBodyTypes → Text → Text
type_at [] key = []
type_at ((k, type_name) ∷ types) key = if k == key then type_name else type_at types key

pub record StoredApi : Type 0 where
  pub internal_id : ℕ
  pub id : Text
  pub collection_name : Text
  pub route_name : Text
  pub postman_folder_path : Text
  pub method : Text
  pub route_path : Text
  pub mock_enabled : Bool
  pub proxy_enabled : Bool
  pub response_status : ℕ
  pub response_body : Text
  pub response_body_type : Text
  pub request_headers : Text
  pub response_headers : Text
  pub request_body_keys : Text
  pub request_body_types : Text
  pub request_body_raw : Text
  pub request_body_type : Text
  pub request_param_keys : Text
  pub request_param_types : Text
  pub updated_at : Text

pub record ApiRecord : Type 0 where
  pub internal_id : ℕ
  pub id : Text
  pub collection_name : Text
  pub route_name : Text
  pub postman_folder_path : List Text
  pub method : Text
  pub route_path : Text
  pub resolved_route_path : Text
  pub mock_enabled : Bool
  pub proxy_enabled : Bool
  pub response_status : ℕ
  pub response_body : Text
  pub response_body_type : Text
  pub request_headers : Text
  pub response_headers : Text
  pub response_examples : List ResponseExample
  pub request_body_raw : Text
  pub request_body_type : Text
  pub expected_request_keys : List Text
  pub expected_request_types : RequestBodyTypes
  pub expected_param_keys : List Text
  pub expected_param_types : RequestBodyTypes
  pub updated_at : Text

pub record Definition : Type 0 where
  pub collection_name : Text
  pub route_name : Text
  pub postman_folder_path : List Text
  pub method : Text
  pub route_path : Text
  pub response_status : ℕ
  pub response_body : Text
  pub response_body_type : Text
  pub request_headers : Text
  pub response_headers : Text
  pub response_examples : List ResponseExample
  pub request_body_raw : Text
  pub request_body_type : Text
  pub request_body_keys : List Text
  pub request_body_types : RequestBodyTypes
  pub request_param_keys : List Text
  pub request_param_types : RequestBodyTypes
