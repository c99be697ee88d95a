-- ===== src/Postman/Types.antt =====
-- The types of backend/internal/postman/parser.go. A list that is nil is the empty one.
use tunnelgate.Prelude.{ℕ, Bool, Option, List, ℕ_eq, ℤ}
use tunnelgate.Text.{Text, text_eq}
use tunnelgate.Json.{Value}

pub record ParsedExample : Type 0 where
  pub status : ℕ
  pub name : Text
  pub body : Text

-- The maps of types, with the entries in the order of their assignment, the last one first.
abbrev pub BodyTypes : Type 0
BodyTypes = List (Text × Text)

pub record ParsedDefinition : Type 0 where
  pub collection_name : Text
  pub route_name : Text
  pub postman_folder_path : List Text
  pub method : Text
  pub route_path : Text
  pub response_status : ℕ
  pub response_body : Text
  pub response_examples : List ParsedExample
  pub request_body_raw : Text
  pub request_body_type : Text
  pub request_body_keys : List Text
  pub request_body_types : BodyTypes
  pub request_param_keys : List Text

pub record QueryString : Type 0 where
  pub key : Text
  pub disabled : Bool

pub record UrlValue : Type 0 where
  pub raw : Text
  pub path : List Text
  pub query : List QueryString

pub record BodyEntry : Type 0 where
  pub key : Text
  pub value : Value
  pub type_name : Text
  pub disabled : Bool

-- The nested structs `GraphQL` and `Options` are spelled out.
pub record RequestBody : Type 0 where
  pub mode : Text
  pub raw : Text
  pub url_encoded : List BodyEntry
  pub form_data : List BodyEntry
  pub graphql_query : Text
  pub graphql_variables : Text
  pub raw_language : Text

pub record Request : Type 0 where
  pub method : Text
  pub url : UrlValue
  pub body : RequestBody

pub record Response : Type 0 where
  pub name : Text
  pub code : ℤ
  pub body : Text

mutual
  pub data Item : Type 0 where
    item : Text → ItemList → Option Request → List Response → Item

  pub data ItemList : Type 0 where
    no_items : ItemList
    item_cons : Item → ItemList → ItemList

pub record Collection : Type 0 where
  pub name : Text
  pub items : Option ItemList
