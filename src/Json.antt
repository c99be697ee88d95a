-- ===== src/Json.antt =====
-- The values that `encoding/json` gives for the type `any`. A number keeps its spelling. A slice
-- of bytes, which no JSON text gives, is `raw`.
use tunnelgate.Prelude.{List, [], ◌∷◌, Bool, Option, none, some, ◌==◌, if◌then◌else◌}
use tunnelgate.Text.{Text, text_eq}

mutual
  pub data Value : Type 0 where
    null : Value
    boolean : Bool → Value
    number : Text → Value
    text : Text → Value
    array : Items → Value
    object : Fields → Value
    raw : Text → Value

  pub data Items : Type 0 where
    nil : Items
    cons : Value → Items → Items

  pub data Fields : Type 0 where
    end : Fields
    field : Text → Value → Fields → Fields

-- The keys of a map, in the order of one walk over it.
abbrev pub keys : Fields → List Text
keys end = []
keys (field key value rest) = key ∷ keys rest

abbrev pub get : Text → Fields → Option Value
get key end = none
get key (field k value rest) = if k == key then some value else get key rest
