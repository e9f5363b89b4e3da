-- ===== src/Json.antt =====
-- The values of JSON.parse, and how packages/core/src/network/TrackerProtocol.ts reads them.
use aether_web_lite.Prelude.{
  ℕ, ◌-◌, ◌^◌, Bool, Option, none, some, ltb, if◌then◌else◌, ◌==◌, List, [], ◌∷◌,
}
use aether_web_lite.Prelude.Text.{Text, text_eq}

-- A whole number; `negsuc n` is `-(n + 1)`.
pub data ℤ : Type 0 where
  pos negsuc : ℕ → ℤ

-- A number that is not whole is told from the others and no more.
mutual
  pub data Json : Type 0 where
    null fraction : Json
    boolean : Bool → Json
    integer : ℤ → Json
    string : Text → Json
    array : Items → Json
    object : Fields → Json

  pub data Items : Type 0 where
    done : Items
    item : Json → Items → Items

  pub data Fields : Type 0 where
    end : Fields
    field : Text → Json → Fields → Fields

-- `d.key`; `none` is `undefined`. JSON.parse keeps one value for each key.
unfoldable pub get_field : Text → Fields → Option Json
get_field key end = none
get_field key (field k value fields) = if k == key then some value else get_field key fields

abbrev pub items : Items → List Json
items done = []
items (item value rest) = value ∷ items rest

-- `typeof v === 'object' && v !== null && !Array.isArray(v)`
abbrev pub plain_object : Option Json → Option Fields
plain_object (some (object fields)) = some fields
plain_object _ = none

-- `typeof v === 'string'`
abbrev pub string_of : Option Json → Option Text
string_of (some (string text)) = some text
string_of _ = none

-- Number.isSafeInteger
abbrev pub is_safe : ℤ → Bool
is_safe (pos n) = ltb n (2 ^ 53)
is_safe (negsuc n) = ltb n (2 ^ 53 - 1)

abbrev pub safe_integer : Option Json → Option ℤ
safe_integer (some (integer n)) = if is_safe n then some n else none
safe_integer _ = none

-- `Number.isSafeInteger(v) && v >= 0`
abbrev pub safe_natural : Option Json → Option ℕ
safe_natural (some (integer (pos n))) = if ltb n (2 ^ 53) then some n else none
safe_natural _ = none
