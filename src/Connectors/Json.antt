-- ===== src/Connectors/Json.antt =====
-- A JSON value as Python's `json` reads it, with the accesses that the connectors share. An object
-- is the list of its items; no key stands there twice.
use enterprise_communication.Prelude.{ℕ, Bool, true, false, Option, none, some, if◌then◌else◌}
use enterprise_communication.Text.{Text, text_eq, is_empty, strip}

mutual
  pub data Json : Type 0 where
    null : Json
    boolean : Bool → Json
    natural : ℕ → Json
    -- -(n + 1), and any float
    negative : ℕ → Json
    float : ℕ → Json
    string : Text → Json
    array : Items → Json
    object : Fields → Json

  pub data Items : Type 0 where
    end : Items
    item : Json → Items → Items

  pub data Fields : Type 0 where
    closed : Fields
    field : Text → Json → Fields → Fields

-- `payload.get(key)`: a missing key reads as `None`.
unfoldable pub get : Text → Fields → Json
get key closed = null
get key (field k value fields) = let rest = get key fields in if text_eq k key then value else rest

-- The items of what is a list, and the items of what is a dictionary
abbrev pub items : Json → Items
items (array elements) = elements
items _ = end

abbrev pub object_of : Json → Option Fields
object_of (object fields) = some fields
object_of _ = none

-- `isinstance(value, str)`
abbrev pub string_of : Json → Option Text
string_of (string s) = some s
string_of _ = none

-- A string that is not blank, as it stands
abbrev pub not_blank : Option Text → Option Text
not_blank none = none
not_blank (some s) = if is_empty (strip s) then none else some s

-- `_required_text`
unfoldable pub required_text : Json → Option Text
required_text value = not_blank (string_of value)

-- `key in item`
unfoldable pub has_key : Text → Fields → Bool
has_key key closed = false
has_key key (field k v fields) =
    let later = has_key key fields in if text_eq k key then true else later
