-- ===== src/Accounts/Capabilities.antt =====
-- app/domain/models/capabilities.py: provider-neutral mailbox grants and their stored form.
use enterprise_communication.Prelude.{
  ◌≡◌, refl, Bool, true, false, Option, none, some, List, [], ◌∷◌, map, arith, if◌then◌else◌, any,
}
use enterprise_communication.Text.{Text, text, text_eq}
use enterprise_communication.Errors.{Result, ok, err, invalid_value, ◌>>=◌}

pub data CommunicationCapability : Type 0 where
  mail_read mail_send : CommunicationCapability

abbrev pub capability_value : CommunicationCapability → Text
capability_value mail_read = text "mail.read"
capability_value mail_send = text "mail.send"

abbrev pub capability_eq : CommunicationCapability → CommunicationCapability → Bool
capability_eq mail_read mail_read = true
capability_eq mail_send mail_send = true
capability_eq _ _ = false

-- `CommunicationCapability(item)`
unfoldable pub parse_capability : Text → Result CommunicationCapability
parse_capability t =
    if text_eq t (capability_value mail_read)
    then ok mail_read
    else if text_eq t (capability_value mail_send)
    then ok mail_send
    else err invalid_value

-- An item of the argument: `str | CommunicationCapability`.
pub data CapabilityItem : Type 0 where
  named : Text → CapabilityItem
  given : CommunicationCapability → CapabilityItem

unfoldable pub item_capability : CapabilityItem → Result CommunicationCapability
unfolding parse_capability
item_capability (named t) = parse_capability t
item_capability (given c) = ok c

-- the loop that fills `seen`
unfoldable pub collect : List CapabilityItem → Result (List CommunicationCapability)
unfolding item_capability
collect [] = ok []
collect (item ∷ items) = do c ← item_capability item; seen ← collect items; ok (c ∷ seen)

-- `tuple(capability for capability in _STABLE_ORDER if capability in seen)`
abbrev kept : Bool → Bool → List CommunicationCapability
kept reads sends =
    let last = if sends then mail_send ∷ [] else [] in if reads then mail_read ∷ last else last

unfoldable pub stable : List CommunicationCapability → List CommunicationCapability
stable seen = kept (any (capability_eq mail_read) seen) (any (capability_eq mail_send) seen)

unfoldable pub normalize_communication_capabilities :
    Option (List CapabilityItem) → Result (Option (List CommunicationCapability))
unfolding collect stable
normalize_communication_capabilities none = ok none
normalize_communication_capabilities (some items) = do seen ← collect items; ok (some (stable seen))

unfoldable pub serialize_communication_capabilities :
    Option (List CommunicationCapability) → Result (Option (List Text))
unfolding normalize_communication_capabilities
serialize_communication_capabilities none = ok none
serialize_communication_capabilities (some values) = do
  seen ← collect (map given values)
  ok (some (map capability_value (stable seen)))

-- A stored JSON value: `NULL`, an array of JSON values, or anything else.
pub data StoredItem : Type 0 where
  string : Text → StoredItem
  other_item : StoredItem

pub data StoredGrants : Type 0 where
  null : StoredGrants
  array : List StoredItem → StoredGrants
  other : StoredGrants

unfoldable pub stored_texts : List StoredItem → Result (List CapabilityItem)
stored_texts [] = ok []
stored_texts (string t ∷ items) = do ts ← stored_texts items; ok (named t ∷ ts)
stored_texts (other_item ∷ items) = err invalid_value

unfoldable pub parse_stored_communication_capabilities :
    StoredGrants → Result (Option (List CommunicationCapability))
unfolding stored_texts normalize_communication_capabilities
parse_stored_communication_capabilities null = ok none
parse_stored_communication_capabilities (array items) = do
  texts ← stored_texts items
  normalize_communication_capabilities (some texts)
parse_stored_communication_capabilities other = err invalid_value

unfoldable pub require_requested_communication_capabilities :
    List CapabilityItem → Result (List CommunicationCapability)
unfolding collect stable
require_requested_communication_capabilities items = do seen ← collect items; ok (stable seen)

unfoldable pub is_mail_send_executable : Option (List CommunicationCapability) → Bool
is_mail_send_executable none = true
is_mail_send_executable (some granted) = any (capability_eq mail_send) granted

unfoldable pub is_mail_read_allowed : Option (List CommunicationCapability) → Bool
is_mail_read_allowed none = true
is_mail_read_allowed (some granted) = any (capability_eq mail_read) granted

-- What a JSON column gives back for what was written to it.
abbrev pub stored : Option (List Text) → StoredGrants
stored none = null
stored (some ts) = array (map string ts)

abbrev pub normal : Option (List CommunicationCapability) → Option (List CommunicationCapability)
normal none = none
normal (some cs) = some (stable cs)

collect-given : (cs : List CommunicationCapability) → collect (map given cs) ≡ ok cs
unfolding collect
collect-given [] = refl
collect-given (c ∷ cs) = ground (arith, collect-given cs)

parse-kept :
    (reads sends : Bool)
    → parse_stored_communication_capabilities
        (stored (some (map capability_value (kept reads sends))))
      ≡ ok (some (kept reads sends))
unfolding parse_stored_communication_capabilities
parse-kept true true = refl
parse-kept true false = refl
parse-kept false true = refl
parse-kept false false = refl

-- Serialising grants succeeds, and parsing what the column then holds gives back the de-duplicated
-- grants in the stable order, and none for none.
pub parse-serialize :
    (cs : Option (List CommunicationCapability))
    → (ts : Option (List Text)) × (serialize_communication_capabilities cs ≡ ok ts)
      × (parse_stored_communication_capabilities (stored ts) ≡ ok (normal cs))
unfolding serialize_communication_capabilities
parse-serialize none = (none, refl, unfold parse_stored_communication_capabilities in refl)
parse-serialize (some cs) = (
  some (map capability_value (stable cs)),
  rw (collect-given cs) refl,
  parse-kept (any (capability_eq mail_read) cs) (any (capability_eq mail_send) cs),
)
