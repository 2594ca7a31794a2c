-- ===== src/Connectors/GmailText.antt =====
-- The lists of messages and the text parts of a message, in
-- app/infrastructure/connectors/gmail/normalization.py. The text of an HTML part is not converted
-- here.
use enterprise_communication.Prelude.{
  Bool, false, ◌||◌, Option, none, some, List, [], ◌∷◌, ◌++◌, if◌then◌else◌,
}
use enterprise_communication.Text.{Text, text, text_eq, is_empty, strip}
use enterprise_communication.Errors.{
  Result, ok, err, connector_message_content, connector_unavailable, ◌>>=◌,
}
use enterprise_communication.Attachments.Clamd.{Bytes}
use enterprise_communication.Connectors.Json.{
  Json, null, string, Items, end, item, Fields, closed, field, object, array, get, has_key, items,
  object_of, string_of, not_blank, required_text,
}
use enterprise_communication.Connectors.MimeTree.{MailLibrary, header_values, is_attachment}
use enterprise_communication.Connectors.Gmail.{media_type}

-- The ids of the listed messages
unfoldable pub ids_of : Items → Result (List Text)
unfolding get required_text
ids_of end = ok []
ids_of (item value rest) = do
  fields ← elim (object_of value) [ none ↦ err connector_unavailable | some fields ↦ ok fields ]
  id ← elim (required_text (get (text "id") fields)) [
    | none ↦ err connector_unavailable
    | some id ↦ ok id
  ]
  ids ← ids_of rest
  ok (id ∷ ids)

abbrev messages_of : Fields → Result (List Text)
messages_of fields =
    if has_key (text "messages") fields
    then elim (get (text "messages") fields) [
      | array elements ↦ ids_of elements
      | _ ↦ err connector_unavailable
    ]
    else ok []

abbrev cursor_in : Json → Result (Option Text)
cursor_in null = ok none
cursor_in (string s) = ok (not_blank (some s))
cursor_in _ = err connector_unavailable

-- `parse_list_page`
unfoldable pub parse_list_page : Json → Result (List Text × Option Text)
unfolding ids_of get has_key
parse_list_page payload = elim (object_of payload) [
  | none ↦ err connector_unavailable
  | some fields ↦ do
    ids ← messages_of fields
    next_cursor ← cursor_in (get (text "nextPageToken") fields)
    ok (ids, next_cursor)
]

abbrev is_reason : Option Text → Bool
is_reason none = false
is_reason (some reason) =
    text_eq reason (text "quotaExceeded")
    || text_eq reason (text "rateLimitExceeded")
    || text_eq reason (text "userRateLimitExceeded")

abbrev names_reason : Option Fields → Bool
names_reason none = false
names_reason (some fields) = is_reason (string_of (get (text "reason") fields))

unfoldable pub any_reason : Items → Bool
unfolding get
any_reason end = false
any_reason (item value rest) = names_reason (object_of value) || any_reason rest

-- `gmail_rate_limit_reason`
unfoldable pub gmail_rate_limit_reason : Json → Bool
unfolding any_reason
gmail_rate_limit_reason payload = elim (object_of payload) [
  | none ↦ false
  | some fields ↦ elim (object_of (get (text "error") fields)) [
    | none ↦ false
    | some error ↦ any_reason (items (get (text "errors") error))
  ]
]

-- Also asked of Python's library: `base64.b64decode` of base64url text, with its errors as `none`,
-- the charset of a content type by `email.message`, and `bytes.decode`, where `none` stands for an
-- unknown encoding and for undecodable bytes, and its form with `errors="replace"` in UTF-8.
pub record TextLibrary : Type 0 where
  pub mail : MailLibrary
  pub decode_base64url : Text → Option Bytes
  pub content_charset : Text → Option Text
  pub decode : Text → Bytes → Option Text
  pub decode_replacing : Bytes → Text

pub data TextKind : Type 0 where
  plain html : TextKind

module _ (library : TextLibrary) where
  open library use {mail, decode_base64url, content_charset, decode, decode_replacing}

  abbrev stripped : Option Text → Option Text
  stripped value = elim (not_blank value) [ none ↦ none | some s ↦ some (strip s) ]

  -- `_charset_from_content_type`
  abbrev charset_from_content_type : Text → Option Text
  charset_from_content_type value = stripped (content_charset value)

  unfoldable pub charset_in : List Text → Option Text → Option Text
  charset_in [] other = other
  charset_in (value ∷ values) other =
      let later = charset_in values other in
      elim (charset_from_content_type value) [ some charset ↦ some charset | none ↦ later ]

  -- `_declared_charset`
  unfoldable pub declared_charset : Fields → Option Text
  unfolding charset_in header_values get
  declared_charset part =
      charset_in (header_values mail.lower part (text "content-type"))
        (elim (string_of (get (text "mimeType") part)) [
          | none ↦ none
          | some mime_type ↦ charset_from_content_type mime_type
        ])

  abbrev encoding_of : Option Text → Text
  encoding_of none = text "utf-8"
  encoding_of (some name) = name

  -- `_decode_charset`
  unfoldable pub decode_charset : Bytes → Option Text → Text
  decode_charset raw charset = elim (decode (encoding_of charset) raw) [
    | some s ↦ s
    | none ↦ decode_replacing raw
  ]

  abbrev decoded : Fields → Option Text → Result Text
  decoded part none = ok []
  decoded part (some encoded) = elim (decode_base64url encoded) [
    | none ↦ err connector_message_content
    | some raw ↦ ok (decode_charset raw (declared_charset part))
  ]

  -- `_decode_part_text`
  unfoldable pub decode_part_text : Fields → Result Text
  unfolding decode_charset declared_charset get required_text
  decode_part_text part = elim (object_of (get (text "body") part)) [
    | none ↦ ok []
    | some body ↦ decoded part (required_text (get (text "data") body))
  ]

  abbrev unless_blank : TextKind → Text → List (TextKind × Text)
  unless_blank kind s = if is_empty (strip s) then [] else (kind, s) ∷ []

  -- The text of a part itself
  unfoldable pub own_text : Fields → Result (List (TextKind × Text))
  unfolding decode_part_text media_type
  own_text part =
      let type = media_type mail part in
      if text_eq type (text "text/plain")
      then (do s ← decode_part_text part; ok (unless_blank plain s))
      else if text_eq type (text "text/html")
      then (do s ← decode_part_text part; ok (unless_blank html s))
      else ok []

  -- `_iter_text_parts`; `texts_in` and `texts_listed` look for the list of parts.
  unfoldable mutual
    unfolding own_text is_attachment

    pub iter_text_parts : Json → Result (List (TextKind × Text))
    iter_text_parts (object part) =
        let inner = texts_in part in
        if is_attachment mail part
        then ok []
        else (do own ← own_text part; nested ← inner; ok (own ++ nested))
    iter_text_parts _ = ok []

    pub texts_in : Fields → Result (List (TextKind × Text))
    texts_in closed = ok []
    texts_in (field key value rest) =
        let here = texts_listed value in
        let later = texts_in rest in if text_eq key (text "parts") then here else later

    pub texts_listed : Json → Result (List (TextKind × Text))
    texts_listed (array elements) = texts_of elements
    texts_listed _ = ok []

    pub texts_of : Items → Result (List (TextKind × Text))
    texts_of end = ok []
    texts_of (item part rest) = do
      texts ← iter_text_parts part
      others ← texts_of rest
      ok (texts ++ others)
