-- ===== src/Connectors/MimeTree.antt =====
-- The MIME tree of a Gmail message: headers, and which parts are attachments
-- (app/infrastructure/connectors/gmail/normalization.py).
use enterprise_communication.Prelude.{
  Bool, false, not, ◌&&◌, ◌||◌, Option, none, some, List, [], ◌∷◌, ◌++◌, any, present,
  if◌then◌else◌,
}
use enterprise_communication.Text.{Text, text, text_eq, strip}
use enterprise_communication.Connectors.Json.{
  Json, Items, end, item, Fields, closed, field, object, array, get, items, object_of, string_of,
  required_text,
}
use enterprise_communication.Connectors.Metadata.{before_semicolon}

-- What the code asks of Python's library: `str.lower`, and `get_filename` and
-- `get_content_disposition` of an `email.message.Message` with the given Content-Disposition;
-- `none` stands for `None` and for the exceptions that the code catches.
pub record MailLibrary : Type 0 where
  pub lower : Text → Text
  pub filename : Text → Option Text
  pub content_disposition : Text → Option Text

-- Headers with their names in lower case, in their order: `_header_values`, not yet grouped
abbrev text_pair : (Text → Text) → Option Text → Option Text → List (Text × Text)
text_pair lower (some name) (some value) = (lower name, value) ∷ []
text_pair lower none value = []
text_pair lower (some name) none = []

abbrev header_of : (Text → Text) → Json → List (Text × Text)
header_of lower (object fields) =
    text_pair lower (string_of (get (text "name") fields)) (string_of (get (text "value") fields))
header_of lower _ = []

unfoldable pub headers_in : (Text → Text) → Items → List (Text × Text)
unfolding get
headers_in lower end = []
headers_in lower (item header rest) = header_of lower header ++ headers_in lower rest

unfoldable pub values_of : Text → List (Text × Text) → List Text
values_of name [] = []
values_of name ((n, value) ∷ rest) =
    let values = values_of name rest in if text_eq n name then value ∷ values else values

-- `_header_values(part).get(name, [])`
unfoldable pub header_values : (Text → Text) → Fields → Text → List Text
unfolding headers_in values_of
header_values lower part name =
    values_of name (headers_in lower (items (get (text "headers") part)))

module _ (library : MailLibrary) where
  open library use {lower}

  unfoldable pub has_attachment_disposition : Fields → Bool
  unfolding header_values
  has_attachment_disposition part =
      any (λ value. text_eq (lower (strip (before_semicolon value))) (text "attachment"))
        (header_values lower part (text "content-disposition"))

  -- Whether a body refers to data that it does not hold
  abbrev refers : Option Fields → Bool
  refers none = false
  refers (some body) =
      present (required_text (get (text "attachmentId") body))
      && not (present (required_text (get (text "data") body)))

  -- `_is_attachment`
  unfoldable pub is_attachment : Fields → Bool
  unfolding has_attachment_disposition required_text
  is_attachment part =
      present (required_text (get (text "filename") part))
      || has_attachment_disposition part
      || refers (object_of (get (text "body") part))

  -- `_iter_mime_parts`: a part, and unless it is an attachment the parts in its list. `nested_in`
  -- and `listed_in` look for that list.
  unfoldable mutual
    unfolding is_attachment

    pub iter_mime_parts : Json → List Fields
    iter_mime_parts (object part) =
        let inner = nested_in part in part ∷ (if is_attachment part then [] else inner)
    iter_mime_parts _ = []

    pub nested_in : Fields → List Fields
    nested_in closed = []
    nested_in (field key value fields) =
        let here = listed_in value in
        let later = nested_in fields in if text_eq key (text "parts") then here else later

    pub listed_in : Json → List Fields
    listed_in (array elements) = parts_of elements
    listed_in _ = []

    pub parts_of : Items → List Fields
    parts_of end = []
    parts_of (item part rest) = iter_mime_parts part ++ parts_of rest
