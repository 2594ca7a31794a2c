-- ===== src/Connectors/Graph.antt =====
-- The attachments of a Microsoft Graph message: `list_attachments` of
-- app/infrastructure/connectors/microsoft_graph/connector.py with what normalization.py beside it
-- makes of a page. `fetch i params` is the answer to the request `i`, read as JSON; the loop of the
-- source has no bound on its rounds, so it takes fuel, and `none` means that the fuel ran out.
use enterprise_communication.Prelude.{
  ℕ, zero, suc, Bool, true, false, Option, none, some, List, [], ◌∷◌, any, length, leb,
  if◌then◌else◌, ◌==◌,
}
use enterprise_communication.Text.{Text, text, text_eq, is_empty, strip}
use enterprise_communication.Text.Parts.{lstrip_of}
use enterprise_communication.Errors.{
  Result, ok, err, connector_message_not_found, connector_attachment_metadata,
  connector_unavailable, connector_unsupported_attachment, ◌>>=◌,
}
use enterprise_communication.Connectors.Json.{
  Json, null, boolean, string, array, natural, Items, end, item, Fields, has_key, get, object_of,
  not_blank, required_text,
}
use enterprise_communication.Connectors.Metadata.{AttachmentMetadata, inline, attachment, validate}
use enterprise_communication.Connectors.GraphPages.{
  UrlLibrary, Params, attachment_list_query_params, attachment_pagination_params_from_next_link,
}

-- `_required_text` and `_optional_text` of normalization.py
abbrev pub stripped_text : Json → Option Text
stripped_text value = elim (required_text value) [ none ↦ none | some s ↦ some (strip s) ]

-- `_reported_size`
abbrev reported_size : Json → Option ℕ
reported_size (natural n) = some n
reported_size _ = none

-- `filename`, and `none` where it is no text
abbrev filename_of : Json → Option Text
filename_of null = some []
filename_of (string s) = some s
filename_of _ = none

abbrev is_true : Json → Bool
is_true (boolean b) = b
is_true _ = false

abbrev or_none : Result AttachmentMetadata → Option AttachmentMetadata
or_none (ok m) = some m
or_none (err e) = none

-- What is listed so far, the newest first, and whether the loop has stopped at the limit
pub record Listed : Type 0 where
  pub items : List AttachmentMetadata
  pub truncated : Bool

abbrev pub max_listed_attachments : ℕ
max_listed_attachments = 50

abbrev pub is_listed : AttachmentMetadata → List AttachmentMetadata → Bool
is_listed m = any (λ n. text_eq n.provider_attachment_id m.provider_attachment_id)

-- The end of the inner loop: is the metadata of an item new?
abbrev pub added :
    List AttachmentMetadata → Option AttachmentMetadata → Result (List AttachmentMetadata)
added listed none = ok listed
added listed (some m) =
    if is_listed m listed then err connector_attachment_metadata else ok (m ∷ listed)

module _ (library : UrlLibrary) where
  open library use {lower}

  abbrev built :
      Fields → Option Text → Option Text → Option ℕ → Option Text → Option AttachmentMetadata
  built fields (some id) (some type) (some size) (some filename) =
      let is_inline = is_true (get (text "isInline") fields) in
      or_none (
        validate lower (record {
          provider_attachment_id = id;
          filename = filename;
          media_type = type;
          reported_size = size;
          disposition = if is_inline then inline else attachment;
          is_inline = is_inline;
          content_id = stripped_text (get (text "contentId") fields);
        }))
  built fields _ _ _ _ = none

  -- `_file_attachment_metadata`
  unfoldable pub file_attachment_metadata : Fields → Option AttachmentMetadata
  unfolding get required_text validate
  file_attachment_metadata fields =
      built fields (stripped_text (get (text "id") fields))
        (stripped_text (get (text "contentType") fields)) (reported_size (get (text "size") fields))
        (filename_of (get (text "name") fields))

  -- `_graph_attachment_class`
  abbrev class_of : Option Text → Text
  class_of none = []
  class_of (some s) = lower (lstrip_of (λ c. c == 35) (strip s))

  unfoldable pub graph_attachment_class : Json → Text
  graph_attachment_class value = class_of (required_text value)

  abbrev normalized : Option Fields → Result (Option AttachmentMetadata)
  normalized none = err connector_attachment_metadata
  normalized (some fields) =
      if has_key (text "contentBytes") fields
      then err connector_attachment_metadata
      else if text_eq (graph_attachment_class (get (text "@odata.type") fields))
          (text "microsoft.graph.fileattachment")
      then ok (file_attachment_metadata fields)
      else err connector_unsupported_attachment

  unfoldable pub normalize_graph_attachment : Json → Result (Option AttachmentMetadata)
  unfolding file_attachment_metadata graph_attachment_class has_key get
  normalize_graph_attachment value = normalized (object_of value)

  -- `_next_cursor`
  unfoldable pub next_cursor : Json → Result (Option Text)
  next_cursor null = ok none
  next_cursor (string s) = ok (not_blank (some s))
  next_cursor _ = err connector_unavailable

  abbrev page_in : Fields → Json → Result (Items × Option Text)
  page_in fields (array elements) = do
    next_link ← next_cursor (get (text "@odata.nextLink") fields)
    ok (elements, next_link)
  page_in fields _ = err connector_unavailable

  -- `parse_attachment_page`; a page without `value` reads as one where it is null.
  unfoldable pub parse_attachment_page : Json → Result (Items × Option Text)
  unfolding next_cursor get
  parse_attachment_page payload = elim (object_of payload) [
    | none ↦ err connector_unavailable
    | some fields ↦ page_in fields (get (text "value") fields)
  ]

  -- One round of the inner loop
  unfoldable pub add_item : List AttachmentMetadata → Json → Result (List AttachmentMetadata)
  unfolding normalize_graph_attachment
  add_item listed raw = do metadata ← normalize_graph_attachment raw; added listed metadata

  unfoldable pub add_items : List AttachmentMetadata → Items → Result Listed
  unfolding add_item
  add_items listed end = ok (record { items = listed; truncated = false })
  add_items listed (item raw rest) = elim (leb max_listed_attachments (length listed)) [
    | true ↦ ok (record { items = listed; truncated = true })
    | false ↦ elim (add_item listed raw) [ err e ↦ err e | ok listed' ↦ add_items listed' rest ]
  ]

  module _ (fetch : ℕ → Params → Result Json) (message_id : Text) where
    -- What follows a page: the parameters of the next request, or the end
    abbrev pub follow_link : Option Text → Listed → Result (Listed × Option Params)
    follow_link none listed = ok (listed, none)
    follow_link (some link) listed =
        if leb max_listed_attachments (length listed.items)
        then ok (record listed { truncated = true }, none)
        else (do
          params ← attachment_pagination_params_from_next_link library link message_id
          ok (listed, some params))

    abbrev pub follow : Option Text → Listed → Result (Listed × Option Params)
    follow link listed = if listed.truncated then ok (listed, none) else follow_link link listed

    -- One request, and the inner loop over its page
    unfoldable pub round : ℕ → Params → List AttachmentMetadata → Result (Listed × Option Params)
    unfolding parse_attachment_page add_items attachment_pagination_params_from_next_link
    round i params listed = do
      payload ← fetch i params
      (elements, link) ← parse_attachment_page payload
      listed' ← add_items listed elements
      follow link listed'

    -- `while True`
    unfoldable pub list_pages : ℕ → ℕ → Params → List AttachmentMetadata → Option (Result Listed)
    unfolding round
    list_pages zero i params listed = none
    list_pages (suc fuel) i params listed = elim (round i params listed) [
      | err e ↦ some (err e)
      | ok (listed', none) ↦ some (ok listed')
      | ok (listed', some params') ↦ list_pages fuel (suc i) params' listed'.items
    ]

  -- The identifiers of the request are checked first.
  unfoldable pub list_attachments : (ℕ → Params → Result Json) → ℕ → Text → Option (Result Listed)
  unfolding list_pages
  list_attachments fetch fuel provider_message_id =
      if is_empty (strip provider_message_id)
      then some (err connector_message_not_found)
      else list_pages fetch (strip provider_message_id) fuel 0 attachment_list_query_params []
