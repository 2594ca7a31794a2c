-- ===== src/Connectors/Gmail.antt =====
-- The attachments of a Gmail message: app/infrastructure/connectors/gmail/normalization.py, with the
-- validators of `AttachmentMetadata` in app/domain/models/attachment.py. Nothing of it decodes the
-- data of a body.
use enterprise_communication.Prelude.{
  ℕ, Bool, true, false, Option, none, some, List, [], ◌∷◌, any, present, if◌then◌else◌,
}
use enterprise_communication.Text.{Text, text, text_eq, is_empty, strip}
use enterprise_communication.Errors.{
  Result, ok, err, connector_message_content, connector_attachment_metadata, ◌>>=◌,
}
use enterprise_communication.Storage.Table.{select_all}
use enterprise_communication.Connectors.Metadata.{
  AttachmentDisposition, inline, attachment, unknown, AttachmentMetadata, before_semicolon,
  validate,
}
use enterprise_communication.Connectors.MimeTree.{
  MailLibrary, header_values, is_attachment, iter_mime_parts,
}
use enterprise_communication.Connectors.Json.{
  Json, Fields, object, natural, get, object_of, string_of, not_blank, required_text,
}

module _ (library : MailLibrary) where
  open library use {lower}

  -- `_media_type`
  abbrev type_of : Option Text → Text
  type_of none = []
  type_of (some raw) = lower (strip (before_semicolon raw))

  unfoldable pub media_type : Fields → Text
  media_type part = type_of (string_of (get (text "mimeType") part))

  -- The first value for which the library knows a file name
  unfoldable pub filename_in : List Text → Text
  filename_in [] = []
  filename_in (value ∷ values) =
      let later = filename_in values in
      elim (not_blank (library.filename value)) [ some name ↦ strip name | none ↦ later ]

  -- `_attachment_filename`
  unfoldable pub attachment_filename : Fields → Text
  unfolding filename_in header_values required_text
  attachment_filename part = elim (required_text (get (text "filename") part)) [
    | some raw ↦ strip raw
    | none ↦ filename_in (header_values lower part (text "content-disposition"))
  ]

  abbrev disposition_or : Option Text → AttachmentDisposition × Bool → AttachmentDisposition × Bool
  disposition_or none later = later
  disposition_or (some kind) later =
      if text_eq kind (text "inline")
      then (inline, true)
      else if text_eq kind (text "attachment")
      then (attachment, false)
      else later

  -- `_attachment_disposition`
  unfoldable pub disposition_in : List Text → AttachmentDisposition × Bool
  disposition_in [] = (unknown, false)
  disposition_in (value ∷ values) =
      disposition_or (library.content_disposition value) (disposition_in values)

  -- `_reported_size`
  abbrev pub reported_size : Json → Option ℕ
  reported_size (natural n) = some n
  reported_size _ = none

  abbrev first : List Text → Option Text
  first [] = none
  first (value ∷ values) = some value

  abbrev pub resolved : Text → Result AttachmentMetadata → Option (AttachmentMetadata × Text)
  resolved attachment_id (ok m) = some (m, strip attachment_id)
  resolved attachment_id (err e) = none

  abbrev pub built :
      Fields → Option Text → Option Text → Option ℕ → Option (AttachmentMetadata × Text)
  built part (some part_id) (some attachment_id) (some size) =
      let type = media_type part in
      let (disposition, is_inline) =
        disposition_in (header_values lower part (text "content-disposition")) in
      if is_empty type
      then none
      else resolved attachment_id (
          validate lower (record {
            provider_attachment_id = part_id;
            filename = attachment_filename part;
            media_type = type;
            reported_size = size;
            disposition = disposition;
            is_inline = is_inline;
            content_id = first (header_values lower part (text "content-id"));
          }))
  built part _ _ _ = none

  -- `_attachment_from_part`
  unfoldable pub attachment_from_part : Fields → Option (AttachmentMetadata × Text)
  unfolding validate attachment_filename media_type disposition_in header_values required_text
  attachment_from_part part = elim (object_of (get (text "body") part)) [
    | none ↦ none
    | some body ↦
        built part (required_text (get (text "partId") part))
          (required_text (get (text "attachmentId") body)) (reported_size (get (text "size") body))
  ]

  unfoldable pub retrievable_in : List Fields → List (AttachmentMetadata × Text)
  unfolding attachment_from_part is_attachment
  retrievable_in [] = []
  retrievable_in (part ∷ parts) =
      let rest = retrievable_in parts in
      if is_attachment library part
      then elim (attachment_from_part part) [ some found ↦ found ∷ rest | none ↦ rest ]
      else rest

  -- `_iter_retrievable_attachments`
  unfoldable pub iter_retrievable_attachments : Json → List (AttachmentMetadata × Text)
  unfolding retrievable_in iter_mime_parts
  iter_retrievable_attachments mime_payload = retrievable_in (iter_mime_parts library mime_payload)

  -- The checks that the two functions below begin with: the MIME tree of a message
  abbrev tree_of : Option Fields → Result Json
  tree_of none = err connector_message_content
  tree_of (some message) =
      if present (required_text (get (text "id") message))
      then elim (object_of (get (text "payload") message)) [
        | none ↦ err connector_message_content
        | some tree ↦ ok (object tree)
      ]
      else err connector_message_content

  unfoldable pub mime_payload_of : Json → Result Json
  unfolding required_text
  mime_payload_of payload = tree_of (object_of payload)

  abbrev pub has_part_id : Text → AttachmentMetadata → Bool
  has_part_id part_id m = text_eq m.provider_attachment_id part_id

  -- The loop of the listing, with the ids that it has seen
  unfoldable pub collect :
      List Text → List (AttachmentMetadata × Text) → Result (List AttachmentMetadata)
  collect seen_ids [] = ok []
  collect seen_ids ((m, attachment_id) ∷ found) =
      let rest = collect (m.provider_attachment_id ∷ seen_ids) found in
      if any (text_eq m.provider_attachment_id) seen_ids
      then err connector_attachment_metadata
      else (do collected ← rest; ok (m ∷ collected))

  unfoldable pub list_gmail_attachment_metadata : Json → Result (List AttachmentMetadata)
  unfolding collect iter_retrievable_attachments mime_payload_of
  list_gmail_attachment_metadata payload = do
    tree ← mime_payload_of payload
    collect [] (iter_retrievable_attachments tree)

  -- `matches[0]` if there is one match
  abbrev pub only : List (AttachmentMetadata × Text) → Option (AttachmentMetadata × Text)
  only [] = none
  only (found ∷ []) = some found
  only (found ∷ next ∷ rest) = none

  unfoldable pub resolve_gmail_attachment :
      Json → Text → Result (Option (AttachmentMetadata × Text))
  unfolding iter_retrievable_attachments mime_payload_of
  resolve_gmail_attachment payload provider_part_id = do
    tree ← mime_payload_of payload
    let part_id = strip provider_part_id
    ok (
        if is_empty part_id
        then none
        else only (
            select_all (λ (found : AttachmentMetadata × Text). has_part_id part_id found.0)
              (iter_retrievable_attachments tree)))
