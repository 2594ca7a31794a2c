-- ===== src/ConnectorTests.antt =====
-- Concrete runs of what the connectors make of the providers' answers.
use mathlib.Core.Option
use enterprise_communication.Prelude.{◌≡◌, refl, false, Option, none, some, [], ◌∷◌, All}
use enterprise_communication.Text.{Text, text, strip}
use enterprise_communication.Text.Parts.{split_at}
use enterprise_communication.Errors.{ok}
use enterprise_communication.Storage.Table.{select_first}
use enterprise_communication.Connectors.Json.{
  Json, natural, string, array, object, end, item, closed, field,
}
use enterprise_communication.Connectors.Metadata.{AttachmentMetadata, unknown}
use enterprise_communication.Connectors.MimeTree.{MailLibrary, iter_mime_parts}
use enterprise_communication.Connectors.Gmail.{
  has_part_id, list_gmail_attachment_metadata, resolve_gmail_attachment,
}
use enterprise_communication.Connectors.GmailText.{TextLibrary, plain, iter_text_parts}
use enterprise_communication.Connectors.BodyTexts.{IsSourced, iter_text_parts-IsSourced}
use enterprise_communication.Connectors.Listing.{resolve-eq-listing}

-- A library that knows of no header
abbrev mail : MailLibrary
mail = record { lower = λ s. s; filename = λ s. none; content_disposition = λ s. none }

abbrev notes_part : Json
notes_part = object (
    field (text "partId") (string (text "1")) (
      field (text "filename") (string (text "notes.txt")) (
        field (text "mimeType") (string (text "text/plain")) (
          field (text "body")
            (object (
              field (text "attachmentId") (string (text "x"))
                (field (text "size") (natural 3) closed)))
            closed))))

abbrev message : Json
message = object (
    field (text "id") (string (text "m")) (
      field (text "payload") (object (field (text "parts") (array (item notes_part end)) closed))
        closed))

abbrev notes : AttachmentMetadata
notes = record {
  provider_attachment_id = text "1";
  filename = text "notes.txt";
  media_type = text "text/plain";
  reported_size = 3;
  disposition = unknown;
  is_inline = false;
  content_id = none;
}

notes_listed : list_gmail_attachment_metadata mail message ≡ ok (notes ∷ [])
unfolding list_gmail_attachment_metadata strip split_at
notes_listed = refl

resolve-eq-listing_example :
    (found : Option (AttachmentMetadata × Text)) × (resolve_gmail_attachment mail message
        (text " 1")
      ≡ ok found)
    × (Option.map (λ (f : AttachmentMetadata × Text). f.0) found
        ≡ select_first (has_part_id mail (strip (text " 1"))) (notes ∷ []))
resolve-eq-listing_example = resolve-eq-listing mail message (text " 1") (notes ∷ []) notes_listed

abbrev texts : TextLibrary
texts = record {
  mail = mail;
  decode_base64url = λ s. some s;
  content_charset = λ s. none;
  decode = λ charset raw. some raw;
  decode_replacing = λ raw. raw;
}

-- A text and an attachment beside it
abbrev hello_part : Json
hello_part = object (
    field (text "mimeType") (string (text "text/plain"))
      (field (text "body") (object (field (text "data") (string (text "hello")) closed)) closed))

abbrev tree : Json
tree = object (field (text "parts") (array (item hello_part (item notes_part end))) closed)

hello_read : iter_text_parts texts tree ≡ ok ((plain, text "hello") ∷ [])
unfolding iter_text_parts strip split_at
hello_read = refl

iter_text_parts-IsSourced_example :
    All (IsSourced texts (iter_mime_parts mail tree)) ((plain, text "hello") ∷ [])
iter_text_parts-IsSourced_example =
    iter_text_parts-IsSourced texts tree ((plain, text "hello") ∷ []) hello_read
