-- ===== src/Attachments/Signatures.antt =====
-- The signatures of app/domain/attachment_policy.py, and the kind that they show.
use enterprise_communication.Prelude.{
  ℕ, Bool, true, false, not, ◌&&◌, ◌||◌, Option, none, some, List, [], ◌∷◌, ◌++◌, ◌==◌, ltb, any,
  if◌then◌else◌,
}
use enterprise_communication.Text.{Text, text, is_empty}
use enterprise_communication.Text.Parts.{starts_with}
use enterprise_communication.Errors.{Result, ok, err}
use enterprise_communication.Attachments.Clamd.{Bytes}
use enterprise_communication.Attachments.Archive.{
  ArchiveLimits, Inventory, zip_member_inventory, member, has_character,
}
use enterprise_communication.Attachments.Model.{
  AttachmentKind, pdf, docx, jpeg, png, txt, xlsx, Platform,
}

abbrev pub pdf_signature : Bytes
pdf_signature = text "%PDF-"

abbrev pub jpeg_soi : Bytes
jpeg_soi = 255 ∷ 216 ∷ 255 ∷ []

abbrev pub png_signature : Bytes
png_signature = 137 ∷ 80 ∷ 78 ∷ 71 ∷ 13 ∷ 10 ∷ 26 ∷ 10 ∷ []

abbrev pub zip_local : Bytes
zip_local = 80 ∷ 75 ∷ 3 ∷ 4 ∷ []

abbrev pub zip_empty : Bytes
zip_empty = 80 ∷ 75 ∷ 5 ∷ 6 ∷ []

unfoldable pub is_zip : Bytes → Bool
unfolding starts_with
is_zip payload = starts_with zip_local payload || starts_with zip_empty payload

-- `_has_hostile_binary_signature`: OLE, MZ, ELF, RAR, 7z and gzip
unfoldable pub has_hostile_binary_signature : Bytes → Bool
unfolding starts_with
has_hostile_binary_signature payload =
    starts_with (208 ∷ 207 ∷ 17 ∷ 224 ∷ []) payload
    || starts_with (77 ∷ 90 ∷ []) payload
    || starts_with (127 ∷ 69 ∷ 76 ∷ 70 ∷ []) payload
    || starts_with (82 ∷ 97 ∷ 114 ∷ 33 ∷ []) payload
    || starts_with (55 ∷ 122 ∷ 188 ∷ 175 ∷ 39 ∷ 28 ∷ []) payload
    || starts_with (31 ∷ 139 ∷ []) payload

abbrev pub docx_limits : ArchiveLimits
docx_limits = record {
  max_entries = 256;
  max_single_part = 8388608;
  max_uncompressed_total = 20971520;
  max_compression_ratio = none;
  strict_xlsx = false;
}

abbrev pub xlsx_limits : ArchiveLimits
xlsx_limits = record {
  max_entries = 512;
  max_single_part = 8388608;
  max_uncompressed_total = 20971520;
  max_compression_ratio = some 100;
  strict_xlsx = true;
}

abbrev pub content_types : Text
content_types = text "[Content_Types].xml"

abbrev pub docx_document : Text
docx_document = text "word/document.xml"

abbrev pub xlsx_workbook : Text
xlsx_workbook = text "xl/workbook.xml"

abbrev pub names_match : Text → Text → Result (Inventory × ℕ) → Bool
names_match wanted unwanted (err e) = false
names_match wanted unwanted (ok (inventory, count)) =
    member content_types inventory.names
    && member wanted inventory.names
    && not (member unwanted inventory.names)

-- A byte that `_decode_text_bytes` refuses
abbrev is_control : ℕ → Bool
is_control byte = ltb byte 32 && not (byte == 9 || byte == 10 || byte == 13)

module _ (platform : Platform) where
  unfoldable pub looks_like_docx_names : Bytes → Bool
  looks_like_docx_names payload =
      names_match docx_document xlsx_workbook
        (zip_member_inventory docx_limits (platform.infolist payload))

  unfoldable pub looks_like_xlsx_names : Bytes → Bool
  looks_like_xlsx_names payload =
      names_match xlsx_workbook docx_document
        (zip_member_inventory xlsx_limits (platform.infolist payload))

  unfoldable pub decode_text_bytes : Bytes → Option Text
  unfolding starts_with
  decode_text_bytes payload =
      if starts_with (255 ∷ 254 ∷ []) payload || starts_with (254 ∷ 255 ∷ []) payload
      then platform.decode_utf_16 payload
      else if starts_with (239 ∷ 187 ∷ 191 ∷ []) payload
      then platform.decode_utf_8_sig payload
      else if has_character 0 payload
      then none
      else if any is_control payload
      then none
      else platform.decode_utf_8 payload

  abbrev pub clean_text : Option Text → Bool
  clean_text none = false
  clean_text (some decoded) = not (has_character 0 decoded)

  unfoldable pub looks_like_txt : Bytes → Bool
  unfolding has_hostile_binary_signature is_zip decode_text_bytes
  looks_like_txt payload =
      not (is_empty payload)
      && not (starts_with pdf_signature payload)
      && not (starts_with jpeg_soi payload)
      && not (starts_with png_signature payload)
      && not (is_zip payload)
      && not (has_hostile_binary_signature payload)
      && clean_text (decode_text_bytes payload)

  abbrev pub if_shown : Bool → AttachmentKind → List AttachmentKind
  if_shown true kind = kind ∷ []
  if_shown false kind = []

  abbrev pub unique_match : List AttachmentKind → Option AttachmentKind
  unique_match (kind ∷ []) = some kind
  unique_match _ = none

  -- The kinds in `matches` before the text is tried
  unfoldable pub binary_matches : Bytes → List AttachmentKind
  unfolding is_zip looks_like_docx_names looks_like_xlsx_names
  binary_matches payload =
      if_shown (starts_with pdf_signature payload) pdf
      ++ (if_shown (starts_with jpeg_soi payload) jpeg
          ++ (if_shown (starts_with png_signature payload) png
              ++ (if_shown (is_zip payload && looks_like_docx_names payload) docx
                  ++ if_shown (is_zip payload && looks_like_xlsx_names payload) xlsx)))

  abbrev pub with_text : Bool → List AttachmentKind → List AttachmentKind
  with_text shown [] = if_shown shown txt
  with_text shown (kind ∷ kinds) = kind ∷ kinds

  unfoldable pub detect_attachment_kind : Bytes → Option AttachmentKind
  unfolding binary_matches looks_like_txt
  detect_attachment_kind payload =
      if is_empty payload
      then none
      else unique_match (with_text (looks_like_txt payload) (binary_matches payload))
