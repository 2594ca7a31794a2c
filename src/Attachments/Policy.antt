-- ===== src/Attachments/Policy.antt =====
-- The evaluation of an attachment in app/domain/attachment_policy.py: before its bytes are
-- retrieved, and on them.
use enterprise_communication.Prelude.{
  ℕ, ◌+◌, Bool, true, false, not, ◌&&◌, ◌||◌, Option, none, some, List, [], ◌∷◌, ◌==◌, ltb, leb,
  any, if◌then◌else◌, length, take, drop,
}
use enterprise_communication.Text.{Text, text, text_eq, strip}
use enterprise_communication.Text.Parts.{starts_with, ends_with, contains, split_at, last_part}
use enterprise_communication.Errors.{
  Error, Result, ok, err, attachment_unsupported, attachment_exceeds_limit,
  attachment_content_invalid, ◌>>=◌,
}
use enterprise_communication.Attachments.Clamd.{Bytes}
use enterprise_communication.Attachments.Archive.{zip_member_inventory, member}
use enterprise_communication.Attachments.Names.{declared_kind}
use enterprise_communication.Attachments.Signatures.{
  pdf_signature, jpeg_soi, is_zip, has_hostile_binary_signature, docx_limits, xlsx_limits,
  content_types, docx_document, xlsx_workbook, looks_like_txt, decode_text_bytes,
  detect_attachment_kind,
}
use enterprise_communication.Attachments.Model.{
  AttachmentKind, pdf, docx, jpeg, png, txt, xlsx, kind_eq, AttachmentMetadata, AttachmentContent,
  Platform,
}

-- `MAX_ATTACHMENT_CONTENT_BYTES`
abbrev pub max_attachment_content_bytes : ℕ
max_attachment_content_bytes = 5242880

-- `if test: raise e`
abbrev pub refuse : Bool → Error → Result (Unit {0})
refuse true e = err e
refuse false e = ok tt

infixl 5 ◌>>◌
abbrev pub ◌>>◌ : {A : Type 0} → Result (Unit {0}) → Result A → Result A
m >> k = m >>= λ _. k

-- `_PRODUCT_ANALYSIS_KINDS`
abbrev pub is_product_kind : AttachmentKind → Bool
is_product_kind kind = any (kind_eq kind) (pdf ∷ docx ∷ jpeg ∷ png ∷ txt ∷ xlsx ∷ [])

unfoldable pub validate_attachment_content_size : AttachmentContent → Result (Unit {0})
validate_attachment_content_size content = do
  refuse (length content.content == 0) attachment_unsupported
  refuse (ltb max_attachment_content_bytes (length content.content)) attachment_exceeds_limit
  refuse (ltb max_attachment_content_bytes content.metadata.reported_size) attachment_exceeds_limit
  refuse (ltb content.metadata.reported_size (length content.content)) attachment_content_invalid

-- `_validate_jpeg_payload`
unfoldable pub validate_jpeg_payload : Bytes → Result (Unit {0})
validate_jpeg_payload payload = do
  refuse (ltb (length payload) 4 || not (starts_with jpeg_soi payload)) attachment_unsupported
  refuse (starts_with (0 ∷ []) (drop 3 payload)) attachment_unsupported

-- `bytes.lower`
abbrev ascii_lower : Bytes → Bytes
ascii_lower [] = []
ascii_lower (c ∷ s) = (if leb 65 c && leb c 90 then c + 32 else c) ∷ ascii_lower s

-- `_validate_pdf_prefix`
unfoldable pub validate_pdf_prefix : Bytes → Result (Unit {0})
validate_pdf_prefix payload =
    let window = take 8192 payload in
    let lowered = ascii_lower window in
    do
      refuse (not (starts_with pdf_signature payload)) attachment_unsupported
      refuse (contains (text "/Encrypt") window) attachment_unsupported
      refuse
          (contains (text "<html") lowered
            || contains (text "<script") lowered
            || contains (text "javascript:") lowered)
          attachment_unsupported

abbrev pub vba_docx : Text
vba_docx = text "word/vbaProject.bin"

abbrev pub vba_xlsx : Text
vba_xlsx = text "xl/vbaProject.bin"

-- `attributes.get(name, "")`
abbrev attribute : Text → List (Text × Text) → Text
attribute name [] = []
attribute name ((key, value) ∷ rest) = if text_eq key name then value else attribute name rest

pub record XlsxContainerValidationResult : Type 0 where
  pub compressed_size : ℕ
  pub aggregate_uncompressed_size : ℕ
  pub archive_member_count : ℕ
  pub embedded_object_ignored : Bool

module _ (platform : Platform) where
  abbrev pub is_encryption_marker : Text → Bool
  is_encryption_marker name =
      let last = platform.lower (last_part (split_at 47 name)) in
      text_eq last (text "encryptioninfo") || text_eq last (text "encryptedpackage")

  -- `_validate_docx_container`
  unfoldable pub validate_docx_container : Bytes → Result (Unit {0})
  validate_docx_container payload = do
    refuse (has_hostile_binary_signature payload) attachment_unsupported
    refuse (not (is_zip payload)) attachment_unsupported
    found ← zip_member_inventory docx_limits (platform.infolist payload)
    let names : List Text = found.0.names
    refuse (member vba_docx names) attachment_unsupported
    refuse (any is_encryption_marker names) attachment_unsupported
    refuse (not (member content_types names) || not (member docx_document names))
        attachment_unsupported

  abbrev is_macro : List (Text × Text) → Bool
  is_macro attributes =
      let content_type = platform.lower (attribute (text "ContentType") attributes) in
      contains (text "macroenabled") content_type || contains (text "vbaproject") content_type

  abbrev is_external : List (Text × Text) → Bool
  is_external attributes =
      text_eq (platform.lower (strip (attribute (text "TargetMode") attributes))) (text "external")

  -- An element that shows `p`, or a part that cannot be read
  abbrev part_shows : (List (Text × Text) → Bool) → Option (List (List (Text × Text))) → Bool
  part_shows p none = true
  part_shows p (some elements) = any p elements

  -- `_reject_xlsx_macro_content_types`: whether it raises
  unfoldable pub rejects_macro_content_types : Bytes → Bool
  rejects_macro_content_types payload =
      part_shows is_macro (platform.attributes payload content_types)

  -- `_xlsx_has_external_relationship`: whether it returns true, or raises what the caller raises
  -- then
  unfoldable pub has_external_relationship : Bytes → List Text → Bool
  has_external_relationship payload names =
      any
        (λ name.
          ends_with (text ".rels") (platform.lower name)
          && part_shows is_external (platform.attributes payload name))
        names

  unfoldable pub validate_xlsx_container : Bytes → Result XlsxContainerValidationResult
  unfolding rejects_macro_content_types has_external_relationship
  validate_xlsx_container payload = do
    refuse (has_hostile_binary_signature payload) attachment_unsupported
    refuse (not (is_zip payload)) attachment_unsupported
    found ← zip_member_inventory xlsx_limits (platform.infolist payload)
    let names : List Text = found.0.names
    refuse (member vba_xlsx names) attachment_unsupported
    refuse (any is_encryption_marker names) attachment_unsupported
    refuse (not (member content_types names) || not (member xlsx_workbook names))
        attachment_unsupported
    refuse (member docx_document names) attachment_unsupported
    refuse (any (starts_with (text "xl/externalLinks/")) names) attachment_unsupported
    refuse (member (text "xl/connections.xml") names) attachment_unsupported
    refuse (rejects_macro_content_types payload) attachment_unsupported
    refuse (has_external_relationship payload names) attachment_unsupported
    ok (record {
      compressed_size = length payload;
      aggregate_uncompressed_size = found.0.total_uncompressed;
      archive_member_count = found.1;
      embedded_object_ignored = any (starts_with (text "xl/embeddings/")) names;
    })

  unfoldable pub evaluate_attachment_metadata : AttachmentMetadata → Result AttachmentKind
  unfolding declared_kind
  evaluate_attachment_metadata metadata = do
    refuse (metadata.reported_size == 0) attachment_unsupported
    refuse (ltb max_attachment_content_bytes metadata.reported_size) attachment_exceeds_limit
    kind ← declared_kind platform metadata
    refuse (not (is_product_kind kind)) attachment_unsupported
    ok kind

  abbrev pub shows : Option AttachmentKind → AttachmentKind → Bool
  shows none declared = false
  shows (some detected) declared = kind_eq detected declared

  -- The tests of `evaluate_attachment_content` that go by the declared kind
  unfoldable pub validate_payload : AttachmentKind → Bytes → Result (Unit {0})
  unfolding validate_docx_container validate_xlsx_container validate_jpeg_payload
      validate_pdf_prefix
  validate_payload docx payload = validate_docx_container payload
  validate_payload xlsx payload = validate_xlsx_container payload >>= λ _. ok tt
  validate_payload txt payload =
      refuse (not (looks_like_txt platform payload)) attachment_unsupported
  validate_payload pdf payload = validate_pdf_prefix payload
  validate_payload jpeg payload = validate_jpeg_payload payload
  validate_payload png payload = ok tt

  unfoldable pub evaluate_attachment_content : AttachmentContent → Result AttachmentKind
  unfolding validate_attachment_content_size declared_kind detect_attachment_kind validate_payload
  evaluate_attachment_content content = do
    validate_attachment_content_size content
    declared ← declared_kind platform content.metadata
    refuse (not (shows (detect_attachment_kind platform content.content) declared))
        attachment_unsupported
    validate_payload declared content.content
    ok declared

  -- `decode_txt_attachment`
  unfoldable pub decode_txt_attachment : Bytes → Result Text
  unfolding decode_text_bytes
  decode_txt_attachment payload = elim (decode_text_bytes platform payload) [
    | none ↦ err attachment_content_invalid
    | some decoded ↦ ok (if starts_with (65279 ∷ []) decoded then drop 1 decoded else decoded)
  ]
