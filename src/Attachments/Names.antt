-- ===== src/Attachments/Names.antt =====
-- The declared type of an attachment in app/domain/attachment_policy.py: file name extension and
-- media type.
use enterprise_communication.Prelude.{
  Bool, false, not, ◌&&◌, Option, none, some, List, [], ◌∷◌, ◌==◌, if◌then◌else◌,
}
use enterprise_communication.Text.{Text, text, is_empty, strip}
use enterprise_communication.Text.Parts.{split_at, last_part, replace_character}
use enterprise_communication.Errors.{Result, ok, err, attachment_unsupported}
use enterprise_communication.Attachments.Archive.{member, has_character}
use enterprise_communication.Attachments.Model.{
  AttachmentKind, pdf, docx, jpeg, png, txt, xlsx, kind_eq, AttachmentMetadata, Platform,
}

-- `_REJECTED_EXTENSIONS`
abbrev pub rejected_extensions : List Text
rejected_extensions =
    text ".zip"
    ∷ text ".rar"
    ∷ text ".7z"
    ∷ text ".tar"
    ∷ text ".gz"
    ∷ text ".tgz"
    ∷ text ".bz2"
    ∷ text ".xz"
    ∷ text ".exe"
    ∷ text ".dll"
    ∷ text ".bat"
    ∷ text ".cmd"
    ∷ text ".ps1"
    ∷ text ".sh"
    ∷ text ".js"
    ∷ text ".vbs"
    ∷ text ".wsf"
    ∷ text ".html"
    ∷ text ".htm"
    ∷ text ".svg"
    ∷ text ".xml"
    ∷ text ".doc"
    ∷ text ".docm"
    ∷ text ".dotm"
    ∷ text ".xlsm"
    ∷ text ".xlsb"
    ∷ text ".xls"
    ∷ text ".csv"
    ∷ text ".tsv"
    ∷ text ".pptm"
    ∷ text ".ppt"
    ∷ []

-- `_KIND_EXTENSIONS` and `_KIND_MEDIA_TYPES`, in the order of the dictionaries
abbrev pub kind_extensions : List (AttachmentKind × List Text)
kind_extensions =
    (pdf, text ".pdf" ∷ [])
    ∷ (docx, text ".docx" ∷ [])
    ∷ (jpeg, text ".jpg" ∷ text ".jpeg" ∷ [])
    ∷ (png, text ".png" ∷ [])
    ∷ (txt, text ".txt" ∷ [])
    ∷ (xlsx, text ".xlsx" ∷ [])
    ∷ []

abbrev pub kind_media_types : List (AttachmentKind × List Text)
kind_media_types =
    (pdf, text "application/pdf" ∷ [])
    ∷ (docx, text "application/vnd.openxmlformats-officedocument.wordprocessingml.document" ∷ [])
    ∷ (jpeg, text "image/jpeg" ∷ [])
    ∷ (png, text "image/png" ∷ [])
    ∷ (txt, text "text/plain" ∷ [])
    ∷ (xlsx, text "application/vnd.openxmlformats-officedocument.spreadsheetml.sheet" ∷ [])
    ∷ []

-- The loop of both `_kind_for_…`
unfoldable pub first_kind : Text → List (AttachmentKind × List Text) → Option AttachmentKind
first_kind value [] = none
first_kind value ((kind, values) ∷ kinds) =
    if member value values then some kind else first_kind value kinds

unfoldable pub kind_for_extension : Text → Option AttachmentKind
unfolding first_kind
kind_for_extension extension =
    if is_empty extension then none else first_kind extension kind_extensions

unfoldable pub kind_for_media_type : Text → Option AttachmentKind
unfolding first_kind
kind_for_media_type media_type = first_kind media_type kind_media_types

-- `name.count(".") == 1`, for a name that starts with a dot
abbrev only_leading_dot : Text → Bool
only_leading_dot [] = false
only_leading_dot (c ∷ name) = c == 46 && not (has_character 46 name)

module _ (platform : Platform) where
  unfoldable pub filename_extension : Text → Text
  unfolding split_at last_part replace_character strip
  filename_extension filename =
      let trimmed = strip filename in
      let name = last_part (split_at 47 (replace_character 92 47 trimmed)) in
      if is_empty trimmed
      then []
      else if only_leading_dot name
      then []
      else if not (has_character 46 name)
      then []
      else 46 ∷ platform.lower (last_part (split_at 46 name))

  -- The last three tests of `_declared_kind`
  abbrev agreed : Option AttachmentKind → Option AttachmentKind → Result AttachmentKind
  agreed (some a) (some b) = if kind_eq a b then ok a else err attachment_unsupported
  agreed _ _ = err attachment_unsupported

  unfoldable pub declared_kind : AttachmentMetadata → Result AttachmentKind
  unfolding filename_extension kind_for_extension kind_for_media_type
  declared_kind metadata =
      let extension = filename_extension metadata.filename in
      if member extension rejected_extensions
      then err attachment_unsupported
      else agreed (kind_for_extension extension) (kind_for_media_type metadata.media_type)
