-- ===== src/Connectors/Metadata.antt =====
-- `AttachmentMetadata` of app/domain/models/attachment.py, with its validators. `lower` is
-- `str.lower`.
use enterprise_communication.Prelude.{
  ℕ, Bool, ◌&&◌, Option, none, some, [], ◌∷◌, leb, length, drop, if◌then◌else◌,
}
use enterprise_communication.Text.{Text, text, is_empty, strip, require_non_empty_text}
use enterprise_communication.Text.Parts.{split_at, starts_with, ends_with, without_last}
use enterprise_communication.Errors.{Result, ok, ◌>>=◌}

pub data AttachmentDisposition : Type 0 where
  inline attachment unknown : AttachmentDisposition

pub record AttachmentMetadata : Type 0 where
  pub provider_attachment_id : Text
  pub filename : Text
  pub media_type : Text
  pub reported_size : ℕ
  pub disposition : AttachmentDisposition
  pub is_inline : Bool
  pub content_id : Option Text

-- `value.split(";", 1)[0]`
abbrev pub before_semicolon : Text → Text
before_semicolon value = elim (split_at 59 value) [ [] ↦ [] | part ∷ parts ↦ part ]

-- `validate_content_id`
unfoldable pub validate_content_id : Option Text → Option Text
validate_content_id none = none
validate_content_id (some value) =
    let trimmed = strip value in
    let inner =
      if starts_with (text "<") trimmed && ends_with (text ">") trimmed && leb 2 (length trimmed)
      then strip (without_last (drop 1 trimmed))
      else trimmed in
    if is_empty inner then none else some inner

-- The validators of `AttachmentMetadata`
unfoldable pub validate : (Text → Text) → AttachmentMetadata → Result AttachmentMetadata
unfolding validate_content_id require_non_empty_text
validate lower m = do
  id ← require_non_empty_text m.provider_attachment_id
  type ← require_non_empty_text m.media_type
  ok (record m {
    provider_attachment_id = id;
    filename = strip m.filename;
    media_type = lower (strip (before_semicolon type));
    content_id = validate_content_id m.content_id;
  })
