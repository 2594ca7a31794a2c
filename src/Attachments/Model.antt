-- ===== src/Attachments/Model.antt =====
-- The values of app/domain/models/attachment.py that the attachment policy reads, and what it asks
-- of Python's library.
use enterprise_communication.Prelude.{ℕ, Bool, Option, List, ◌==◌}
use enterprise_communication.Text.{Text}
use enterprise_communication.Attachments.Clamd.{Bytes}

pub data AttachmentKind : Type 0 where
  pdf docx jpeg png txt xlsx : AttachmentKind

abbrev kind_index : AttachmentKind → ℕ
kind_index pdf = 0
kind_index docx = 1
kind_index jpeg = 2
kind_index png = 3
kind_index txt = 4
kind_index xlsx = 5

abbrev pub kind_eq : AttachmentKind → AttachmentKind → Bool
kind_eq a b = kind_index a == kind_index b

-- `AttachmentMetadata`: the fields that the policy reads
pub record AttachmentMetadata : Type 0 where
  pub filename : Text
  pub media_type : Text
  pub reported_size : ℕ

-- `AttachmentContent`, likewise
pub record AttachmentContent : Type 0 where
  pub metadata : AttachmentMetadata
  pub content : Bytes

-- `zipfile.ZipInfo`: what the central directory claims of a member
pub record ZipInfo : Type 0 where
  pub filename : Text
  pub orig_filename : Text
  pub flag_bits : ℕ
  pub compress_type : ℕ
  pub file_size : ℕ
  pub compress_size : ℕ

-- `ZipFile(...).infolist()`, the attributes of a member's XML elements, `bytes.decode` and
-- `str.lower`; `none` stands for the exceptions that the policy catches there.
pub record Platform : Type 0 where
  pub infolist : Bytes → Option (List ZipInfo)
  pub attributes : Bytes → Text → Option (List (List (Text × Text)))
  pub decode_utf_8 : Bytes → Option Text
  pub decode_utf_8_sig : Bytes → Option Text
  pub decode_utf_16 : Bytes → Option Text
  pub lower : Text → Text
