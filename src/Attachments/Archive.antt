-- ===== src/Attachments/Archive.antt =====
-- `_zip_member_inventory` of app/domain/attachment_policy.py. The set of the names is the list of
-- them, the last one first.
use enterprise_communication.Prelude.{
  ℕ, ◌+◌, ◌*◌, ◌%◌, Bool, false, not, ◌&&◌, ◌||◌, Option, none, some, List, [], ◌∷◌, ltb, ◌==◌, any,
  if◌then◌else◌, length,
}
use enterprise_communication.Text.{Text, text, text_eq}
use enterprise_communication.Text.Parts.{starts_with, split_at, replace_character}
use enterprise_communication.Errors.{
  Result, ok, err, attachment_unsupported, attachment_exceeds_limit,
}
use enterprise_communication.Attachments.Model.{ZipInfo}

pub record ArchiveLimits : Type 0 where
  pub max_entries : ℕ
  pub max_single_part : ℕ
  pub max_uncompressed_total : ℕ
  pub max_compression_ratio : Option ℕ
  pub strict_xlsx : Bool

-- `part in parts` and `name in names`
abbrev pub member : Text → List Text → Bool
member t ts = any (text_eq t) ts

abbrev pub has_character : ℕ → Text → Bool
has_character c s = any (λ d. c == d) s

abbrev pub member_name : ZipInfo → Text
member_name info = replace_character 92 47 info.filename

-- The tests that `strict_xlsx` adds
unfoldable pub breaks_strict : ZipInfo → List Text → Bool
unfolding replace_character split_at
breaks_strict info names =
    let name = member_name info in
    info.flag_bits % 2 == 1
    || member name names
    || has_character 92 info.filename
    || has_character 58 name
    || member (text ".") (split_at 47 name)
    || not (text_eq info.orig_filename info.filename)
    || not (info.compress_type == 0 || info.compress_type == 8)

-- Whether a name leads out of the archive
unfoldable pub escapes : Text → Bool
unfolding starts_with split_at
escapes name = starts_with (text "/") name || member (text "..") (split_at 47 name)

abbrev pub over_ratio : Option ℕ → ZipInfo → Bool
over_ratio none info = false
over_ratio (some ratio) info =
    ltb 0 info.compress_size && ltb (info.compress_size * ratio) info.file_size

pub record Inventory : Type 0 where
  pub names : List Text
  pub total_uncompressed : ℕ

-- The body of the loop
unfoldable pub add_member : ArchiveLimits → ZipInfo → Inventory → Result Inventory
unfolding breaks_strict escapes replace_character
add_member limits info so_far =
    let name = member_name info in
    let total = so_far.total_uncompressed + info.file_size in
    if limits.strict_xlsx && breaks_strict info so_far.names
    then err attachment_unsupported
    else if escapes name
    then err attachment_unsupported
    else if ltb limits.max_single_part info.file_size
    then err attachment_exceeds_limit
    else if over_ratio limits.max_compression_ratio info
    then err attachment_unsupported
    else if ltb limits.max_uncompressed_total total
    then err attachment_exceeds_limit
    else ok (record { names = name ∷ so_far.names; total_uncompressed = total })

unfoldable pub add_members : ArchiveLimits → List ZipInfo → Inventory → Result Inventory
unfolding add_member
add_members limits [] so_far = ok so_far
add_members limits (info ∷ infos) so_far = elim (add_member limits info so_far) [
  | ok next ↦ add_members limits infos next
  | err e ↦ err e
]

abbrev pub no_members : Inventory
no_members = record { names = []; total_uncompressed = 0 }

-- The names, the count and the total; the argument is `none` for a bad archive.
unfoldable pub zip_member_inventory : ArchiveLimits → Option (List ZipInfo) → Result (Inventory × ℕ)
unfolding add_members
zip_member_inventory limits none = err attachment_unsupported
zip_member_inventory limits (some infos) =
    if ltb limits.max_entries (length infos)
    then err attachment_unsupported
    else elim (add_members limits infos no_members) [
      | ok inventory ↦ ok (inventory, length infos)
      | err e ↦ err e
    ]
