-- ===== src/Attachments/Accepted.antt =====
-- What an attachment is known to be once app/domain/attachment_policy.py has accepted it.
use mathlib.Core.Path.{subst}
use enterprise_communication.Prelude.{
  ℕ, ◌≤◌, ◌<◌, ◌≡◌, refl, ap, Bool, true, false, not, Option, none, some, List, ◌==◌, ltb, length,
  arith, Option-cases, inl, inr,
}
use enterprise_communication.Errors.{
  Error, Result, ok, ◌>>=◌, >>=-eq-ok, ok-eq, attachment_unsupported, attachment_exceeds_limit,
  attachment_content_invalid,
}
use enterprise_communication.Attachments.Clamd.{Bytes}
use enterprise_communication.Attachments.Archive.{ArchiveLimits, Inventory, zip_member_inventory}
use enterprise_communication.Attachments.Bounds.{
  IsBoundedArchive, zip_member_inventory-IsBoundedArchive,
}
use enterprise_communication.Attachments.Names.{declared_kind}
use enterprise_communication.Attachments.Signatures.{
  has_hostile_binary_signature, is_zip, docx_limits, xlsx_limits, detect_attachment_kind,
}
use enterprise_communication.Attachments.Policy.{
  refuse, max_attachment_content_bytes, validate_attachment_content_size,
  evaluate_attachment_metadata, evaluate_attachment_content, validate_docx_container,
  validate_xlsx_container, validate_payload, is_product_kind, shows,
}
use enterprise_communication.Attachments.Model.{
  AttachmentKind, pdf, docx, jpeg, png, txt, xlsx, kind_eq, AttachmentContent, ZipInfo, Platform,
}

refuse-ok : (b : Bool) (e : Error) (u : Unit {0}) → refuse b e ≡ ok u → b ≡ false
refuse-ok true e u h = absurd (cc)
refuse-ok false e u h = refl

-- A test that did not raise
passed :
    {B : Type 0} (b : Bool) (e : Error) (f : Unit {0} → Result B) (r : B)
    → (refuse b e >>= f) ≡ ok r
    → (b ≡ false) × (f tt ≡ ok r)
passed true e f r h = absurd (cc)
passed false e f r h = (refl, h)

kind_eq_sound : (a b : AttachmentKind) → kind_eq a b ≡ true → a ≡ b
kind_eq_sound a b h = ground arith

-- The bytes hold an archive within its limits.
abbrev pub HoldsArchive : Platform → ArchiveLimits → Bytes → Type 0
HoldsArchive platform limits payload =
    (infos : List ZipInfo) × (platform.infolist payload ≡ some infos)
    × IsBoundedArchive limits infos

inventory-HoldsArchive :
    (platform : Platform) (limits : ArchiveLimits) (payload : Bytes) (found : Inventory × ℕ)
    → zip_member_inventory limits (platform.infolist payload) ≡ ok found
    → HoldsArchive platform limits payload
unfolding zip_member_inventory
inventory-HoldsArchive platform limits payload (inventory, count) h =
    elim (Option-cases (platform.infolist payload)) [
      | inl bad ↦ absurd (ground arith)
      | inr (infos, good) ↦ (
        infos,
        good,
        (zip_member_inventory-IsBoundedArchive limits infos inventory count (rw good at h)).0,
      )
    ]

docx-HoldsArchive :
    (platform : Platform) (payload : Bytes) (u : Unit {0})
    → validate_docx_container platform payload ≡ ok u
    → HoldsArchive platform docx_limits payload
unfolding validate_docx_container
docx-HoldsArchive platform payload u h =
    let (safe, h1) = passed (has_hostile_binary_signature payload) attachment_unsupported _ u h in
    let (zipped, h2) = passed (not (is_zip payload)) attachment_unsupported _ u h1 in
    let (found, listed, h3) =
      >>=-eq-ok (zip_member_inventory docx_limits (platform.infolist payload)) _ u h2 in
    inventory-HoldsArchive platform docx_limits payload found listed

xlsx-HoldsArchive :
    (platform : Platform) (payload : Bytes) (u : Unit {0})
    → validate_payload platform xlsx payload ≡ ok u
    → HoldsArchive platform xlsx_limits payload
unfolding validate_payload validate_xlsx_container
xlsx-HoldsArchive platform payload u h =
    let (result, valid, _) =
      >>=-eq-ok (validate_xlsx_container platform payload) (λ _. ok tt) u h in
    let (safe, h1) =
      passed (has_hostile_binary_signature payload) attachment_unsupported _ result valid in
    let (zipped, h2) = passed (not (is_zip payload)) attachment_unsupported _ result h1 in
    let (found, listed, h3) =
      >>=-eq-ok (zip_member_inventory xlsx_limits (platform.infolist payload)) _ result h2 in
    inventory-HoldsArchive platform xlsx_limits payload found listed

-- What the declared kind promises of the container
abbrev pub HoldsContainer : Platform → AttachmentKind → Bytes → Type 0
HoldsContainer platform docx payload = HoldsArchive platform docx_limits payload
HoldsContainer platform xlsx payload = HoldsArchive platform xlsx_limits payload
HoldsContainer platform _ payload = Unit

validate_payload-HoldsContainer :
    (platform : Platform) (kind : AttachmentKind) (payload : Bytes) (u : Unit {0})
    → validate_payload platform kind payload ≡ ok u
    → HoldsContainer platform kind payload
unfolding validate_payload
validate_payload-HoldsContainer platform pdf payload u h = tt
validate_payload-HoldsContainer platform docx payload u h = docx-HoldsArchive platform payload u h
validate_payload-HoldsContainer platform jpeg payload u h = tt
validate_payload-HoldsContainer platform png payload u h = tt
validate_payload-HoldsContainer platform txt payload u h = tt
validate_payload-HoldsContainer platform xlsx payload u h = xlsx-HoldsArchive platform payload u h

pub record IsSized (content : AttachmentContent) : Type 0 where
  pub some_byte : 0 < length content.content
  pub bounded : length content.content ≤ content.metadata.reported_size
  pub claimed : content.metadata.reported_size ≤ max_attachment_content_bytes

size-IsSized :
    (content : AttachmentContent) (u : Unit {0})
    → validate_attachment_content_size content ≡ ok u
    → IsSized content
unfolding validate_attachment_content_size
size-IsSized content u h =
    let (some_byte, h1) = passed (length content.content == 0) attachment_unsupported _ u h in
    let (small, h2) =
      passed (ltb max_attachment_content_bytes (length content.content)) attachment_exceeds_limit _
        u h1 in
    let (claimed, h3) =
      passed (ltb max_attachment_content_bytes content.metadata.reported_size)
        attachment_exceeds_limit _ u h2 in
    let honest =
      refuse-ok (ltb content.metadata.reported_size (length content.content))
        attachment_content_invalid u h3 in
    record { some_byte = ground arith; bounded = ground arith; claimed = ground arith }

shown :
    (o : Option AttachmentKind) (kind : AttachmentKind)
    → (platform : Platform) → not (shows platform o kind) ≡ false
    → o ≡ some kind
shown none kind platform h = absurd (cc)
shown (some k) kind platform h = ap some (kind_eq_sound k kind (ground arith))

-- An accepted attachment
pub record IsAccepted (platform : Platform) (content : AttachmentContent) (kind : AttachmentKind)
    : Type 0 where
  pub size : IsSized content
  pub declared : declared_kind platform content.metadata ≡ ok kind
  pub detected : detect_attachment_kind platform content.content ≡ some kind
  pub container : HoldsContainer platform kind content.content

-- Content that evaluate_attachment_content accepts as a kind is not empty, is no longer than its
-- reported size, which is within the limit, has the kind both by its metadata and by its
-- signature, and, for docx and xlsx, holds an archive within the limits of that kind.
pub evaluate_attachment_content-IsAccepted :
    (platform : Platform) (content : AttachmentContent) (kind : AttachmentKind)
    → evaluate_attachment_content platform content ≡ ok kind
    → IsAccepted platform content kind
unfolding evaluate_attachment_content
evaluate_attachment_content-IsAccepted platform content kind h =
    let (u, sized, h1) = >>=-eq-ok (validate_attachment_content_size content) _ kind h in
    let (declared, named, h2) = >>=-eq-ok (declared_kind platform content.metadata) _ kind h1 in
    let (seen, h3) =
      passed (not (shows platform (detect_attachment_kind platform content.content) declared))
        attachment_unsupported _ kind h2 in
    let (v, valid, h4) = >>=-eq-ok (validate_payload platform declared content.content) _ kind h3 in
    subst (IsAccepted platform content) (ok-eq declared kind h4) (record {
      size = size-IsSized content u sized;
      declared = named;
      detected = shown (detect_attachment_kind platform content.content) declared platform seen;
      container = validate_payload-HoldsContainer platform declared content.content v valid;
    })

is_product_kind_all : (kind : AttachmentKind) → is_product_kind kind ≡ true
is_product_kind_all pdf = refl
is_product_kind_all docx = refl
is_product_kind_all jpeg = refl
is_product_kind_all png = refl
is_product_kind_all txt = refl
is_product_kind_all xlsx = refl

-- When the content of an attachment is accepted as a kind, the check of its metadata accepts it as
-- the same kind.
pub evaluate_attachment_metadata-content :
    (platform : Platform) (content : AttachmentContent) (kind : AttachmentKind)
    → evaluate_attachment_content platform content ≡ ok kind
    → evaluate_attachment_metadata platform content.metadata ≡ ok kind
unfolding evaluate_attachment_metadata
evaluate_attachment_metadata-content platform content kind h =
    let accepted = evaluate_attachment_content-IsAccepted platform content kind h in
    let claimed = content.metadata.reported_size in
    let some_byte : (claimed == 0) ≡ false =
      not_zero claimed (omega (arith, accepted.size.some_byte, accepted.size.bounded)) in
    let small : ltb max_attachment_content_bytes claimed ≡ false =
      not_above claimed accepted.size.claimed in
    rw (some_byte, small, accepted.declared, is_product_kind_all kind) refl
  where
    not_zero : (n : ℕ) → 0 < n → (n == 0) ≡ false
    not_zero n h = ground arith

    not_above :
        (n : ℕ) → n ≤ max_attachment_content_bytes → ltb max_attachment_content_bytes n ≡ false
    not_above n h = ground arith
