-- ===== src/Attachments/Hostile.antt =====
-- Payloads with the signature of a program or an archive, in app/domain/attachment_policy.py.
use enterprise_communication.Prelude.{
  ◌≡◌, refl, Bool, true, false, not, ◌&&◌, none, [], ◌∷◌, if◌then◌else◌, arith,
}
use enterprise_communication.Text.{is_empty}
use enterprise_communication.Text.Parts.{starts_with}
use enterprise_communication.Errors.{ok}
use enterprise_communication.Attachments.Clamd.{Bytes}
use enterprise_communication.Attachments.Model.{AttachmentKind, Platform, AttachmentContent}
use enterprise_communication.Attachments.Policy.{evaluate_attachment_content}
use enterprise_communication.Attachments.Accepted.{evaluate_attachment_content-IsAccepted}
use enterprise_communication.Attachments.Signatures.{
  has_hostile_binary_signature, is_zip, pdf_signature, jpeg_soi, png_signature, binary_matches,
  looks_like_txt, detect_attachment_kind, clean_text, decode_text_bytes,
}

-- No allowed signature starts with the byte of a hostile one.
record IsApart (payload : Bytes) : Type 0 where
  pdf : starts_with pdf_signature payload ≡ false
  jpeg : starts_with jpeg_soi payload ≡ false
  png : starts_with png_signature payload ≡ false
  zip : is_zip payload ≡ false

hostile-IsApart : (payload : Bytes) → has_hostile_binary_signature payload ≡ true → IsApart payload
unfolding has_hostile_binary_signature is_zip starts_with
hostile-IsApart [] h = absurd (cc)
hostile-IsApart (c ∷ s) h = ground arith

hostile_no_binary :
    (platform : Platform) (payload : Bytes) → IsApart payload → binary_matches platform payload ≡ []
unfolding binary_matches
hostile_no_binary platform payload a = rw (a.pdf, a.jpeg, a.png, a.zip) refl

sixth_fails : (a b c d e f : Bool) → (a && b && c && d && e && not true && f) ≡ false
sixth_fails a b c d e f = ground arith

either_way : {A : Type 0} (b : Bool) (x : A) → (if b then x else x) ≡ x
either_way true x = refl
either_way false x = refl

hostile_no_text :
    (platform : Platform) (payload : Bytes)
    → has_hostile_binary_signature payload ≡ true
    → looks_like_txt platform payload ≡ false
unfolding looks_like_txt
hostile_no_text platform payload h = rw h (
    sixth_fails (not (is_empty payload)) (not (starts_with pdf_signature payload))
      (not (starts_with jpeg_soi payload)) (not (starts_with png_signature payload))
      (not (is_zip payload)) (clean_text platform (decode_text_bytes platform payload)))

-- A payload with a hostile signature shows no kind.
pub detect_attachment_kind-hostile :
    (platform : Platform) (payload : Bytes)
    → has_hostile_binary_signature payload ≡ true
    → detect_attachment_kind platform payload ≡ none
unfolding detect_attachment_kind
detect_attachment_kind-hostile platform payload h =
    rw
      (
        hostile_no_binary platform payload (hostile-IsApart payload h),
        hostile_no_text platform payload h,
      )
      (either_way (is_empty payload) none)

-- Content with the signature of an OLE file, a program, or a RAR, 7z or gzip archive is not
-- accepted as any kind.
pub evaluate_attachment_content-hostile :
    (platform : Platform) (content : AttachmentContent) (kind : AttachmentKind)
    → has_hostile_binary_signature content.content ≡ true
    → ¬ (evaluate_attachment_content platform content ≡ ok kind)
evaluate_attachment_content-hostile platform content kind h accepted =
    let seen = (evaluate_attachment_content-IsAccepted platform content kind accepted).detected in
    let unseen = detect_attachment_kind-hostile platform content.content h in cc
