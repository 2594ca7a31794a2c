-- ===== src/Connectors/Listing.antt =====
-- The listing of the attachments of a Gmail message against the lookup of one of them.
use mathlib.Core.Option
use mathlib.Core.Path.{subst}
use enterprise_communication.Prelude.{
  ℕ, ◌≡◌, refl, sym, ap, ◌∙◌, Bool, true, false, Option, none, some, List, [], ◌∷◌, any, All,
  Bool-cases, Option-cases, inl, inr, arith,
}
use enterprise_communication.Text.{
  Text, text_eq, text_eq_iff, text_eq_refl, text, is_empty, strip, require_non_empty_text,
}
use enterprise_communication.Errors.{Result, ok, err, ok-eq, >>=-eq-ok}
use enterprise_communication.Storage.Table.{select_first, select_all}
use enterprise_communication.Connectors.Json.{Json, Fields, get, object_of}
use enterprise_communication.Connectors.Metadata.{AttachmentMetadata, validate}
use enterprise_communication.Connectors.MimeTree.{MailLibrary, is_attachment, iter_mime_parts}
use enterprise_communication.Connectors.Gmail.{
  resolved, built, media_type, attachment_from_part, retrievable_in, iter_retrievable_attachments,
  mime_payload_of, has_part_id, collect, list_gmail_attachment_metadata, only,
  resolve_gmail_attachment,
}

is_empty-nil : (s : Text) → is_empty s ≡ true → s ≡ []
is_empty-nil [] h = refl
is_empty-nil (c ∷ s) h = absurd (cc)

some-eq : {A : Type 0} (a b : A) → some a ≡ some b → a ≡ b
some-eq a b h = cc

module _ (library : MailLibrary) where
  abbrev Found : Type 0
  Found = AttachmentMetadata × Text

  abbrev matches : Text → Found → Bool
  matches id found = has_part_id library id found.0

  abbrev metadata_of : Found → AttachmentMetadata
  metadata_of found = found.0

  -- An id that the loop has seen does not come again.
  seen_once :
      (id : Text) (seen : List Text) (found : List Found) (ms : List AttachmentMetadata)
      → any (text_eq id) seen ≡ true
      → collect library seen found ≡ ok ms
      → select_all (matches id) found ≡ []
  unfolding collect
  seen_once id seen [] ms h e = refl
  seen_once id seen ((m, g) ∷ found) ms h e =
      elim (Bool-cases (any (text_eq m.provider_attachment_id) seen)) [
        | inl again ↦ absurd (ground arith)
        | inr new ↦
            let (rest, e', _) =
              >>=-eq-ok (collect library (m.provider_attachment_id ∷ seen) found) _ ms
                (rw new at e) in
            elim (Bool-cases (text_eq m.provider_attachment_id id)) [
              | inl same ↦ absurd (ground (arith, text_eq_iff m.provider_attachment_id id))
              | inr other ↦
                  rw other
                    (seen_once id (m.provider_attachment_id ∷ seen) found rest (ground arith) e')
            ]
      ]

  only-select_all :
      (id : Text) (seen : List Text) (found : List Found) (ms : List AttachmentMetadata)
      → collect library seen found ≡ ok ms
      → Option.map metadata_of (only library (select_all (matches id) found))
        ≡ select_first (has_part_id library id) ms
  unfolding collect
  only-select_all id seen [] ms e = ground arith
  only-select_all id seen ((m, g) ∷ found) ms e =
      elim (Bool-cases (any (text_eq m.provider_attachment_id) seen)) [
        | inl again ↦ absurd (ground arith)
        | inr new ↦
            let (rest, e', shape) =
              >>=-eq-ok (collect library (m.provider_attachment_id ∷ seen) found) _ ms
                (rw new at e) in
            let same_list = ok-eq (m ∷ rest) ms shape in
            elim (Bool-cases (text_eq m.provider_attachment_id id)) [
              | inl same ↦
                  let none_more =
                    seen_once id (m.provider_attachment_id ∷ seen) found rest
                      (ground (arith, text_eq_iff m.provider_attachment_id id, text_eq_refl id))
                      e' in
                  rw (← same_list, same, none_more) refl
              | inr other ↦
                  rw (← same_list, other)
                    (only-select_all id (m.provider_attachment_id ∷ seen) found rest e')
            ]
      ]

  -- Whose id is not empty
  abbrev Named : Found → Type 0
  Named found = is_empty found.0.provider_attachment_id ≡ false

  require_non_empty_text-nonempty :
      (s t : Text) → require_non_empty_text s ≡ ok t → is_empty t ≡ false
  unfolding require_non_empty_text
  require_non_empty_text-nonempty s t h = ground arith

  validate-Named :
      (m m' : AttachmentMetadata)
      → validate library.lower m ≡ ok m'
      → is_empty m'.provider_attachment_id ≡ false
  unfolding validate
  validate-Named m m' e =
      let (id, e0, k0) = >>=-eq-ok (require_non_empty_text m.provider_attachment_id) _ m' e in
      let (type, _, k1) = >>=-eq-ok (require_non_empty_text m.media_type) _ m' k0 in
      subst (λ (x : AttachmentMetadata). is_empty x.provider_attachment_id ≡ false) (ok-eq _ m' k1)
        (require_non_empty_text-nonempty m.provider_attachment_id id e0)

  resolved-Named :
      (g : Text) (r : Result AttachmentMetadata) (found : Found)
      → ((m : AttachmentMetadata) → r ≡ ok m → is_empty m.provider_attachment_id ≡ false)
      → resolved library g r ≡ some found
      → Named found
  resolved-Named g (ok m) found k e = subst Named (some-eq _ found e) (k m refl)
  resolved-Named g (err c) found k e = absurd (cc)

  built-Named :
      (part : Fields) (id g : Option Text) (size : Option ℕ) (found : Found)
      → built library part id g size ≡ some found
      → Named found
  built-Named part (some id) (some g) (some size) found e =
      elim (Bool-cases (is_empty (media_type library part))) [
        | inl blank ↦ absurd (ground arith)
        | inr typed ↦ resolved-Named g _ found (λ m. validate-Named _ m) (rw typed at e)
      ]
  built-Named part none g size found e = absurd (cc)
  built-Named part (some id) none size found e = absurd (cc)
  built-Named part (some id) (some g) none found e = absurd (cc)

  attachment_from_part-Named :
      (part : Fields) (found : Found) → attachment_from_part library part ≡ some found → Named found
  unfolding attachment_from_part
  attachment_from_part-Named part found e =
      elim (Option-cases (object_of (get (text "body") part))) [
        | inl absent ↦ absurd (ground arith)
        | inr (body, there) ↦ built-Named part _ _ _ found (rw (there, attachment_from_part) at e)
      ]

  retrievable_in-Named : (parts : List Fields) → All Named (retrievable_in library parts)
  unfolding retrievable_in
  retrievable_in-Named [] = tt
  retrievable_in-Named (part ∷ parts) = elim (Bool-cases (is_attachment library part)) [
    | inr other ↦ rw other (retrievable_in-Named parts)
    | inl file ↦ rw file (elim (Option-cases (attachment_from_part library part)) [
      | inl nothing ↦ rw nothing (retrievable_in-Named parts)
      | inr (found, e) ↦ rw e (attachment_from_part-Named part found e, retrievable_in-Named parts)
    ])
  ]

  select_all-unnamed : (found : List Found) → All Named found → select_all (matches []) found ≡ []
  select_all-unnamed [] a = refl
  select_all-unnamed ((m, g) ∷ found) a =
      ground (arith, text_eq_iff m.provider_attachment_id [], select_all-unnamed found a.1)

  -- When list_gmail_attachment_metadata lists the attachments of a message,
  -- resolve_gmail_attachment answers for any part id, and its metadata is that of the listed
  -- attachment with the stripped id, and nothing where there is none.
  pub resolve-eq-listing :
      (payload : Json) (part_id : Text) (listed : List AttachmentMetadata)
      → list_gmail_attachment_metadata library payload ≡ ok listed
      → (found : Option Found) × (resolve_gmail_attachment library payload part_id ≡ ok found)
        × (Option.map metadata_of found ≡ select_first (has_part_id library (strip part_id)) listed)
  unfolding list_gmail_attachment_metadata resolve_gmail_attachment iter_retrievable_attachments
  resolve-eq-listing payload part_id listed h =
      let (tree, read, collected) = >>=-eq-ok (mime_payload_of library payload) _ listed h in
      let found = retrievable_in library (iter_mime_parts library tree) in
      let agree = λ (id : Text). only-select_all id [] found listed collected in
      elim (Bool-cases (is_empty (strip part_id))) [
        | inr some_id ↦ (
          only library (select_all (matches (strip part_id)) found),
          rw (read, some_id) refl,
          agree (strip part_id),
        )
        | inl no_id ↦
            let blank : strip part_id ≡ [] = is_empty-nil (strip part_id) no_id in
            (
              none,
              rw (read, no_id) refl,
              rw blank (
                  ap (λ (l : List Found). Option.map metadata_of (only library l))
                    (sym (
                      select_all-unnamed found
                        (retrievable_in-Named (iter_mime_parts library tree))))
                  ∙ agree []),
            )
      ]
