-- ===== src/Connectors/Paging.antt =====
-- The loop of `list_attachments` in app/infrastructure/connectors/microsoft_graph/connector.py: how
-- much it lists, and when it ends.
use mathlib.Core.Path.{subst}
use enterprise_communication.Prelude.{
  ℕ, zero, suc, ◌+◌, ◌≤◌, ◌<◌, ◌≡◌, refl, sym, false, Option, none, some, List, [], ◌∷◌, length,
  leb, Bool-cases, inl, inr, arith,
}
use enterprise_communication.Text.{Text, is_empty, strip}
use enterprise_communication.Errors.{
  Result, Result-cases, ok, err, ok-eq, >>=-eq-ok, connector_message_not_found,
}
use enterprise_communication.Connectors.Json.{Json, Items, end, item}
use enterprise_communication.Connectors.Metadata.{AttachmentMetadata}
use enterprise_communication.Connectors.GraphPages.{
  UrlLibrary, Params, attachment_list_query_params, attachment_pagination_params_from_next_link,
}
use enterprise_communication.Connectors.Graph.{
  Listed, max_listed_attachments, is_listed, added, normalize_graph_attachment,
  parse_attachment_page, add_item, add_items, follow_link, follow, round, list_pages,
  list_attachments,
}

-- No id is listed twice.
abbrev pub Distinct : List AttachmentMetadata → Type 0
Distinct [] = Unit
Distinct (m ∷ ms) = (is_listed m ms ≡ false) × Distinct ms

pub record IsListing (items : List AttachmentMetadata) : Type 0 where
  pub size : length items ≤ 50
  pub distinct : Distinct items

some-ok : (a b : Listed) → some (ok a) ≡ some (ok b) → a ≡ b
some-ok a b h = cc

added-IsListing :
    (listed listed' : List AttachmentMetadata) (o : Option AttachmentMetadata)
    → length listed < 50
    → IsListing listed
    → added listed o ≡ ok listed'
    → IsListing listed'
added-IsListing listed listed' none room v e = subst IsListing (ok-eq listed listed' e) v
added-IsListing listed listed' (some m) room v e = elim (Bool-cases (is_listed m listed)) [
  | inl again ↦ absurd (ground arith)
  | inr new ↦
      subst IsListing (ok-eq (m ∷ listed) listed' (rw new at e))
        (record { size = omega arith; distinct = (new, v.distinct) })
]

module _ (library : UrlLibrary) where
  add_item-IsListing :
      (listed listed' : List AttachmentMetadata) (raw : Json)
      → length listed < 50
      → IsListing listed
      → add_item library listed raw ≡ ok listed'
      → IsListing listed'
  unfolding add_item
  add_item-IsListing listed listed' raw room v e =
      let (o, _, k) = >>=-eq-ok (normalize_graph_attachment library raw) _ listed' e in
      added-IsListing listed listed' o room v k

  add_items-IsListing :
      (listed : List AttachmentMetadata) (elements : Items) (l : Listed)
      → IsListing listed
      → add_items library listed elements ≡ ok l
      → IsListing l.items
  unfolding add_items
  add_items-IsListing listed end l v e = subst (λ (x : Listed). IsListing x.items) (ok-eq _ l e) v
  add_items-IsListing listed (item raw rest) l v e =
      elim (Bool-cases (leb max_listed_attachments (length listed))) [
        | inl full ↦
            subst (λ (x : Listed). IsListing x.items) (ok-eq _ l (rw (full, add_items) at e)) v
        | inr room ↦ elim (Result-cases (add_item library listed raw)) [
          | inr (c, bad) ↦ absurd (ground arith)
          | inl (listed', good) ↦
              add_items-IsListing listed' rest l
                (add_item-IsListing listed listed' raw (ground arith) v good)
                (rw (room, good, add_items) at e)
        ]
      ]

  module _ (fetch : ℕ → Params → Result Json) (message_id : Text) where
    follow_link-same :
        (link : Option Text) (l l' : Listed) (o : Option Params)
        → follow_link library fetch message_id link l ≡ ok (l', o)
        → (l'.items ≡ l.items)
    follow_link-same none l l' o e = ground arith
    follow_link-same (some link) l l' o e =
        elim (Bool-cases (leb max_listed_attachments (length l.items))) [
          | inl full ↦ ground arith
          | inr room ↦
              let (params, _, k) =
                >>=-eq-ok (attachment_pagination_params_from_next_link library link message_id) _
                  (l', o) (rw room at e) in
              ground arith
        ]

    follow-same :
        (link : Option Text) (l l' : Listed) (o : Option Params)
        → follow library fetch message_id link l ≡ ok (l', o)
        → (l'.items ≡ l.items)
    follow-same link l l' o e = elim (Bool-cases l.truncated) [
      | inl cut ↦ ground arith
      | inr whole ↦ follow_link-same link (record l { truncated = false }) l' o (rw whole at e)
    ]

    round-IsListing :
        (i : ℕ) (params : Params) (listed : List AttachmentMetadata) (l : Listed)
        (o : Option Params)
        → IsListing listed
        → round library fetch message_id i params listed ≡ ok (l, o)
        → IsListing l.items
    unfolding round
    round-IsListing i params listed l o v e =
        let (payload, _, k0) = >>=-eq-ok (fetch i params) _ (l, o) e in
        let ((elements, link), _, k1) =
          >>=-eq-ok (parse_attachment_page library payload) _ (l, o) k0 in
        let (listed', grown, k2) = >>=-eq-ok (add_items library listed elements) _ (l, o) k1 in
        subst IsListing (sym (follow-same link listed' l o k2))
          (add_items-IsListing listed elements listed' v grown)

    list_pages-IsListing :
        (fuel i : ℕ) (params : Params) (listed : List AttachmentMetadata) (l : Listed)
        → IsListing listed
        → list_pages library fetch message_id fuel i params listed ≡ some (ok l)
        → IsListing l.items
    unfolding list_pages
    list_pages-IsListing zero i params listed l v e = absurd (cc)
    list_pages-IsListing (suc fuel) i params listed l v e =
        elim (Result-cases (round library fetch message_id i params listed)) [
          | inr (c, bad) ↦ absurd (ground arith)
          | inl ((l', none), last) ↦
              subst (λ (x : Listed). IsListing x.items) (some-ok l' l (rw (last, list_pages) at e))
                (round-IsListing i params listed l' none v last)
          | inl ((l', some params'), more) ↦
              list_pages-IsListing fuel (suc i) params' l'.items l
                (round-IsListing i params listed l' (some params') v more)
                (rw (more, list_pages) at e)
        ]

    -- Every answer that leads to another request lists an attachment.
    abbrev pub Growing : Type 0
    Growing =
        (i : ℕ) (params : Params) (listed : List AttachmentMetadata) (l : Listed) (params' : Params)
        → round library fetch message_id i params listed ≡ ok (l, some params')
        → length listed < length l.items

    list_pages-ends :
        Growing
        → (fuel i : ℕ) (params : Params) (listed : List AttachmentMetadata) → IsListing listed
        → 50 < fuel + length listed
        → (r : Result Listed) × (list_pages library fetch message_id fuel i params listed ≡ some r)
    unfolding list_pages
    list_pages-ends grows zero i params listed v room = absurd (omega (arith, v.size))
    list_pages-ends grows (suc fuel) i params listed v room =
        elim (Result-cases (round library fetch message_id i params listed)) [
          | inr (c, bad) ↦ (err c, rw (bad, list_pages) refl)
          | inl ((l', none), last) ↦ (ok l', rw (last, list_pages) refl)
          | inl ((l', some params'), more) ↦
              let longer = grows i params listed l' params' more in
              let (r, e) =
                list_pages-ends grows fuel (suc i) params' l'.items
                  (round-IsListing i params listed l' (some params') v more)
                  (omega (arith, longer)) in
              (r, rw (more, list_pages) e)
        ]

    -- The other end: an empty page that links to a next one, for ever
    module _ (page : Json) (link : Text) (params' : Params)
        (always : (i : ℕ) (params : Params) → fetch i params ≡ ok page)
        (empty : parse_attachment_page library page ≡ ok (end, some link))
        (valid : attachment_pagination_params_from_next_link library link message_id
          ≡ ok params') where
      same_round :
          (i : ℕ) (params : Params)
          → round library fetch message_id i params []
            ≡ ok (record { items = []; truncated = false }, some params')
      unfolding round add_items
      same_round i params = rw (always i params, empty, valid) refl

      list_pages-endless :
          (fuel i : ℕ) (params : Params)
          → list_pages library fetch message_id fuel i params [] ≡ none
      unfolding list_pages
      list_pages-endless zero i params = refl
      list_pages-endless (suc fuel) i params =
          rw (same_round i params, list_pages) (list_pages-endless fuel (suc i) params')

-- What list_attachments lists, after any number of requests with any answers, is at most 50
-- attachments, no two with the same id.
pub list_attachments-IsListing :
    (library : UrlLibrary) (fetch : ℕ → Params → Result Json) (fuel : ℕ) (id : Text) (l : Listed)
    → list_attachments library fetch fuel id ≡ some (ok l)
    → IsListing l.items
unfolding list_attachments
list_attachments-IsListing library fetch fuel id l e = elim (Bool-cases (is_empty (strip id))) [
  | inl blank ↦ absurd (ground arith)
  | inr named ↦
      list_pages-IsListing library fetch (strip id) fuel 0 attachment_list_query_params [] l
        (record { size = omega arith; distinct = tt }) (rw (named, list_attachments) at e)
]

-- When every answer that leads to another request lists an attachment more, list_attachments ends,
-- with a result or an error, within 51 requests.
pub list_attachments-ends :
    (library : UrlLibrary) (fetch : ℕ → Params → Result Json) (id : Text)
    → Growing library fetch (strip id)
    → (r : Result Listed) × (list_attachments library fetch 51 id ≡ some r)
unfolding list_attachments
list_attachments-ends library fetch id grows = elim (Bool-cases (is_empty (strip id))) [
  | inl blank ↦ (err connector_message_not_found, rw blank refl)
  | inr named ↦
      let (r, e) =
        list_pages-ends library fetch (strip id) grows 51 0 attachment_list_query_params []
          (record { size = omega arith; distinct = tt }) (omega arith) in
      (r, rw named e)
]

-- For a message id that is not blank, when every answer is the same page without attachments and
-- with a valid next link, no number of requests is enough for list_attachments to end.
pub list_attachments-endless :
    (library : UrlLibrary) (fetch : ℕ → Params → Result Json) (id : Text) (page : Json)
    (link : Text) (params' : Params)
    → ((i : ℕ) (params : Params) → fetch i params ≡ ok page)
    → parse_attachment_page library page ≡ ok (end, some link)
    → attachment_pagination_params_from_next_link library link (strip id) ≡ ok params'
    → is_empty (strip id) ≡ false
    → (fuel : ℕ) → list_attachments library fetch fuel id ≡ none
unfolding list_attachments
list_attachments-endless library fetch id page link params' always empty valid named fuel =
    rw named (
      list_pages-endless library fetch (strip id) page link params' always empty valid fuel 0
        attachment_list_query_params)
