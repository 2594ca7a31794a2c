-- ===== src/PagingTests.antt =====
-- Concrete runs of the lists of Microsoft Graph.
use enterprise_communication.Prelude.{
  ℕ, zero, suc, ◌+◌, ◌<◌, ◌≡◌, List, length, Option, Bool-cases, inl, inr, refl, true, false, none,
  some, [], ◌∷◌, ◌++◌, ◌==◌, All, arith, if◌then◌else◌,
}
use enterprise_communication.Text.{Text, text, is_empty, strip, require_non_empty_text}
use enterprise_communication.Text.Parts.{split_at, lstrip_of, rstrip_of}
use enterprise_communication.Errors.{Result, ok, >>=-eq-ok}
use enterprise_communication.Connectors.Json.{
  Json, natural, string, array, object, end, item, closed, field,
}
use enterprise_communication.Connectors.Metadata.{AttachmentMetadata, attachment}
use enterprise_communication.Connectors.GraphPages.{
  attachment_list_query_params, UrlLibrary, Continuation, skiptoken, Params, list_continuation,
  params_of, opaque_cursor_from_next_link, pagination_params_from_cursor,
  attachment_pagination_params_from_next_link,
}
use enterprise_communication.Connectors.Cursors.{is_quoted, IsUrlLibrary, opaque_cursor-read}
use enterprise_communication.Connectors.Graph.{
  follow, Listed, round, add_items, parse_attachment_page, list_attachments,
}
use enterprise_communication.Connectors.Paging.{
  IsListing, Growing, list_attachments-IsListing, list_attachments-ends, list_attachments-endless,
}

-- A character as so many letters `a`, and a `%` behind them
abbrev unary : ℕ → Text → Text
unary zero rest = 37 ∷ rest
unary (suc n) rest = 97 ∷ unary n rest

abbrev quote_unary : Text → Text
quote_unary [] = []
quote_unary (c ∷ s) = unary c (quote_unary s)

abbrev read_unary : ℕ → Text → Text
read_unary n [] = []
read_unary n (c ∷ s) =
    let more = read_unary (suc n) s in
    let next = n ∷ read_unary 0 s in if c == 97 then more else next

read_unary-unary :
    (n c : ℕ) (rest : Text) → read_unary n (unary c rest) ≡ (n + c) ∷ read_unary 0 rest
read_unary-unary n zero rest = ground arith
read_unary-unary n (suc c) rest = ground (arith, read_unary-unary (suc n) c rest)

read_unary-quote_unary : (s : Text) → read_unary 0 (quote_unary s) ≡ s
read_unary-quote_unary [] = refl
read_unary-quote_unary (c ∷ s) =
    ground (arith, read_unary-unary 0 c (quote_unary s), read_unary-quote_unary s)

unary_quoted :
    (c : ℕ) (rest : Text)
    → All (λ (d : ℕ). is_quoted d ≡ true) rest
    → All (λ (d : ℕ). is_quoted d ≡ true) (unary c rest)
unary_quoted zero rest a = (refl, a)
unary_quoted (suc c) rest a = (refl, unary_quoted c rest a)

quote_unary_quoted : (s : Text) → All (λ (d : ℕ). is_quoted d ≡ true) (quote_unary s)
quote_unary_quoted [] = tt
quote_unary_quoted (c ∷ s) = unary_quoted c (quote_unary s) (quote_unary_quoted s)

-- Every link is one to this path, with the token `t`.
abbrev library_at : Text → UrlLibrary
library_at path = record {
  urlparse = λ s. some (record {
    scheme = text "https";
    hostname = some (text "graph.microsoft.com");
    username = none;
    password = none;
    port = some none;
    path = path;
    params = [];
    query = [];
    fragment = [];
  });
  parse_qs = λ s. (text "$skiptoken", text "t" ∷ []) ∷ [];
  quote = quote_unary;
  unquote = read_unary 0;
  lower = λ s. s;
}

abbrev lists : UrlLibrary
lists = library_at (text "/v1.0/me/messages")

lists-IsUrlLibrary : IsUrlLibrary lists
lists-IsUrlLibrary = record {
  unquote-quote = read_unary-quote_unary;
  quoted = quote_unary_quoted;
  lower_head = λ c s h. (s, refl);
}

cursor_made :
    opaque_cursor_from_next_link lists (some (text "link"))
    ≡ ok (some (text "st." ++ quote_unary (text "t")))
unfolding opaque_cursor_from_next_link strip rstrip_of
cursor_made = refl

opaque_cursor-read_example :
    (k : Continuation) × (list_continuation lists (text "link") ≡ ok k)
    × (pagination_params_from_cursor lists (text "st." ++ quote_unary (text "t"))
        ≡ ok (params_of lists k))
opaque_cursor-read_example =
    opaque_cursor-read lists lists-IsUrlLibrary (text "link") (text "st." ++ quote_unary (text "t"))
      cursor_made

abbrev files : UrlLibrary
files = record (library_at (text "/v1.0/me/messages/m/attachments")) { unquote = λ s. s }

abbrev one_file : Json
one_file = object (
    field (text "id") (string (text "f")) (
      field (text "contentType") (string (text "text/plain")) (
        field (text "size") (natural 3)
          (field (text "@odata.type") (string (text "#microsoft.graph.fileattachment")) closed))))

abbrev last_page : Json
last_page = object (field (text "value") (array (item one_file end)) closed)

abbrev fetch_last : ℕ → Params → Result Json
fetch_last i params = ok last_page

abbrev one_listed : Listed
one_listed = record {
  items =
      record {
        provider_attachment_id = text "f";
        filename = [];
        media_type = text "text/plain";
        reported_size = 3;
        disposition = attachment;
        is_inline = false;
        content_id = none;
      }
      ∷ [];
  truncated = false;
}

one_listed_at_once : list_attachments files fetch_last 51 (text "m") ≡ some (ok one_listed)
unfolding list_attachments strip require_non_empty_text split_at lstrip_of
one_listed_at_once = refl

list_attachments-IsListing_example : IsListing one_listed.items
list_attachments-IsListing_example =
    list_attachments-IsListing files fetch_last 51 (text "m") one_listed one_listed_at_once

one_named : is_empty (strip (text "m")) ≡ false
unfolding strip
one_named = refl

-- The first page leads to the last one, which lists another file.
abbrev linked_page : Json
linked_page = object (
    field (text "value") (array (item one_file end))
      (field (text "@odata.nextLink") (string (text "link")) closed))

abbrev another_file : Json
another_file = object (
    field (text "id") (string (text "g")) (
      field (text "contentType") (string (text "text/plain")) (
        field (text "size") (natural 4)
          (field (text "@odata.type") (string (text "#microsoft.graph.fileattachment")) closed))))

abbrev other_page : Json
other_page = object (field (text "value") (array (item another_file end)) closed)

abbrev fetch_two : ℕ → Params → Result Json
fetch_two zero params = ok linked_page
fetch_two (suc i) params = ok other_page

-- A page whose file has been added has made the list longer.
one_added :
    (listed : List AttachmentMetadata) (l : Listed)
    → add_items files listed (item one_file end) ≡ ok l
    → l.truncated ≡ false
    → length listed < length l.items
unfolding add_items split_at lstrip_of strip
one_added listed l h room = ground arith

-- A page that leads to another was not cut.
followed :
    (link : Option Text) (listed l : Listed) (params' : Params)
    → follow files fetch_two (strip (text "m")) link listed ≡ ok (l, some params')
    → (listed.truncated ≡ false) × (l ≡ listed)
followed none listed l params' h = absurd (ground arith)
followed (some link) listed l params' h = elim (Bool-cases listed.truncated) [
  | inl e ↦ absurd (ground arith)
  | inr e ↦ (e, ground arith)
]

two_grow : Growing files fetch_two (strip (text "m"))
unfolding round strip
two_grow zero params listed l params' e =
    let (l', one, k) =
      >>=-eq-ok (add_items files listed (item one_file end)) _ (l, some params') e in
    let (room, same) = followed (some (text "link")) l' l params' k in
    rw same (one_added listed l' one room)
two_grow (suc i) params listed l params' e =
    let (l', _, k) =
      >>=-eq-ok (add_items files listed (item another_file end)) _ (l, some params') e in
    absurd (ground arith)

list_attachments-ends_example :
    (r : Result Listed) × (list_attachments files fetch_two 51 (text "m") ≡ some r)
list_attachments-ends_example = list_attachments-ends files fetch_two (text "m") two_grow

abbrev empty_page : Json
empty_page = object (
    field (text "value") (array end) (field (text "@odata.nextLink") (string (text "link")) closed))

abbrev fetch_empty : ℕ → Params → Result Json
fetch_empty i params = ok empty_page

abbrev again : Params
again = attachment_list_query_params ++ params_of files (skiptoken (text "t"))

empty_read : parse_attachment_page files empty_page ≡ ok (end, some (text "link"))
unfolding parse_attachment_page strip
empty_read = refl

link_followed :
    attachment_pagination_params_from_next_link files (text "link") (strip (text "m")) ≡ ok again
unfolding attachment_pagination_params_from_next_link strip rstrip_of
link_followed = refl

list_attachments-endless_example : list_attachments files fetch_empty 1000 (text "m") ≡ none
list_attachments-endless_example =
    list_attachments-endless files fetch_empty (text "m") empty_page (text "link") again
      (λ i params. refl) empty_read link_followed one_named 1000
