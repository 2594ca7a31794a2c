-- ===== src/Connectors/GraphPages.antt =====
-- The continuation tokens of app/infrastructure/connectors/microsoft_graph/pagination.py.
use enterprise_communication.Prelude.{
  ℕ, Bool, true, false, not, ◌&&◌, ◌||◌, Option, none, some, List, [], ◌∷◌, ◌++◌, ◌==◌, present,
  if◌then◌else◌, drop,
}
use enterprise_communication.Text.{Text, text, text_eq, is_empty, strip}
use enterprise_communication.Text.Parts.{starts_with, contains, rstrip_of}
use enterprise_communication.Errors.{
  Result, ok, err, invalid_value, connector_unavailable, connector_invalid_cursor, ◌>>=◌,
}

-- What `urlparse` finds. Reading the port raises a `ValueError` where it is no port: `none`.
pub record ParseResult : Type 0 where
  pub scheme : Text
  pub hostname : Option Text
  pub username : Option Text
  pub password : Option Text
  pub port : Option (Option ℕ)
  pub path : Text
  pub params : Text
  pub query : Text
  pub fragment : Text

-- The functions of `urllib.parse` and `str.lower`; `quote` is with `safe=''`, `parse_qs` with
-- `keep_blank_values=False`, and `urlparse` answers `none` where it raises a `ValueError`.
pub record UrlLibrary : Type 0 where
  pub urlparse : Text → Option ParseResult
  pub parse_qs : Text → List (Text × List Text)
  pub quote : Text → Text
  pub unquote : Text → Text
  pub lower : Text → Text

pub data QueryValue : Type 0 where
  number : ℕ → QueryValue
  string : Text → QueryValue

abbrev pub Params : Type 0
Params = List (Text × QueryValue)

-- `params.get(key)`
unfoldable pub values_of : Text → List (Text × List Text) → List Text
values_of key [] = []
values_of key ((k, values) ∷ rest) =
    let later = values_of key rest in if text_eq k key then values else later

-- `_first_query_value`
unfoldable pub first_query_value : List Text → Option Text
first_query_value [] = none
first_query_value (token ∷ values) = if is_empty (strip token) then none else some token

abbrev pub attachment_list_query_params : Params
attachment_list_query_params =
    (text "$select", string (text "id,name,contentType,size,isInline")) ∷ []

abbrev is_text : Text → Option Text → Bool
is_text expected none = false
is_text expected (some s) = text_eq s expected

abbrev is_allowed_port : Option ℕ → Bool
is_allowed_port none = true
is_allowed_port (some port) = port == 443

-- `rstrip("/")`
abbrev pub without_slashes : Text → Text
without_slashes path = rstrip_of (λ c. c == 47) path

-- The parameter that continues a list, and its value
pub data Continuation : Type 0 where
  skiptoken skip : Text → Continuation

abbrev pub continuation_of : Option Text → Option Text → Result Continuation
continuation_of (some token) o = ok (skiptoken token)
continuation_of none (some n) = ok (skip n)
continuation_of none none = err connector_unavailable

module _ (library : UrlLibrary) where
  open library use {urlparse, parse_qs, quote, unquote, lower}

  abbrev port_then : Option (Option ℕ) → Bool → Result Bool
  port_then none rest = err invalid_value
  port_then (some port) rest = ok (is_allowed_port port && rest)

  -- The checks of `_parsed_graph_list_url` and `_parsed_graph_attachment_list_url`, which differ in
  -- the path. The port is read only when the checks before it are passed.
  unfoldable pub is_graph_url : (Text → Bool) → ParseResult → Result Bool
  is_graph_url is_path parsed =
      if text_eq (lower parsed.scheme) (text "https")
        && is_text (text "graph.microsoft.com")
            (elim parsed.hostname [ none ↦ none | some host ↦ some (lower host) ])
        && not (present parsed.username)
        && not (present parsed.password)
      then port_then parsed.port
          (is_empty parsed.fragment && is_empty parsed.params && is_path parsed.path)
      else ok false

  abbrev pub url_checked : (Text → Bool) → Option ParseResult → Result ParseResult
  url_checked is_path none = err connector_unavailable
  url_checked is_path (some parsed) = do
    safe ← is_graph_url is_path parsed
    if safe then ok parsed else err connector_unavailable

  abbrev pub is_list_path : Text → Bool
  is_list_path path = text_eq (without_slashes path) (text "/v1.0/me/messages")

  abbrev pub is_attachments_path : Text → Text → Bool
  is_attachments_path id path =
      text_eq (without_slashes (unquote path))
        (text "/v1.0/me/messages/" ++ (id ++ text "/attachments"))

  -- The query of a link: `$skiptoken` goes before `$skip`.
  unfoldable pub continuation_in : ParseResult → Result Continuation
  unfolding values_of first_query_value
  continuation_in parsed =
      let params = parse_qs parsed.query in
      continuation_of (first_query_value (values_of (text "$skiptoken") params))
        (first_query_value (values_of (text "$skip") params))

  -- The continuation of a link to the list of messages
  unfoldable pub list_continuation : Text → Result Continuation
  unfolding is_graph_url continuation_in
  list_continuation next_link = do
    parsed ← url_checked is_list_path (urlparse next_link)
    continuation_in parsed

  abbrev pub cursor_of : Continuation → Text
  cursor_of (skiptoken token) = text "st." ++ quote token
  cursor_of (skip n) = text "sk." ++ quote n

  unfoldable pub opaque_cursor_from_next_link : Option Text → Result (Option Text)
  unfolding list_continuation
  opaque_cursor_from_next_link none = ok none
  opaque_cursor_from_next_link (some next_link) = do
    continuation ← list_continuation next_link
    ok (some (cursor_of continuation))

  abbrev pub params_of : Continuation → Params
  params_of (skiptoken token) = (text "$skiptoken", string token) ∷ []
  params_of (skip n) = (text "$skip", string n) ∷ []

  unfoldable pub attachment_pagination_params_from_next_link : Text → Text → Result Params
  unfolding is_graph_url continuation_in
  attachment_pagination_params_from_next_link next_link provider_message_id = do
    parsed ← url_checked (is_attachments_path provider_message_id) (urlparse next_link)
    continuation ← continuation_in parsed
    ok (attachment_list_query_params ++ params_of continuation)

  unfoldable pub looks_like_url : Text → Bool
  unfolding contains starts_with
  looks_like_url value =
      let stripped = strip value in
      let lowered = lower stripped in
      contains (text "://") stripped
      || starts_with (text "//") lowered
      || starts_with (text "http") lowered

  abbrev pub unless_blank : (Text → Continuation) → Text → Result Params
  unless_blank continue value =
      if is_empty (strip value)
      then err connector_invalid_cursor
      else ok (params_of (continue value))

  unfoldable pub pagination_params_from_cursor : Text → Result Params
  unfolding looks_like_url starts_with
  pagination_params_from_cursor cursor =
      if looks_like_url cursor
      then err connector_invalid_cursor
      else if starts_with (text "st.") cursor
      then unless_blank skiptoken (unquote (drop 3 cursor))
      else if starts_with (text "sk.") cursor
      then unless_blank skip (unquote (drop 3 cursor))
      else err connector_invalid_cursor

  unfoldable pub list_query_params : ℕ → Option Text → Result Params
  unfolding pagination_params_from_cursor
  list_query_params limit none =
      ok ((text "$top", number limit) ∷ (text "$select", string (text "id")) ∷ [])
  list_query_params limit (some cursor) = do
    params ← pagination_params_from_cursor cursor
    ok ((text "$top", number limit) ∷ (text "$select", string (text "id")) ∷ params)
