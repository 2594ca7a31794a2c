-- ===== src/Connectors/Cursors.antt =====
-- Cursors of the Microsoft Graph lists: what opaque_cursor_from_next_link makes, against what
-- pagination_params_from_cursor reads.
use mathlib.Core.Path.{subst}
use enterprise_communication.Prelude.{
  ℕ, ◌≡◌, refl, Bool, true, false, ◌&&◌, ◌||◌, Option, none, some, List, [], ◌∷◌, ◌==◌, leb, All,
  Bool-cases, inl, inr, arith,
}
use enterprise_communication.Text.{Text, is_empty, strip, lstrip, rstrip, is_space}
use enterprise_communication.Text.Parts.{starts_with, contains}
use enterprise_communication.Errors.{ok, ok-eq, >>=-eq-ok}
use enterprise_communication.Connectors.GraphPages.{
  UrlLibrary, Continuation, skiptoken, skip, first_query_value, continuation_of, continuation_in,
  url_checked, is_list_path, list_continuation, cursor_of, opaque_cursor_from_next_link, params_of,
  looks_like_url, pagination_params_from_cursor,
}

-- A letter, a digit, one of `_.-~`, or `%`
abbrev pub is_quoted : ℕ → Bool
is_quoted c =
    leb 48 c && leb c 57
    || leb 65 c && leb c 90
    || leb 97 c && leb c 122
    || c == 95
    || c == 46
    || c == 45
    || c == 126
    || c == 37

-- What the documentation says of `quote(s, safe='')`, `unquote` and `str.lower`
pub record IsUrlLibrary (library : UrlLibrary) : Type 0 where
  pub unquote-quote : (s : Text) → library.unquote (library.quote s) ≡ s
  pub quoted : (s : Text) → All (λ (c : ℕ). is_quoted c ≡ true) (library.quote s)
  pub lower_head :
      (c : ℕ) (s : Text)
      → (leb 97 c && leb c 122) ≡ true
      → (t : Text) × (library.lower (c ∷ s) ≡ c ∷ t)

abbrev NoColon : Text → Type 0
NoColon s = All (λ (c : ℕ). (c == 58) ≡ false) s

contains-NoColon : (part s : Text) → NoColon s → contains (58 ∷ part) s ≡ false
unfolding contains starts_with
contains-NoColon part [] n = refl
contains-NoColon part (c ∷ s) n = ground (arith, contains-NoColon part s n.1, n.0)

quoted-NoColon : (s : Text) → All (λ (c : ℕ). is_quoted c ≡ true) s → NoColon s
quoted-NoColon [] a = tt
quoted-NoColon (c ∷ s) a = (ground arith, quoted-NoColon s a.1)

rstrip-NoColon : (s : Text) → NoColon s → NoColon (rstrip s)
unfolding rstrip
rstrip-NoColon [] n = tt
rstrip-NoColon (c ∷ s) n = elim (Bool-cases (is_space c && is_empty (rstrip s))) [
  | inl e ↦ rw e tt
  | inr e ↦ rw e (n.0, rstrip-NoColon s n.1)
]

nonblank-first :
    (values : List Text) (token : Text)
    → first_query_value values ≡ some token
    → is_empty (strip token) ≡ false
unfolding first_query_value
nonblank-first [] token e = absurd (cc)
nonblank-first (v ∷ values) token e = ground arith

abbrev value_of : Continuation → Text
value_of (skiptoken token) = token
value_of (skip n) = n

continuation_of-nonblank :
    (a b : List Text) (o p : Option Text) (k : Continuation)
    → first_query_value a ≡ o
    → first_query_value b ≡ p
    → continuation_of o p ≡ ok k
    → is_empty (strip (value_of k)) ≡ false
continuation_of-nonblank a b (some token) p k ha hb e =
    subst (λ (k : Continuation). is_empty (strip (value_of k)) ≡ false)
      (ok-eq (skiptoken token) k e) (nonblank-first a token ha)
continuation_of-nonblank a b none (some n) k ha hb e =
    subst (λ (k : Continuation). is_empty (strip (value_of k)) ≡ false) (ok-eq (skip n) k e)
      (nonblank-first b n hb)
continuation_of-nonblank a b none none k ha hb e = absurd (cc)

module _ (library : UrlLibrary) (lawful : IsUrlLibrary library) where
  -- A text that starts with `s` and has no colon is no link.
  not_url : (s : Text) → NoColon s → looks_like_url library (115 ∷ s) ≡ false
  unfolding looks_like_url strip lstrip rstrip is_space starts_with
  not_url s n =
      let (t, e) = lawful.lower_head 115 (rstrip s) refl in
      rw (e, contains-NoColon (47 ∷ 47 ∷ []) (115 ∷ rstrip s) (refl, rstrip-NoColon s n)) refl

  cursor_read :
      (k : Continuation)
      → is_empty (strip (value_of k)) ≡ false
      → pagination_params_from_cursor library (cursor_of library k) ≡ ok (params_of library k)
  unfolding pagination_params_from_cursor starts_with
  cursor_read (skiptoken token) h =
      rw
        (
          not_url (116 ∷ 46 ∷ library.quote token)
              (refl, (refl, quoted-NoColon _ (lawful.quoted token))),
          lawful.unquote-quote token,
          h,
        )
        refl
  cursor_read (skip n) h =
      rw
        (
          not_url (107 ∷ 46 ∷ library.quote n) (refl, (refl, quoted-NoColon _ (lawful.quoted n))),
          lawful.unquote-quote n,
          h,
        )
        refl

  -- With quote, unquote and lower as documented, a cursor that opaque_cursor_from_next_link makes
  -- of a link is read back by pagination_params_from_cursor as the one parameter, $skiptoken or
  -- $skip, with the value that continues the list in this link.
  pub opaque_cursor-read :
      (next_link cursor : Text)
      → opaque_cursor_from_next_link library (some next_link) ≡ ok (some cursor)
      → (k : Continuation) × (list_continuation library next_link ≡ ok k)
        × (pagination_params_from_cursor library cursor ≡ ok (params_of library k))
  unfolding opaque_cursor_from_next_link list_continuation continuation_in
  opaque_cursor-read next_link cursor e =
      let (k, found, shape) = >>=-eq-ok (list_continuation library next_link) _ (some cursor) e in
      let (parsed, _, query) =
        >>=-eq-ok (url_checked library (is_list_path library) (library.urlparse next_link)) _ k
          found in
      let nonblank = continuation_of-nonblank _ _ _ _ k refl refl query in
      let same : cursor_of library k ≡ cursor = cc in
      (
        k,
        found,
        subst (λ (c : Text). pagination_params_from_cursor library c ≡ ok (params_of library k))
            same (cursor_read k nonblank),
      )
