-- ===== src/Connectors/BodyTexts.antt =====
-- The text parts of a Gmail message: where `_iter_text_parts` of
-- app/infrastructure/connectors/gmail/normalization.py takes them from.
use mathlib.Core.Path.{subst}
use enterprise_communication.Prelude.{
  ◌≡◌, ◌⊎◌, inl, inr, refl, false, List, [], ◌∷◌, ◌++◌, All, All-append, Bool-cases,
}
use enterprise_communication.Text.{Text, text, text_eq}
use enterprise_communication.Errors.{ok, ok-eq, >>=-eq-ok}
use enterprise_communication.Connectors.Json.{
  Json, null, boolean, natural, negative, float, string, Items, end, item, Fields, closed, field,
  object, array,
}
use enterprise_communication.Connectors.MimeTree.{
  is_attachment, iter_mime_parts, nested_in, listed_in, parts_of,
}
use enterprise_communication.Connectors.GmailText.{
  TextLibrary, TextKind, own_text, iter_text_parts, texts_in, texts_listed, texts_of,
}

abbrev pub Among : {A : Type 0} → A → List A → Type 0
Among x [] = ⊥
Among x (y ∷ ys) = (x ≡ y) ⊎ Among x ys

Among-left : {A : Type 0} (x : A) (xs ys : List A) → Among x xs → Among x (xs ++ ys)
Among-left x [] ys m = absurd m
Among-left x (y ∷ xs) ys (inl e) = inl e
Among-left x (y ∷ xs) ys (inr m) = inr (Among-left x xs ys m)

Among-right : {A : Type 0} (x : A) (xs ys : List A) → Among x ys → Among x (xs ++ ys)
Among-right x [] ys m = m
Among-right x (y ∷ xs) ys m = inr (Among-right x xs ys m)

All-map :
    {A : Type 0} (P Q : A → Type 0) (xs : List A) → ((x : A) → P x → Q x) → All P xs → All Q xs
All-map P Q [] k a = tt
All-map P Q (x ∷ xs) k a = (k x a.0, All-map P Q xs k a.1)

All-Among : {A : Type 0} (xs : List A) → All (λ x. Among x xs) xs
All-Among [] = tt
All-Among {A} (y ∷ xs) =
    (inl refl, All-map (λ x. Among x xs) (λ x. Among x (y ∷ xs)) xs (λ x m. inr m) (All-Among xs))

module _ (library : TextLibrary) where
  -- The text of a part that is no attachment
  pub record IsSourced (parts : List Fields) (t : TextKind × Text) : Type 0 where
    pub part : Fields
    pub among : Among part parts
    pub visible : is_attachment library.mail part ≡ false
    pub texts : List (TextKind × Text)
    pub decoded : own_text library part ≡ ok texts
    pub own : Among t texts

  widened :
      (parts more : List Fields) (t : TextKind × Text)
      → ((p : Fields) → Among p parts → Among p more)
      → IsSourced parts t
      → IsSourced more t
  widened parts more t k s = record {
    part = s.part;
    among = k s.part s.among;
    visible = s.visible;
    texts = s.texts;
    decoded = s.decoded;
    own = s.own;
  }

  mutual
    unfolding iter_text_parts iter_mime_parts

    iter-IsSourced :
        (value : Json) (texts : List (TextKind × Text))
        → iter_text_parts library value ≡ ok texts
        → All (IsSourced (iter_mime_parts library.mail value)) texts
    iter-IsSourced (object part) texts e = elim (Bool-cases (is_attachment library.mail part)) [
      | inl file ↦
          subst (All (IsSourced (iter_mime_parts library.mail (object part))))
            (ok-eq [] texts (rw (file, iter_text_parts) at e)) tt
      | inr visible ↦
          let (own, here, k) =
            >>=-eq-ok (own_text library part) _ texts (rw (visible, iter_text_parts) at e) in
          let (nested, inner, same) = >>=-eq-ok (texts_in library part) _ texts k in
          let below = nested-IsSourced part nested inner in
          rw (← (ok-eq (own ++ nested) texts same), visible)
            (All-append (IsSourced (part ∷ nested_in library.mail part)) own nested
              (All-map (λ t. Among t own) _ own
                (λ t m. record {
                  part = part;
                  among = inl refl;
                  visible = visible;
                  texts = own;
                  decoded = here;
                  own = m;
                })
                (All-Among own))
              (All-map _ _ nested (λ t s. widened _ _ t (λ p m. inr m) s) below))
    ]
    iter-IsSourced null texts e = subst (All _) (ok-eq [] texts e) tt
    iter-IsSourced (boolean b) texts e = subst (All _) (ok-eq [] texts e) tt
    iter-IsSourced (natural n) texts e = subst (All _) (ok-eq [] texts e) tt
    iter-IsSourced (negative n) texts e = subst (All _) (ok-eq [] texts e) tt
    iter-IsSourced (float n) texts e = subst (All _) (ok-eq [] texts e) tt
    iter-IsSourced (string s) texts e = subst (All _) (ok-eq [] texts e) tt
    iter-IsSourced (array elements) texts e = subst (All _) (ok-eq [] texts e) tt

    nested-IsSourced :
        (part : Fields) (texts : List (TextKind × Text))
        → texts_in library part ≡ ok texts
        → All (IsSourced (nested_in library.mail part)) texts
    nested-IsSourced closed texts e = subst (All _) (ok-eq [] texts e) tt
    nested-IsSourced (field key value rest) texts e =
        elim (Bool-cases (text_eq key (text "parts"))) [
          | inl here ↦ rw here (listed-IsSourced value texts (rw (here, texts_in) at e))
          | inr other ↦ rw other (nested-IsSourced rest texts (rw (other, texts_in) at e))
        ]

    listed-IsSourced :
        (value : Json) (texts : List (TextKind × Text))
        → texts_listed library value ≡ ok texts
        → All (IsSourced (listed_in library.mail value)) texts
    listed-IsSourced (array elements) texts e = parts-IsSourced elements texts e
    listed-IsSourced null texts e = subst (All _) (ok-eq [] texts e) tt
    listed-IsSourced (boolean b) texts e = subst (All _) (ok-eq [] texts e) tt
    listed-IsSourced (natural n) texts e = subst (All _) (ok-eq [] texts e) tt
    listed-IsSourced (negative n) texts e = subst (All _) (ok-eq [] texts e) tt
    listed-IsSourced (float n) texts e = subst (All _) (ok-eq [] texts e) tt
    listed-IsSourced (string s) texts e = subst (All _) (ok-eq [] texts e) tt
    listed-IsSourced (object fields) texts e = subst (All _) (ok-eq [] texts e) tt

    parts-IsSourced :
        (elements : Items) (texts : List (TextKind × Text))
        → texts_of library elements ≡ ok texts
        → All (IsSourced (parts_of library.mail elements)) texts
    parts-IsSourced end texts e = subst (All _) (ok-eq [] texts e) tt
    parts-IsSourced (item part rest) texts e =
        let (first, here, k) = >>=-eq-ok (iter_text_parts library part) _ texts e in
        let (others, later, same) = >>=-eq-ok (texts_of library rest) _ texts k in
        subst (All _) (ok-eq (first ++ others) texts same) (
          All-append _ first others
            (All-map _ _ first (λ t s. widened _ _ t (λ p m. Among-left p _ _ m) s)
              (iter-IsSourced part first here))
            (All-map _ _ others (λ t s. widened _ _ t (λ p m. Among-right p _ _ m) s)
              (parts-IsSourced rest others later)))

  -- Every text that _iter_text_parts collects from a tree is the decoded text of one of its MIME
  -- parts that is no attachment, and that the listing of attachments visits too, in no attachment
  -- itself.
  pub iter_text_parts-IsSourced :
      (tree : Json) (texts : List (TextKind × Text))
      → iter_text_parts library tree ≡ ok texts
      → All (IsSourced (iter_mime_parts library.mail tree)) texts
  iter_text_parts-IsSourced tree texts e = iter-IsSourced tree texts e
