-- ===== src/Catalog/History/Links.antt =====
-- The links of src/api/handlers/catalog.rs: back leads where forth came from.
use Prim.Native.Char.{Char}
use Prim.Native.String.{[] as empty_text, ◌∷◌ as ◌▸◌}
use text.Mathlib.TextEquality.{Char-path}
use text.Mathlib.TextLemmas.{nil-append, cons-append, append_assoc, cons-ne-nil}
use rustroid_sentinel.Prelude.{
  String, ◌<>◌, ◌≡◌, ◌∙◌, ◌⊎◌, inl, inr, refl, ap, sym, Bool, true, false, ◌||◌, Option, none, some,
  List, [], ◌∷◌, ◌++◌, str_eq, str_eq_iff, arith, Bool-cases, Option-cases,
}
use rustroid_sentinel.Catalog.History.{
  is_comma, before_first, split_commas, join_commas, history_root, parse_history, history_token,
  pop_last, cursor_of_token, page_links,
}

abbrev the_comma : Char
the_comma = ","

abbrev pub has_comma : String → Bool
has_comma empty_text = false
has_comma (c ▸ s) = is_comma c || has_comma s

-- The parts of a text are one at least.
split_commas_parts : (s : String) → (p : String) × (ps : List String) × (split_commas s ≡ p ∷ ps)
unfolding split_commas
split_commas_parts empty_text = ("", [], refl)
split_commas_parts (c ▸ s) = elim (Bool-cases (is_comma c)) [
  | inl comma ↦ ("", split_commas s, rw comma refl)
  | inr other ↦
      let (p, ps, e) = split_commas_parts s in (c ▸ p, ps, rw (split_commas, other, e) refl)
]

join_commas-put :
    (c : Char) (p : String) (ps : List String)
    → join_commas ((c ▸ p) ∷ ps) ≡ c ▸ join_commas (p ∷ ps)
unfolding join_commas
join_commas-put c p [] = refl
join_commas-put c p (q ∷ ps) = cons-append c p ("," <> join_commas (q ∷ ps))

comma_char : (c : Char) → is_comma c ≡ true → ("," ≡ c ▸ empty_text)
comma_char c h = ap (λ d. d ▸ empty_text) (Char-path _ c (sym (ground arith)))

join_commas-split_commas : (s : String) → join_commas (split_commas s) ≡ s
unfolding split_commas join_commas
join_commas-split_commas empty_text = refl
join_commas-split_commas (c ▸ s) =
    let (p, ps, e) = split_commas_parts s in
    let whole : join_commas (p ∷ ps) ≡ s = ap join_commas (sym e) ∙ join_commas-split_commas s in
    elim (Bool-cases (is_comma c)) [
      | inl comma ↦
          rw (split_commas, comma, e)
            (nil-append ("," <> join_commas (p ∷ ps))
              ∙ ap (λ t. t <> join_commas (p ∷ ps)) (comma_char c comma)
              ∙ cons-append c "" (join_commas (p ∷ ps))
              ∙ ap (λ t. c ▸ t) (nil-append (join_commas (p ∷ ps)) ∙ whole))
      | inr other ↦ rw (split_commas, other, e) (join_commas-put c p ps ∙ ap (λ t. c ▸ t) whole)
    ]

split_commas_one : (t : String) → has_comma t ≡ false → split_commas t ≡ t ∷ []
unfolding split_commas
split_commas_one empty_text h = refl
split_commas_one (c ▸ s) h = elim (Bool-cases (is_comma c)) [
  | inl comma ↦ absurd (ground arith)
  | inr other ↦ rw (split_commas, other, split_commas_one s (ground arith)) refl
]

before_first-append :
    (c : Char) (p : String) (ps qs : List String)
    → before_first c ((p ∷ ps) ++ qs) ≡ before_first c (p ∷ ps) ++ qs
before_first-append c p ps qs = refl

split_commas-append :
    (s t : String) → has_comma t ≡ false → split_commas (s <> ("," <> t)) ≡ split_commas s ++ t ∷ []
unfolding split_commas
split_commas-append empty_text t h =
    let text : "" <> ("," <> t) ≡ the_comma ▸ t =
      nil-append ("," <> t) ∙ cons-append the_comma "" t ∙ ap (λ s. the_comma ▸ s) (nil-append t) in
    let parts : split_commas (the_comma ▸ t) ≡ "" ∷ split_commas t = refl in
    ap split_commas text ∙ parts ∙ ap (λ l. "" ∷ l) (split_commas_one t h)
split_commas-append (c ▸ s) t h =
    let rest = split_commas-append s t h in
    let text : (c ▸ s) <> ("," <> t) ≡ c ▸ (s <> ("," <> t)) = cons-append c s ("," <> t) in
    ap split_commas text ∙ put rest (Bool-cases (is_comma c))
  where
    put :
        split_commas (s <> ("," <> t)) ≡ split_commas s ++ t ∷ []
        → ((is_comma c ≡ true) ⊎ (is_comma c ≡ false))
        → split_commas (c ▸ (s <> ("," <> t))) ≡ split_commas (c ▸ s) ++ t ∷ []
    put rest (inl comma) = rw (split_commas, comma) (ap (λ l. "" ∷ l) rest)
    put rest (inr other) =
        let (p, ps, e) = split_commas_parts s in rw (split_commas, other, rest, e) refl

join_commas-last :
    (p : String) (ps : List String) (t : String)
    → join_commas ((p ∷ ps) ++ t ∷ []) ≡ join_commas (p ∷ ps) <> ("," <> t)
unfolding join_commas
join_commas-last p [] t = refl
join_commas-last p (q ∷ ps) t =
    ap (λ u. p <> ("," <> u)) (join_commas-last q ps t)
    ∙ ap (λ u. p <> u) (sym (append_assoc "," (join_commas (q ∷ ps)) ("," <> t)))
    ∙ sym (append_assoc p ("," <> join_commas (q ∷ ps)) ("," <> t))

pop_last-append {ℓ} : {A : Type ℓ} (xs : List A) (x : A) → pop_last (xs ++ x ∷ []) ≡ some (xs, x)
pop_last-append [] x = refl
pop_last-append (y ∷ xs) x = rw (pop_last-append xs x) refl

-- What a cursor in a request is: absent, or text without commas that is not the token of the first
-- page.
abbrev pub IsCursor : Option String → Type 0
IsCursor none = Unit
IsCursor (some t) = (str_eq t "" ≡ false) × (str_eq t history_root ≡ false) × (has_comma t ≡ false)

abbrev pub text_or_empty : Option String → String
text_or_empty none = ""
text_or_empty (some t) = t

-- What the links make of the token of a cursor, and that it can be split off.
token_facts :
    (cursor : Option String)
    → IsCursor cursor
    → (cursor_of_token (history_token cursor) ≡ text_or_empty cursor)
      × (has_comma (history_token cursor) ≡ false)
      × (str_eq (history_token cursor) "" ≡ false)
unfolding history_token
token_facts none _ = (refl, refl, refl)
token_facts (some t) (full, other, plain) = (rw other refl, plain, full)

append-comma_full : (s t : String) → str_eq (s <> ("," <> t)) "" ≡ false
append-comma_full s t = elim (Bool-cases (str_eq (s <> ("," <> t)) "")) [
  | inr full ↦ full
  | inl empty ↦ absurd (nothing s ((str_eq_iff _ _).0 empty))
]
  where
    put : (s : String) → (c : Char) × (r : String) × (s <> ("," <> t) ≡ c ▸ r)
    put empty_text = (
      the_comma,
      t,
      nil-append ("," <> t) ∙ cons-append the_comma "" t ∙ ap (λ u. the_comma ▸ u) (nil-append t),
    )
    put (c ▸ s) = (c, s <> ("," <> t), cons-append c s ("," <> t))

    nothing : (s : String) → s <> ("," <> t) ≡ "" → ⊥
    nothing s e = let (c, r, same) = put s in cons-ne-nil c r (sym same ∙ e)

-- The history that Next carries is read back as the stack with the token of the page on top.
parse_history-next :
    (history : Option String) (token : String)
    → has_comma token ≡ false
    → str_eq token "" ≡ false
    → (parse_history (some (join_commas (parse_history history ++ token ∷ [])))
        ≡ parse_history history ++ token ∷ [])
      × (join_commas (parse_history history) ≡ text_or_empty history)
unfolding parse_history join_commas
parse_history-next none token plain full = (rw full (split_commas_one token plain), refl)
parse_history-next (some s) token plain full = elim (Bool-cases (str_eq s "")) [
  | inl empty ↦
      rw (parse_history, empty)
        (rw full (split_commas_one token plain), sym ((str_eq_iff s "").0 empty))
  | inr filled ↦
      let (p, ps, e) = split_commas_parts s in
      let text : join_commas (split_commas s ++ token ∷ []) ≡ s <> ("," <> token) =
        ap (λ l. join_commas (l ++ token ∷ [])) e
        ∙ join_commas-last p ps token
        ∙ ap (λ u. u <> ("," <> token)) (ap join_commas (sym e) ∙ join_commas-split_commas s) in
      rw (parse_history, filled)
        (
          rw (text, append-comma_full s token) (split_commas-append s token plain),
          join_commas-split_commas s,
        )
]

next_history_lem :
    (cursor history : Option String)
    → (page_links cursor history).next_history
      ≡ join_commas (parse_history history ++ history_token cursor ∷ [])
unfolding page_links
next_history_lem cursor history = elim (Option-cases (pop_last (parse_history history))) [
  | inl e ↦ rw (page_links, e) refl
  | inr ((stack, token), e) ↦ rw (page_links, e) refl
]

prev_links_lem :
    (cursor history : Option String) (stack : List String) (token : String)
    → pop_last (parse_history history) ≡ some (stack, token)
    → ((page_links cursor history).has_prev ≡ true)
      × ((page_links cursor history).prev_cursor ≡ cursor_of_token token)
      × ((page_links cursor history).prev_history ≡ join_commas stack)
unfolding page_links
prev_links_lem cursor history stack token e = rw (page_links, e) (refl, refl, refl)

-- The Prev link of the page that Next leads to asks for the page it came from: for its cursor, or
-- none if it had none, and with its history, whatever that was. So no page is lost or repeated on
-- the way back. The cursor of the page is absent or a token without commas other than `~`.
pub page_links_round_trip :
    (cursor history : Option String) (token : String)
    → IsCursor cursor
    → let next = page_links cursor history in
      let back = page_links (some token) (some next.next_history) in
      (back.has_prev ≡ true)
      × (back.prev_cursor ≡ text_or_empty cursor)
      × (back.prev_history ≡ text_or_empty history)
page_links_round_trip cursor history token h =
    let (same, plain, full) = token_facts cursor h in
    let (stack, before) = parse_history-next history (history_token cursor) plain full in
    let popped : pop_last (parse_history (some (page_links cursor history).next_history))
        ≡ some (parse_history history, history_token cursor) =
      ap (λ n. pop_last (parse_history (some n))) (next_history_lem cursor history)
      ∙ ap pop_last stack
      ∙ pop_last-append (parse_history history) (history_token cursor) in
    let (has_prev, prev_cursor, prev_history) =
      prev_links_lem (some token) (some (page_links cursor history).next_history)
        (parse_history history) (history_token cursor) popped in
    (has_prev, prev_cursor ∙ same, prev_history ∙ before)
