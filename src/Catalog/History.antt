-- ===== src/Catalog/History.antt =====
-- The Prev and Next links of the catalog, src/api/handlers/catalog.rs.
--
-- Text is its list of characters: `c ▸ s` puts a character in front.
pub mod Links
use Prim.Native.Char.{Char, code}
use Prim.Native.String.{[] as empty_text, ◌∷◌ as ◌▸◌}
use rustroid_sentinel.Prelude.{
  ℕ, String, ◌<>◌, Bool, true, false, Option, none, some, List, [], ◌∷◌, ◌++◌, ◌==◌, str_eq,
  if◌then◌else◌,
}

abbrev pub is_comma : Char → Bool
is_comma c = code c == 44

-- A character in front of the first part.
abbrev pub before_first : Char → List String → List String
before_first c [] = (c ▸ empty_text) ∷ []
before_first c (part ∷ parts) = (c ▸ part) ∷ parts

-- `split(',')`
unfoldable pub split_commas : String → List String
split_commas empty_text = "" ∷ []
split_commas (c ▸ s) =
    let rest = split_commas s in if is_comma c then "" ∷ rest else before_first c rest

-- `join(",")`
unfoldable pub join_commas : List String → String
join_commas [] = ""
join_commas (part ∷ []) = part
join_commas (part ∷ next ∷ parts) = part <> ("," <> join_commas (next ∷ parts))

abbrev pub history_root : String
history_root = "~"

unfoldable pub parse_history : Option String → List String
unfolding split_commas
parse_history none = []
parse_history (some s) = if str_eq s "" then [] else split_commas s

unfoldable pub history_token : Option String → String
history_token none = history_root
history_token (some cursor) = cursor

pub record PageLinks : Type 0 where
  pub next_history : String
  pub has_prev : Bool
  pub prev_cursor : String
  pub prev_history : String

-- `pop`: the last element and those before it.
abbrev pub pop_last {ℓ} : {A : Type ℓ} → List A → Option (List A × A)
pop_last [] = none
pop_last (x ∷ xs) = elim (pop_last xs) [ none ↦ some ([], x) | some (ys, y) ↦ some (x ∷ ys, y) ]

abbrev pub cursor_of_token : String → String
cursor_of_token token = if str_eq token history_root then "" else token

-- The links of a page with the given `cursor` and `cursor_history`.
unfoldable pub page_links : Option String → Option String → PageLinks
unfolding join_commas parse_history history_token
page_links cursor history =
    let incoming = parse_history history in
    let next = join_commas (incoming ++ history_token cursor ∷ []) in
    elim (pop_last incoming) [
      | none ↦ record { next_history = next; has_prev = false; prev_cursor = ""; prev_history = "" }
      | some (stack, token) ↦ record {
        next_history = next;
        has_prev = true;
        prev_cursor = cursor_of_token token;
        prev_history = join_commas stack;
      }
    ]
