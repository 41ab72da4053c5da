-- ===== src/Sentry/Updates.antt =====
-- Updates of the Sentry columns one after another, src/database/repository.rs.
use rustroid_sentinel.Prelude.{
  ◌≡◌, refl, ap, Option, none, some, List, [], ◌∷◌, ◌++◌, Option-cases, inl, inr,
}
use rustroid_sentinel.Models.{Uuid, DateTime, Asteroid}
use rustroid_sentinel.Sentry.{Update, find_update, set_scales, update_rows}

-- The later of two answers.
abbrev pub later : Option Update → Option Update → Option Update
later (some v) o = some v
later none o = o

find_update-append :
    (i : Uuid) (us vs : List Update)
    → find_update i (us ++ vs) ≡ later (find_update i vs) (find_update i us)
unfolding find_update
find_update-append i [] vs = elim (Option-cases (find_update i vs)) [
  | inl none_found ↦ rw none_found refl
  | inr (v, one) ↦ rw one refl
]
find_update-append i (u ∷ us) vs = elim (Option-cases (find_update i vs)) [
  | inl none_found ↦ rw (find_update-append i us vs, none_found) refl
  | inr (v, one) ↦ rw (find_update-append i us vs, one) refl
]

id-set_scales : (now : DateTime) (o : Option Update) (a : Asteroid) → (set_scales now o a).id ≡ a.id
id-set_scales now none a = refl
id-set_scales now (some u) a = refl

set_scales-later :
    (now : DateTime) (o o' : Option Update) (a : Asteroid)
    → set_scales now o' (set_scales now o a) ≡ set_scales now (later o' o) a
set_scales-later now none none a = refl
set_scales-later now (some u) none a = refl
set_scales-later now none (some v) a = refl
set_scales-later now (some u) (some v) a = refl

-- Two updates at one time are one.
pub update_rows-append :
    (now : DateTime) (us vs : List Update) (rows : List Asteroid)
    → update_rows now vs (update_rows now us rows) ≡ update_rows now (us ++ vs) rows
update_rows-append now us vs [] = refl
update_rows-append now us vs (a ∷ rows) =
    rw
      (
        id-set_scales now (find_update a.id us) a,
        find_update-append a.id us vs,
        set_scales-later now (find_update a.id us) (find_update a.id vs) a,
        update_rows-append now us vs rows,
      )
      refl

pub update_rows-none : (now : DateTime) (rows : List Asteroid) → update_rows now [] rows ≡ rows
unfolding find_update
update_rows-none now [] = refl
update_rows-none now (a ∷ rows) = ap (λ l. a ∷ l) (update_rows-none now rows)
