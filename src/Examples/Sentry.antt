-- ===== src/Examples/Sentry.antt =====
-- The Sentry command on a small table.
use rustroid_sentinel.Prelude.{
  ◌≡◌, ℕ, refl, String, Bool, true, false, Option, none, some, List, [], ◌∷◌, ◌++◌, map, All-append,
  ok, returned,
}
use rustroid_sentinel.Models.{pos}
use rustroid_sentinel.Database.{Db}
use rustroid_sentinel.Database.Orbits.{Candidate}
use rustroid_sentinel.Orbits.Command.{stale_before}
use rustroid_sentinel.Sentry.{Lookup, found, SentryCheckSummary}
use rustroid_sentinel.Sentry.Command.{execute}
use rustroid_sentinel.Sentry.Command.Elements.{HasSameElements, All-unappend}
use rustroid_sentinel.Sentry.Command.Sweep.{joins, checked, nothing_down, execute_checks_due}
use rustroid_sentinel.Examples.{asteroid, empty_db}

abbrev collates : String → String → Bool
collates s t = true

-- Bennu is flagged and was never checked, Apophis is flagged and has a fresh check.
abbrev flagged_db : Db
flagged_db = record empty_db {
  asteroids =
      record (asteroid 10 "99942" "Apophis") {
        is_sentry_object = true;
        sentry_checked_at = some 4000000;
      }
      ∷ record (asteroid 11 "101955" "Bennu") { is_sentry_object = true }
      ∷ [];
}

abbrev answers : String → Lookup
answers ref = found (some (pos 0)) none

abbrev last_first : ℕ → List Candidate → List Candidate
last_first k [] = []
last_first k (c ∷ cs) = last_first k cs ++ c ∷ []

last_first-HasSameElements : (k : ℕ) (cs : List Candidate) → HasSameElements cs (last_first k cs)
last_first-HasSameElements k [] = (λ P h. h, λ P h. h)
last_first-HasSameElements k (c ∷ cs) =
    let (there, back) = last_first-HasSameElements k cs in
    (
      λ P (p, ps). All-append P (last_first k cs) (c ∷ []) (there P ps) (p, tt),
      λ P h. let (ps, p) = All-unappend P (last_first k cs) (c ∷ []) h in (p.0, back P ps),
    )

week_ago : stale_before false 4200000 7 ≡ returned 3595200
unfolding stale_before
week_ago = refl

execute_checks_due_example :
    (db' : Db) × (r : Option SentryCheckSummary) × (execute collates
        (joins answers last_first)
        (λ _. 4300000)
        nothing_down
        false
        7
        4200000
        flagged_db
      ≡ returned (db', ok r))
    × (db'.asteroids ≡ map (checked answers 4300000 3595200) flagged_db.asteroids)
execute_checks_due_example =
    execute_checks_due collates answers last_first 4300000 false 7 4200000 3595200 flagged_db
      week_ago last_first-HasSameElements (refl, (refl, tt))
