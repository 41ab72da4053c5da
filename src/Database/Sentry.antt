-- ===== src/Database/Sentry.antt =====
-- The candidates of the Sentry checks, src/database/repository.rs.
--
-- The collation that orders `neo_reference_id` is a parameter.
use rustroid_sentinel.Prelude.{
  String, Bool, true, Option, none, some, List, [], ◌∷◌, ltb, ◌==◌, ◌&&◌, any, filter, map,
}
use rustroid_sentinel.Models.{Uuid, DateTime, Asteroid}
use rustroid_sentinel.Database.{Db}
use rustroid_sentinel.Database.Orbits.{Candidate, candidate_of, in_order}
use rustroid_sentinel.Catalog.{order_rows}

-- `sentry_checked_at IS NULL OR sentry_checked_at < $1`
abbrev pub is_old_check : DateTime → Option DateTime → Bool
is_old_check stale_before none = true
is_old_check stale_before (some checked_at) = ltb checked_at stale_before

abbrev pub needs_check : DateTime → Asteroid → Bool
needs_check stale_before a = a.is_sentry_object && is_old_check stale_before a.sentry_checked_at

module _ (collates : String → String → Bool) where
  unfoldable pub asteroids_needing_sentry_check : Db → DateTime → List Candidate
  asteroids_needing_sentry_check db stale_before =
      order_rows (in_order collates)
        (map candidate_of (filter (needs_check stale_before) db.asteroids))

  unfoldable pub sentry_candidates_for_ids : Db → List Uuid → List Candidate
  sentry_candidates_for_ids db [] = []
  sentry_candidates_for_ids db (i ∷ ids) = order_rows (in_order collates) (
      map candidate_of (
        filter (λ (a : Asteroid). a.is_sentry_object && any (λ j. j == a.id) (i ∷ ids))
          db.asteroids))
