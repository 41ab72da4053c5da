-- ===== src/Transform/Hazard.antt =====
-- The hazard classification of src/transform/mod.rs.
use rustroid_sentinel.Prelude.{ℕ, ◌≡◌, ◌≤◌, Bool, true, arith}
use rustroid_sentinel.Float.{F64, le, lt-le_trans, le-lt_trans}
use rustroid_sentinel.Models.{HazardClassification, critical, high, medium, low}
use rustroid_sentinel.Transform.{classify_hazard}

-- The rank that the dashboard's `CASE` gives a classification.
abbrev pub severity : HazardClassification → ℕ
severity critical = 4
severity high = 3
severity medium = 2
severity low = 1

-- An object that is at least as large, at least as fast and passes at least as near, and that is
-- designated hazardous if the other is, is classified at least as severely.
pub classify_hazard_mono :
    (d d' v v' m m' : F64) (pha pha' : Bool)
    → le d d' ≡ true
    → le v v' ≡ true
    → le m' m ≡ true
    → (pha ≡ true → pha' ≡ true)
    → severity (classify_hazard d v m pha) ≤ severity (classify_hazard d' v' m' pha')
unfolding classify_hazard
classify_hazard_mono d d' v v' m m' pha pha' hd hv hm hp = ground (
  arith,
  lt-le_trans 0x3fe0000000000000 d d',
  lt-le_trans 0x3fb999999999999a d d',
  lt-le_trans 0x4034000000000000 v v',
  lt-le_trans 0x4024000000000000 v v',
  le-lt_trans m' m 0x3fa999999999999a,
  le-lt_trans m' m 0x3fb999999999999a,
)
