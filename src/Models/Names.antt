-- ===== src/Models/Names.antt =====
-- The names of the hazard classifications, src/models/mod.rs.
use rustroid_sentinel.Prelude.{◌≡◌, ◌⊎◌, inr, String, arith, str_eq_iff, refl}
use rustroid_sentinel.Models.{
  HazardClassification, to_string, from_str_lossy, critical, high, medium, low,
}

-- A classification is read back from its text. A text that is read as a classification is its
-- text, or else it is read as `low`.
pub from_str_lossy_lem :
    (h : HazardClassification) (s : String)
    → (from_str_lossy (to_string h) ≡ h) × (from_str_lossy s ≡ h → (s ≡ to_string h) ⊎ (h ≡ low))
unfolding to_string from_str_lossy
from_str_lossy_lem critical s = (refl, λ e. ground (arith, str_eq_iff s "Critical"))
from_str_lossy_lem high s = (refl, λ e. ground (arith, str_eq_iff s "High"))
from_str_lossy_lem medium s = (refl, λ e. ground (arith, str_eq_iff s "Medium"))
from_str_lossy_lem low s = (refl, λ e. inr refl)
