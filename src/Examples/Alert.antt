-- ===== src/Examples/Alert.antt =====
-- An alert for one of two approaches.
use rustroid_sentinel.Prelude.{◌+◌, ◌≡◌, ◌==◌, refl, true, false, Bool, List, [], ◌∷◌, leb}
use rustroid_sentinel.Models.{Uuid}
use rustroid_sentinel.Alert.{
  AlertCandidate, is_unalerted, insert_by_date, by_date, unalerted, check_and_send_alerts,
}
use rustroid_sentinel.Alert.Once.{takes_up, is_alerted, check_and_send_alerts_once}

abbrev candidate : Uuid → AlertCandidate
candidate i = record {
  approach_id = i;
  asteroid_name = "Apophis";
  close_approach_date = 100 + i;
  miss_distance_km = 0;
  velocity_km_per_h = 0;
  hazard_classification = "Critical";
  is_potentially_hazardous = true;
}

abbrev earlier : AlertCandidate → AlertCandidate → Bool
earlier r s = leb r.close_approach_date s.close_approach_date

-- The message for the second approach fails.
abbrev sends : Uuid → Bool
sends i = i == 1

abbrev approaches : List AlertCandidate
approaches = candidate 2 ∷ candidate 1 ∷ []

check_and_send_alerts_once_example :
    (is_alerted 1 [] ≡ false)
    × (is_alerted 1 (check_and_send_alerts earlier sends (λ i. true) 10 50 approaches []) ≡ true)
    × (takes_up 1 (
          unalerted earlier 10 51
            (check_and_send_alerts earlier sends (λ i. true) 10 50 approaches [])
            approaches)
        ≡ false)
unfolding unalerted is_unalerted insert_by_date by_date
check_and_send_alerts_once_example =
    check_and_send_alerts_once earlier sends (λ i. true) 10 50 51 approaches approaches [] 1 refl
      refl refl
