-- ===== src/Events.antt =====
-- The endpoints of hazard events: src/api/handlers/internal_events.rs, and in Events/Subscribers
-- src/api/handlers/hazard_events_sse.rs.
--
-- A byte is a number below 256. A channel is the list of the events that were sent on it.
pub mod Token
pub mod Subscribers
use Prim.Native.Nat.{bit_xor, bit_or}
use rustroid_sentinel.Prelude.{
  ℕ, ◌+◌, Bool, true, false, not, Option, none, some, List, [], ◌∷◌, ◌++◌, ◌==◌, if◌then◌else◌,
  length,
}
use rustroid_sentinel.Database.HazardEvents.{HazardEvent}

-- The loop over `a.iter().zip(b.iter())`, from the differences so far.
unfoldable pub fold_diff : ℕ → List ℕ → List ℕ → ℕ
fold_diff diff [] bs = diff
fold_diff diff (x ∷ xs) [] = diff
fold_diff diff (x ∷ xs) (y ∷ ys) = fold_diff (bit_or diff (bit_xor x y)) xs ys

unfoldable pub constant_time_eq : List ℕ → List ℕ → Bool
unfolding fold_diff
constant_time_eq a b = if not (length a == length b) then false else fold_diff 0 a b == 0

pub data StatusCode : Type 0 where
  accepted unauthorized : StatusCode

-- The value of the header: none if it is missing or is not text.
abbrev pub provided_token : Option (List ℕ) → List ℕ
provided_token none = []
provided_token (some value) = value

unfoldable pub ingest_events :
    List ℕ → Option (List ℕ) → List HazardEvent → List HazardEvent → StatusCode × List HazardEvent
unfolding constant_time_eq
ingest_events internal_event_token header events sent =
    if not (constant_time_eq (provided_token header) internal_event_token)
    then (unauthorized, sent)
    else (accepted, sent ++ events)
