-- ===== src/Examples/Events.antt =====
-- Tokens and subscribers on concrete inputs.
use rustroid_sentinel.Prelude.{ℕ, ◌≤◌, ◌≡◌, ◌≢◌, ◌⊎◌, refl, none, some, List, [], ◌∷◌, arith}
use rustroid_sentinel.Events.{accepted, unauthorized, provided_token, ingest_events}
use rustroid_sentinel.Events.Token.{ingest_events_lem}
use rustroid_sentinel.Events.Subscribers.{
  Pc, arrived, loaded, attached, rejected, load, win, System, update, step, init, Reach, start,
  later,
}
use rustroid_sentinel.Events.Subscribers.Bound.{IsCounted, Reach-IsCounted}
use rustroid_sentinel.Events.Subscribers.Settling.{Settles, verdict, hazard_events_stream-Settles}

abbrev secret : List ℕ
secret = 115 ∷ 51 ∷ []

ingest_events_lem_example :
    (provided_token (some secret) ≡ secret
      → ingest_events secret (some secret) [] [] ≡ (accepted, []))
    × (provided_token (some secret) ≢ secret
        → ingest_events secret (some secret) [] [] ≡ (unauthorized, []))
    × (ingest_events [] none [] [] ≡ (accepted, []))
ingest_events_lem_example = ingest_events_lem secret (some secret) [] []

abbrev at_place : System → ℕ → ℕ → Pc → System
at_place s i count p = record { count = count; pc = update s.pc i p }

-- Two requests and one place: both load, then the first wins.
abbrev both_loaded : System
both_loaded = at_place (at_place init 0 0 (loaded 0)) 1 0 (loaded 0)

abbrev contended : System
contended = at_place both_loaded 0 1 attached

contended-Reach : Reach 1 2 contended
contended-Reach =
    later
      (later (later start (step {i = 0} (omega arith) refl load))
        (step {i = 1} (omega arith) refl load))
      (step {i = 0} (omega arith) refl (win (omega arith) refl))

Reach-IsCounted_example : IsCounted 1 2 contended
Reach-IsCounted_example = Reach-IsCounted (omega arith) contended-Reach

hazard_events_stream-Settles_example :
    (contended.pc 1 ≡ arrived → Settles 1 2 1 2 (verdict 1 contended.count) contended)
    × ((current : ℕ)
        → contended.pc 1 ≡ loaded current
        → (k : ℕ) × (p : Pc) × (k ≤ 3)
          × ((p ≡ attached) ⊎ (p ≡ rejected))
          × Settles 1 2 1 k p contended)
hazard_events_stream-Settles_example = hazard_events_stream-Settles 1 2 1 (omega arith) contended
