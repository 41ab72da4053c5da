-- ===== src/Alert/Once.antt =====
-- An approach is alerted once, src/alert/service.rs.
use rustroid_sentinel.Prelude.{
  ℕ, zero, suc, ◌≡◌, ◌≢◌, refl, ap, sym, ◌∙◌, Bool, true, false, not, ◌&&◌, ◌||◌, List, [], ◌∷◌,
  ◌==◌, ==_self, ==_iff, arith, if◌then◌else◌, any, filter, take, All, Bool-cases, inl, inr,
}
use rustroid_sentinel.Models.{Uuid, NaiveDate}
use rustroid_sentinel.Alert.{
  AlertCandidate, AlertRow, is_alert_of, is_unalerted, insert_by_date, by_date, unalerted,
  record_alert, send_all, check_and_send_alerts,
}

-- Whether the row of the approach is among those that a run takes up.
abbrev pub takes_up : Uuid → List AlertCandidate → Bool
takes_up i = any (λ (r : AlertCandidate). r.approach_id == i)

abbrev pub is_alerted : Uuid → List AlertRow → Bool
is_alerted i = any (is_alert_of i)

true≢false : true ≢ false
true≢false e = ground arith

or_true : (b : Bool) → (b || true) ≡ true
or_true b = ground arith

record_alert-keeps :
    (b : Bool) (i j : Uuid) (alerts : List AlertRow)
    → is_alerted i alerts ≡ true
    → is_alerted i (record_alert b j alerts) ≡ true
unfolding record_alert
record_alert-keeps b i j alerts h = elim (Bool-cases (b && not (is_alerted j alerts))) [
  | inl written ↦ rw (written, h) (or_true _)
  | inr skipped ↦ rw skipped h
]

record_alert-alerts :
    (i : Uuid) (alerts : List AlertRow) → is_alerted i (record_alert true i alerts) ≡ true
unfolding record_alert
record_alert-alerts i alerts = elim (Bool-cases (is_alerted i alerts)) [
  | inl already ↦ rw already already
  | inr new ↦ rw (new, ==_self i) refl
]

step-keeps :
    (sent b : Bool) (i j : Uuid) (alerts : List AlertRow)
    → is_alerted i alerts ≡ true
    → is_alerted i (if sent then record_alert b j alerts else alerts) ≡ true
step-keeps true b i j alerts h = record_alert-keeps b i j alerts h
step-keeps false b i j alerts h = h

module _ (sends records : Uuid → Bool) where
  send_all-keeps :
      (i : Uuid) (alerts : List AlertRow) (rows : List AlertCandidate)
      → is_alerted i alerts ≡ true
      → is_alerted i (send_all sends records alerts rows) ≡ true
  unfolding send_all
  send_all-keeps i alerts [] h = h
  send_all-keeps i alerts (r ∷ rows) h =
      send_all-keeps i
        (if sends r.approach_id
          then record_alert (records r.approach_id) r.approach_id alerts
          else alerts)
        rows (step-keeps (sends r.approach_id) (records r.approach_id) i r.approach_id alerts h)

  send_all-alerts :
      (i : Uuid) (alerts : List AlertRow) (rows : List AlertCandidate)
      → sends i ≡ true
      → records i ≡ true
      → takes_up i rows ≡ true
      → is_alerted i (send_all sends records alerts rows) ≡ true
  unfolding send_all
  send_all-alerts i alerts [] s w h = absurd (ground arith)
  send_all-alerts i alerts (r ∷ rows) s w h =
      let next =
        if sends r.approach_id
        then record_alert (records r.approach_id) r.approach_id alerts
        else alerts in
      elim (Bool-cases (r.approach_id == i)) [
        | inl here ↦
            send_all-keeps i next rows (alerted_by r.approach_id ((==_iff r.approach_id i).0 here))
        | inr elsewhere ↦ send_all-alerts i next rows s w (ground arith)
      ]
    where
      alerted_by :
          (j : Uuid)
          → j ≡ i
          → is_alerted i (if sends j then record_alert (records j) j alerts else alerts) ≡ true
      alerted_by j e = rw (e, s, w) (record_alert-alerts i alerts)

All-insert_by_date {ℓ} :
    (before : AlertCandidate → AlertCandidate → Bool) (P : AlertCandidate → Type ℓ)
    (r : AlertCandidate) (rows : List AlertCandidate)
    → P r
    → All P rows
    → All P (insert_by_date before r rows)
unfolding insert_by_date
All-insert_by_date before P r [] p _ = (p, tt)
All-insert_by_date before P r (s ∷ rows) p (q, qs) = elim (Bool-cases (before r s)) [
  | inl first ↦ rw first (p, (q, qs))
  | inr later ↦ rw later (q, All-insert_by_date before P r rows p qs)
]

All-by_date {ℓ} :
    (before : AlertCandidate → AlertCandidate → Bool) (P : AlertCandidate → Type ℓ)
    (rows : List AlertCandidate)
    → All P rows
    → All P (by_date before rows)
unfolding by_date
All-by_date before P [] _ = tt
All-by_date before P (r ∷ rows) (p, ps) =
    All-insert_by_date before P r (by_date before rows) p (All-by_date before P rows ps)

All-take {ℓ} :
    (P : AlertCandidate → Type ℓ) (n : ℕ) (rows : List AlertCandidate)
    → All P rows
    → All P (take n rows)
All-take P zero rows _ = tt
All-take P (suc n) [] _ = tt
All-take P (suc n) (r ∷ rows) (p, ps) = (p, All-take P n rows ps)

abbrev IsNew : List AlertRow → AlertCandidate → Type 0
IsNew alerts r = is_alerted r.approach_id alerts ≡ false

and_not : (a b c : Bool) → (a && not b && c) ≡ true → b ≡ false
and_not a b c h = ground arith

is_new :
    (today : NaiveDate) (alerts : List AlertRow) (s : AlertCandidate)
    → is_unalerted today alerts s ≡ true
    → IsNew alerts s
unfolding is_unalerted
is_new today alerts s h = and_not _ _ _ h

filter-IsNew :
    (today : NaiveDate) (alerts : List AlertRow) (rows : List AlertCandidate)
    → All (IsNew alerts) (filter (is_unalerted today alerts) rows)
filter-IsNew today alerts [] = tt
filter-IsNew today alerts (r ∷ rows) = elim (Bool-cases (is_unalerted today alerts r)) [
  | inl holds ↦ rw holds (is_new today alerts r holds, filter-IsNew today alerts rows)
  | inr fails ↦ rw fails (filter-IsNew today alerts rows)
]

not_taken_up :
    (i : Uuid) (alerts : List AlertRow) (rows : List AlertCandidate)
    → All (IsNew alerts) rows
    → is_alerted i alerts ≡ true
    → takes_up i rows ≡ false
not_taken_up i alerts [] _ h = refl
not_taken_up i alerts (r ∷ rows) (n, ns) h = elim (Bool-cases (r.approach_id == i)) [
  | inl same ↦ absurd (clash ((==_iff r.approach_id i).0 same))
  | inr other ↦ rw (other, not_taken_up i alerts rows ns h) refl
]
  where
    clash : r.approach_id ≡ i → ⊥
    clash e = true≢false (sym h ∙ ap (λ j. is_alerted j alerts) (sym e) ∙ n)

-- When a run takes up an approach, its message goes out and its row is written, the approach had
-- no alert before, it has one after the run, and no run of the same batch size on the alerts of
-- this one takes it up, whatever the day and the approaches are then.
pub check_and_send_alerts_once :
    (before : AlertCandidate → AlertCandidate → Bool) (sends records : Uuid → Bool)
    (batch_size today day : ℕ) (approaches later : List AlertCandidate) (alerts : List AlertRow)
    (i : Uuid)
    → takes_up i (unalerted before batch_size today alerts approaches) ≡ true
    → sends i ≡ true
    → records i ≡ true
    → let alerts' = check_and_send_alerts before sends records batch_size today approaches alerts in
      (is_alerted i alerts ≡ false)
      × (is_alerted i alerts' ≡ true)
      × (takes_up i (unalerted before batch_size day alerts' later) ≡ false)
unfolding check_and_send_alerts unalerted
check_and_send_alerts_once before sends records batch_size today day approaches later alerts i taken
      s w =
    let alerts' = check_and_send_alerts before sends records batch_size today approaches alerts in
    let alerted =
      send_all-alerts sends records i alerts (unalerted before batch_size today alerts approaches) s
        w taken in
    (
      elim (Bool-cases (is_alerted i alerts)) [
        | inl already ↦ absurd (true≢false (sym taken ∙ absent today alerts approaches already))
        | inr new ↦ new
      ],
      alerted,
      absent day alerts' later alerted,
    )
  where
    absent :
        (d : ℕ) (al : List AlertRow) (rows : List AlertCandidate)
        → is_alerted i al ≡ true
        → takes_up i (unalerted before batch_size d al rows) ≡ false
    absent d al rows h =
        not_taken_up i al (unalerted before batch_size d al rows)
          (All-take (IsNew al) batch_size (by_date before (filter (is_unalerted d al) rows)) (
            All-by_date before (IsNew al) (filter (is_unalerted d al) rows)
              (filter-IsNew d al rows)))
          h
