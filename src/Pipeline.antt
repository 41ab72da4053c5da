-- ===== src/Pipeline.antt =====
-- The `pipeline` command, src/cli/pipeline.rs.
--
-- A stage takes the state of the world to the next one and succeeds or fails with an error. The
-- weekday of a date is chrono's. A date is a number of days; chrono panics outside its range, far
-- from the dates that a clock gives.
use rustroid_sentinel.Prelude.{ℕ, ◌+◌, ◌-◌, Bool, List, ◌||◌, if◌then◌else◌, Result, ok, err}
use rustroid_sentinel.Models.{Uuid}

pub data Stage : Type 0 where
  extract transform load alert prune vectorize report : Stage

module _ (S E : Type 0) where
  -- What a step does: the state that it leaves, and its result.
  abbrev pub Step : Type 0 → Type 0
  Step A = S → S × Result (Stage × E) A

  pub record Commands : Type 0 where
    pub run_extract : ℕ → ℕ → S → S × Result E (Unit {0})
    pub run_transform : S → S × Result E (Unit {0})
    pub run_load : S → S × Result E (List Uuid)
    pub run_alert : S → S × Result E (Unit {0})
    pub run_sentry : List Uuid → S → S × Result E (Unit {0})
    pub run_orbits : List Uuid → S → S × Result E (Unit {0})
    pub run_prune : S → S × Result E (Unit {0})
    pub run_vectorize : S → S × Result E (Unit {0})
    pub run_report : S → S × Result E (Unit {0})

pub record PipelineArgs : Type 0 where
  pub skip_report : Bool
  pub force_report : Bool

pub record EtlWindow : Type 0 where
  pub lookback_days : ℕ
  pub lookahead_days : ℕ

-- The error of a stage with its context.
abbrev pub context : {E A : Type 0} → Stage → Result E A → Result (Stage × E) A
context stage (ok a) = ok a
context stage (err e) = err (stage, e)

module _ {S E : Type 0} where
  abbrev pub in_stage : {A : Type 0} → Stage → (S → S × Result E A) → Step S E A
  in_stage stage run s = let (s', r) = run s in (s', context stage r)

  -- `?`: the next step runs when the first has succeeded.
  abbrev pub continue_with :
      {A B : Type 0} → S × Result (Stage × E) A → (A → Step S E B) → S × Result (Stage × E) B
  continue_with (s, ok a) next = next a s
  continue_with (s, err e) next = (s, err e)

  -- The enrichment stages: what fails is logged.
  abbrev pub stage_enrichment : Commands S E → List Uuid → S → S
  stage_enrichment c ids s = (c.run_orbits ids ((c.run_sentry ids s).0)).0

  abbrev pub stage_report : (ℕ → Bool) → Commands S E → PipelineArgs → ℕ → Step S E (Unit {0})
  stage_report is_sunday c args today s =
      if args.skip_report
      then (s, ok tt)
      else if args.force_report || is_sunday today
      then in_stage report c.run_report s
      else (s, ok tt)

  unfoldable pub execute :
      (ℕ → Bool) → Commands S E → PipelineArgs → EtlWindow → ℕ → Step S E (Unit {0})
  execute is_sunday c args etl today s =
      continue_with
        (in_stage extract (c.run_extract (today - etl.lookback_days) (today + etl.lookahead_days))
          s)
        (λ _ s1. continue_with (in_stage transform c.run_transform s1) (λ _ s2.
          continue_with (in_stage load c.run_load s2) (λ ids s3.
            continue_with (in_stage alert c.run_alert s3) (λ _ s4.
              continue_with (in_stage prune c.run_prune (stage_enrichment c ids s4)) (λ _ s5.
                continue_with (in_stage vectorize c.run_vectorize s5)
                  (λ _ s6. stage_report is_sunday c args today s6))))))
