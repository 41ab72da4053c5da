-- ===== src/Extract.antt =====
-- The `extract` subcommand, src/cli/extract.rs: the split of the date range into batches, one
-- request for each batch, and the totals of the run.
--
-- A date is the number of days since the first date that chrono has, and `max_date` stands for the
-- last one: a date outside is the panic of chrono's `+`. The `while` loop runs on fuel.
pub mod Batches
pub mod Totals
use rustroid_sentinel.Prelude.{
  ℕ, zero, suc, ◌+◌, ◌-◌, ◌/◌, ◌%◌, min, String, Bool, not, ◌&&◌, List, [], ◌∷◌, ◌++◌, Option, none,
  some, ltb, leb, ◌==◌, if◌then◌else◌, length, map, Result, ok, err, Outcome, returned, panicked,
  running,
}

abbrev pub Date : Type 0
Date = ℕ

pub data DateRangeError : Type 0 where
  start_after_end : DateRangeError

-- The two warnings of the source have no effect on the result.
unfoldable pub validate_date_range : Date → Date → Result DateRangeError (Unit {0})
validate_date_range start end = if ltb end start then err start_after_end else ok tt

-- The number of batches that the dry run prints: `total_days.div_ceil(batch_size)`, which panics
-- on a batch size of 0.
unfoldable pub preview_extraction : Date → Date → ℕ → Outcome ℕ
preview_extraction start end batch_size =
    let total_days = (end - start) + 1 in
    if batch_size == 0
    then panicked
    else returned (
        if ltb 0 (total_days % batch_size)
        then total_days / batch_size + 1
        else total_days / batch_size)

-- One entry of the vector `batches`: its number, first day and last day.
pub record Batch : Type 0 where
  pub batch_num : ℕ
  pub batch_start : Date
  pub batch_end : Date

abbrev pub add_batch : Batch → Outcome (List Batch) → Outcome (List Batch)
add_batch b (returned bs) = returned (b ∷ bs)
add_batch b panicked = panicked
add_batch b running = running

module _ (max_date : Date) where
  -- `current_date + Duration::days(batch_size as i64 - 1)`: one day back for a batch size of 0.
  abbrev pub batch_last : Date → ℕ → Outcome Date
  batch_last current zero = if current == 0 then panicked else returned (current - 1)
  batch_last current (suc n) =
      if ltb max_date (current + n) then panicked else returned (current + n)

  -- The `while` loop of `extract_in_batches`; `batch_num` counts the batches pushed so far.
  unfoldable pub split_batches : ℕ → ℕ → Date → Date → ℕ → Outcome (List Batch)
  split_batches zero batch_num current end batch_size = running
  split_batches (suc fuel) batch_num current end batch_size =
      if leb current end
      then elim (batch_last current batch_size) [
        | returned last ↦
            let batch_end = min last end in
            let rest = split_batches fuel (batch_num + 1) (batch_end + 1) end batch_size in
            if ltb max_date (batch_end + 1)
            then panicked
            else add_batch
                (record { batch_num = batch_num + 1; batch_start = current; batch_end = batch_end })
                rest
        | panicked ↦ panicked
        | running ↦ running
      ]
      else returned []

-- What a spawned task does, from what it meets: the file of the batch is there, and the request
-- returns the sizes of the feed's day lists or fails. Serialising and writing may fail too.
pub record BatchWorld : Type 0 where
  pub file_exists : Batch → Bool
  pub get_feed : Batch → Option (List ℕ)
  pub save : Batch → Option String

abbrev pub sum : List ℕ → ℕ
sum [] = 0
sum (x ∷ xs) = x + sum xs

-- `Err` holds the text that goes to `failed_batches`.
unfoldable pub run_batch : (Batch → String) → BatchWorld → Bool → Batch → Result String (Option ℕ)
run_batch describe world force b =
    if not force && world.file_exists b then ok none else elim (world.get_feed b) [
      | some lists ↦ elim (world.save b) [
        | none ↦ ok (some (sum lists))
        | some failure ↦ err failure
      ]
      | none ↦ err (describe b)
    ]

pub record ExtractionResult : Type 0 where
  pub start_date : Date
  pub end_date : Date
  pub total_asteroids : ℕ
  pub total_batches : ℕ
  pub successful_batches : ℕ
  pub failed_batches : List String

-- The loop over the join handles, in the order of the batches.
unfoldable pub join_results : ExtractionResult → List (Result String (Option ℕ)) → ExtractionResult
join_results r [] = r
join_results r (ok (some count) ∷ rest) =
    join_results
      (record r {
        total_asteroids = r.total_asteroids + count;
        successful_batches = r.successful_batches + 1;
      })
      rest
join_results r (ok none ∷ rest) =
    join_results (record r { successful_batches = r.successful_batches + 1 }) rest
join_results r (err batch_info ∷ rest) =
    join_results (record r { failed_batches = r.failed_batches ++ batch_info ∷ [] }) rest

abbrev pub nothing_joined : Date → Date → ℕ → ExtractionResult
nothing_joined start end total_batches = record {
  start_date = start;
  end_date = end;
  total_asteroids = 0;
  total_batches = total_batches;
  successful_batches = 0;
  failed_batches = [];
}

abbrev pub run_batches :
    (Batch → String) → BatchWorld → Bool → Date → Date → List Batch → ExtractionResult
run_batches describe world force start end bs =
    join_results (nothing_joined start end (length bs)) (map (run_batch describe world force) bs)

module _ (max_date : Date) where
  -- No task panics; the semaphore only delays the tasks, and each writes a file of its own.
  unfoldable pub extract_in_batches :
      (Batch → String) → BatchWorld → ℕ → Date → Date → ℕ → Bool → Outcome ExtractionResult
  unfolding split_batches join_results run_batch
  extract_in_batches describe world fuel start end batch_size force =
      elim (split_batches max_date fuel 0 start end batch_size) [
        | returned bs ↦ returned (run_batches describe world force start end bs)
        | panicked ↦ panicked
        | running ↦ running
      ]
