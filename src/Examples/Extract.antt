-- ===== src/Examples/Extract.antt =====
-- Extractions of eleven days in batches of four.
use rustroid_sentinel.Prelude.{
  ◌+◌, ◌≡◌, ◌&&◌, refl, ◌∷◌, [], List, none, some, length, map, arith, String, true, false, ◌==◌,
  leb, if◌then◌else◌, returned, running, panicked,
}
use rustroid_sentinel.Extract.{
  Date, Batch, BatchWorld, ExtractionResult, sum, run_batch, split_batches, preview_extraction,
  extract_in_batches,
}
use rustroid_sentinel.Extract.Batches.{
  requests, AreNumbered, split_batches_lem, preview_extraction_lem, batches_of_zero,
}
use rustroid_sentinel.Extract.Totals.{counted, extract_in_batches_totals}

abbrev batches : List Batch
batches =
    record { batch_num = 1; batch_start = 100; batch_end = 103 }
    ∷ record { batch_num = 2; batch_start = 104; batch_end = 107 }
    ∷ record { batch_num = 3; batch_start = 108; batch_end = 110 }
    ∷ []

abbrev describe : Batch → String
describe b = "batch"

-- The second request fails.
abbrev world : BatchWorld
world = record {
  file_exists = λ b. false;
  get_feed = λ b. if b.batch_num == 2 then none else some (3 ∷ 4 ∷ []);
  save = λ b. none;
}

abbrev full_world : BatchWorld
full_world = record world { file_exists = λ b. true }

split_batches_lem_example :
    (bs : List Batch) × (split_batches 1000 20 0 100 110 4 ≡ returned bs)
    × ((d : Date) → requests d bs ≡ (if leb 100 d && leb d 110 then 1 else 0))
    × AreNumbered 0 4 bs
split_batches_lem_example =
    split_batches_lem 1000 100 110 4 20 (omega arith) (omega arith) (omega arith) (omega arith)

preview_extraction_lem_example :
    (bs : List Batch) × (split_batches 1000 20 0 100 110 4 ≡ returned bs)
    × (preview_extraction 100 110 4 ≡ returned (length bs))
preview_extraction_lem_example =
    preview_extraction_lem 1000 100 110 4 20 (omega arith) (omega arith) (omega arith) (omega arith)

batches_of_zero_example :
    (split_batches 1000 500 0 100 110 0 ≡ running) × (preview_extraction 100 110 0 ≡ panicked)
batches_of_zero_example =
    batches_of_zero 1000 100 110 500 0 (omega arith) (omega arith) (omega arith)

extract_in_batches_totals_example :
    (r : ExtractionResult) × (extract_in_batches 1000 describe world 20 100 110 4 false
      ≡ returned r)
    × (r.total_batches ≡ 3)
    × (r.successful_batches + length r.failed_batches ≡ 3)
    × (r.total_asteroids ≡ sum (map counted (map (run_batch describe world false) batches)))
unfolding split_batches
extract_in_batches_totals_example =
    extract_in_batches_totals 1000 describe world 20 100 110 4 false batches refl
