-- ===== src/Extract/Totals.antt =====
-- The totals of an extraction run, src/cli/extract.rs.
use rustroid_sentinel.Prelude.{
  ℕ, ◌+◌, ◌≡◌, refl, String, Bool, List, [], ◌∷◌, ◌++◌, Option, none, some, arith, length, map,
  length-append, Result, ok, err, returned,
}
use rustroid_sentinel.Extract.{
  Date, Batch, BatchWorld, ExtractionResult, sum, run_batch, join_results, extract_in_batches,
  split_batches, run_batches, nothing_joined,
}

-- The asteroids that a task reports.
abbrev pub counted : Result String (Option ℕ) → ℕ
counted (ok (some n)) = n
counted (ok none) = 0
counted (err e) = 0

-- What the join loop adds up, from any totals.
join_results_totals :
    (r : ExtractionResult) (ends : List (Result String (Option ℕ)))
    → let r' = join_results r ends in
      (r'.successful_batches + length r'.failed_batches
        ≡ r.successful_batches + length r.failed_batches + length ends)
      × (r'.total_asteroids ≡ r.total_asteroids + sum (map counted ends))
      × (r'.total_batches ≡ r.total_batches)
unfolding join_results
join_results_totals r [] = omega arith
join_results_totals r (ok (some n) ∷ rest) =
    let ih =
      join_results_totals
        (record r {
          total_asteroids = r.total_asteroids + n;
          successful_batches = r.successful_batches + 1;
        })
        rest in
    omega arith
join_results_totals r (ok none ∷ rest) =
    let ih =
      join_results_totals (record r { successful_batches = r.successful_batches + 1 }) rest in
    omega arith
join_results_totals r (err e ∷ rest) =
    let ih = join_results_totals (record r { failed_batches = r.failed_batches ++ e ∷ [] }) rest in
    omega (arith, length-append r.failed_batches (e ∷ []))

length-map-run_batch :
    (describe : Batch → String) (world : BatchWorld) (force : Bool) (bs : List Batch)
    → length (map (run_batch describe world force) bs) ≡ length bs
length-map-run_batch describe world force [] = refl
length-map-run_batch describe world force (b ∷ bs) =
    omega (arith, length-map-run_batch describe world force bs)

module _ (max_date : Date) (describe : Batch → String) (world : BatchWorld) where
  -- Whatever the requests and the disk do, a run whose range splits into batches returns. It has
  -- counted each batch once, as successful or as failed, and the asteroids that the tasks report.
  pub extract_in_batches_totals :
      (fuel start end batch_size : ℕ) (force : Bool) (bs : List Batch)
      → split_batches max_date fuel 0 start end batch_size ≡ returned bs
      → (r : ExtractionResult) × (extract_in_batches max_date describe world fuel start end
            batch_size force
          ≡ returned r)
        × (r.total_batches ≡ length bs)
        × (r.successful_batches + length r.failed_batches ≡ length bs)
        × (r.total_asteroids ≡ sum (map counted (map (run_batch describe world force) bs)))
  unfolding extract_in_batches
  extract_in_batches_totals fuel start end batch_size force bs e =
      let ends = map (run_batch describe world force) bs in
      let t = join_results_totals (nothing_joined start end (length bs)) ends in
      (
        run_batches describe world force start end bs,
        rw (e, extract_in_batches),
        t.2,
        omega (arith, t.0, length-map-run_batch describe world force bs),
        omega (arith, t.1),
      )
