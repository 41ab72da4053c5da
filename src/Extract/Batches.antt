-- ===== src/Extract/Batches.antt =====
-- The batches of src/cli/extract.rs cover the date range, each day once.
use rustroid_sentinel.Prelude.{
  ℕ, zero, suc, ◌+◌, ◌-◌, ◌*◌, ◌/◌, ◌%◌, ◌≤◌, ◌<◌, ◌≡◌, refl, ◌&&◌, List, [], ◌∷◌, arith, ltb, leb,
  ◌==◌, true, Bool-cases, ◌⊎◌, inl, inr, false, min, if◌then◌else◌, ltb→lt, length, Outcome,
  returned, panicked, running,
}
use mathlib.Core.Path.{ap}
use native.Mathlib.Nat.{div-add-mod', le_of_mul-le-mul_right, lt_of_mul-lt-mul_right, mod-lt}
use rustroid_sentinel.Extract.{Date, Batch, add_batch, split_batches, preview_extraction}

-- How many of the batches request the day.
abbrev pub requests : Date → List Batch → ℕ
requests d [] = 0
requests d (b ∷ bs) = (if leb b.batch_start d && leb d b.batch_end then 1 else 0) + requests d bs

-- The numbers follow `n`, and no batch is longer than the batch size.
abbrev pub AreNumbered : ℕ → ℕ → List Batch → Type 0
AreNumbered n size [] = Unit
AreNumbered n size (b ∷ bs) =
    (b.batch_num ≡ n + 1) × (b.batch_end < b.batch_start + size) × AreNumbered (n + 1) size bs

-- As many batches of `size` days as the days from `current` on fill.
abbrev Fills : Date → Date → ℕ → List Batch → Type 0
Fills current end size bs =
    (end + 1 ≤ current + length bs * size) × (current + length bs * size < end + 1 + size)

-- What the loop promises from `current` on.
abbrev Covers : ℕ → Date → Date → ℕ → List Batch → Type 0
Covers n current end size bs =
    ((d : Date) → requests d bs ≡ (if leb current d && leb d end then 1 else 0))
    × AreNumbered n size bs
    × Fills current end size bs

abbrev Ensures : ℕ → Date → Date → ℕ → Outcome (List Batch) → Type 0
Ensures n current end size (returned bs) = Covers n current end size bs
Ensures n current end size panicked = ⊥
Ensures n current end size running = ⊥

add_batch-Ensures :
    (n current end size batch_end : ℕ) (rest : Outcome (List Batch))
    → current ≤ batch_end
    → batch_end ≤ end
    → (batch_end ≡ end) ⊎ (batch_end + 1 ≡ current + size)
    → batch_end < current + size
    → Ensures (n + 1) (batch_end + 1) end size rest
    → Ensures n current end size (
        add_batch (record { batch_num = n + 1; batch_start = current; batch_end = batch_end }) rest)
add_batch-Ensures n current end size batch_end (returned bs) a b e c h =
    (λ d. ground (arith, h.0 d), (refl, c, h.1), fills (length bs) h.2)
  where
    fills :
        (k : ℕ)
        → (end + 1 ≤ batch_end + 1 + k * size) × (batch_end + 1 + k * size < end + 1 + size)
        → (end + 1 ≤ current + suc k * size) × (current + suc k * size < end + 1 + size)
    fills zero g = omega arith
    fills (suc k) g = omega arith
add_batch-Ensures n current end size batch_end panicked a b e c h = h
add_batch-Ensures n current end size batch_end running a b e c h = h

module _ (max_date : Date) where
  split_batches-Ensures :
      (fuel n current end size : ℕ)
      → 0 < size
      → end + size < max_date
      → current ≤ end + 1
      → end + 1 < current + fuel
      → Ensures n current end size (split_batches max_date fuel n current end size)
  unfolding split_batches
  split_batches-Ensures zero n current end size p m c f = absurd (omega arith)
  split_batches-Ensures (suc fuel) n current end zero p m c f = absurd (omega arith)
  split_batches-Ensures (suc fuel) n current end (suc k) p m c f =
      elim (Bool-cases (leb current end)) [
        | inr over ↦ rw over (λ d. ground arith, tt, ground arith)
        | inl more ↦
            let last : ℕ = current + k in
            let inside : ltb max_date (current + k) ≡ false = ground arith in
            let inside' : ltb max_date (min (current + k) end + 1) ≡ false = ground arith in
            rw (more, inside, inside')
              (add_batch-Ensures n current end (suc k) (min (current + k) end) _ (ground arith)
                (omega arith) (ground arith) (omega arith)
                (split_batches-Ensures fuel (n + 1) (min (current + k) end + 1) end (suc k) p m
                  (omega arith) (ground arith)))
      ]

Ensures-returned :
    (n current end size : ℕ) (o : Outcome (List Batch))
    → Ensures n current end size o
    → (bs : List Batch) × (o ≡ returned bs) × Covers n current end size bs
Ensures-returned n current end size (returned bs) h = (bs, refl, h)
Ensures-returned n current end size panicked h = absurd h
Ensures-returned n current end size running h = absurd h

-- The ceiling of a quotient, from both sides.
div_ceil_unique :
    (t size k : ℕ)
    → 0 < size
    → t ≤ k * size
    → k * size < t + size
    → (if ltb 0 (t % size) then t / size + 1 else t / size) ≡ k
div_ceil_unique t size k p lo hi =
    let split = div-add-mod' t size in
    let low : t / size ≤ k = le_of_mul-le-mul_right {k = size} (omega arith) p in
    let high : k < t / size + 2 = lt_of_mul-lt-mul_right size (omega (arith, mod-lt t p)) in
    elim (Bool-cases (ltb 0 (t % size))) [
      | inl some_rest ↦
          let above : t / size < k =
            lt_of_mul-lt-mul_right size (omega (arith, ltb→lt _ _ some_rest)) in
          rw some_rest (omega arith)
      | inr no_rest ↦
          let below : k < t / size + 1 = lt_of_mul-lt-mul_right size (ground arith) in
          rw no_rest (omega arith)
    ]

module _ (max_date start end size fuel : ℕ) where
  -- For a range and a batch size that leave room below the last date, the loop ends when the fuel
  -- exceeds the days of the range by one. Each day of the range is then requested by one batch, no
  -- other day by any, the batches are numbered from 1 on, and none has more than `size` days.
  pub split_batches_lem :
      start ≤ end
      → 0 < size
      → end + size < max_date
      → end + 1 < start + fuel
      → (bs : List Batch) × (split_batches max_date fuel 0 start end size ≡ returned bs)
        × ((d : Date) → requests d bs ≡ (if leb start d && leb d end then 1 else 0))
        × AreNumbered 0 size bs
  split_batches_lem h p m f =
      let (bs, e, c) =
        Ensures-returned 0 start end size _
          (split_batches-Ensures max_date fuel 0 start end size p m (omega arith) f) in
      (bs, e, c.0, c.1)

  -- In such a run the number of batches is the number that the dry run announces.
  pub preview_extraction_lem :
      start ≤ end
      → 0 < size
      → end + size < max_date
      → end + 1 < start + fuel
      → (bs : List Batch) × (split_batches max_date fuel 0 start end size ≡ returned bs)
        × (preview_extraction start end size ≡ returned (length bs))
  unfolding preview_extraction
  preview_extraction_lem h p m f =
      let (bs, e, c) =
        Ensures-returned 0 start end size _
          (split_batches-Ensures max_date fuel 0 start end size p m (omega arith) f) in
      let some_size : (size == 0) ≡ false = ground arith in
      (
        bs,
        e,
        rw some_size (
            ap returned (
              div_ceil_unique (end - start + 1) size (length bs) p (omega (arith, c.2))
                (omega (arith, c.2)))),
      )

-- With a batch size of 0 the loop never leaves its first day, whatever the fuel, and the dry run
-- panics.
pub batches_of_zero :
    (max_date start end fuel n : ℕ)
    → 0 < start
    → start ≤ end
    → end < max_date
    → (split_batches max_date fuel n start end 0 ≡ running)
      × (preview_extraction start end 0 ≡ panicked)
unfolding split_batches preview_extraction
batches_of_zero max_date start end zero n p h m = (refl, refl)
batches_of_zero max_date start end (suc fuel) n p h m =
    let stays : min (start - 1) end + 1 ≡ start = omega arith in
    let more : leb start end ≡ true = ground arith in
    let first : (start == 0) ≡ false = ground arith in
    let inside : ltb max_date start ≡ false = ground arith in
    (
      rw (more, first)
          (rw (stays, inside) (rw ((batches_of_zero max_date start end fuel (n + 1) p h m).0))),
      refl,
    )
