-- ===== src/Events/Subscribers.antt =====
-- The subscribers of src/api/handlers/hazard_events_sse.rs, interleaved in any order.
--
-- A step is one access to the shared counter, an atomic of 64 bits. The body of a stream does not
-- touch the counter: it stands between `attached` and `gone`.
pub mod Bound
pub mod Settling
use rustroid_sentinel.Prelude.{
  ℕ, zero, suc, ◌+◌, ◌-◌, ◌%◌, ◌^◌, ◌≤◌, ◌<◌, ◌≡◌, ◌≢◌, Bool, ◌==◌, if◌then◌else◌,
}

-- Where the task of one request stands in `hazard_events_stream`.
pub data Pc : Type 0 where
  arrived : Pc  -- before the load
  loaded : (current : ℕ) → Pc  -- after it
  attached : Pc  -- its guard is alive
  rejected : Pc  -- 503
  gone : Pc  -- its guard was dropped

abbrev pub decremented : ℕ → ℕ
decremented count = (count + (2 ^ 64 - 1)) % 2 ^ 64

-- One step of a task: the counter and the place before it and after.
pub data Move (max_subscribers : ℕ) (count : ℕ) : Pc → ℕ → Pc → Type 0 where
  load : Move max_subscribers count arrived count (loaded count)
  reject :
      {current : ℕ}
      → max_subscribers ≤ current
      → Move max_subscribers count (loaded current) count rejected
  win :
      {current : ℕ}
      → current < max_subscribers
      → count ≡ current
      → Move max_subscribers count (loaded current) (current + 1) attached
  lose :
      {current : ℕ}
      → current < max_subscribers
      → count ≢ current
      → Move max_subscribers count (loaded current) count arrived
  drop_guard : Move max_subscribers count attached (decremented count) gone

pub record System : Type 0 where
  pub count : ℕ
  pub pc : ℕ → Pc

abbrev pub update : (ℕ → Pc) → ℕ → Pc → ℕ → Pc
update pc i p j = if i == j then p else pc j

-- A step of request `i`, one of the first `n`.
pub data Step (max_subscribers n : ℕ) (s : System) : ℕ → System → Type 0 where
  step :
      {i count : ℕ} {p p' : Pc}
      → i < n
      → s.pc i ≡ p
      → Move max_subscribers s.count p count p'
      → Step max_subscribers n s i (record { count = count; pc = update s.pc i p' })

abbrev pub init : System
init = record { count = 0; pc = λ _. arrived }

pub data Reach (max_subscribers n : ℕ) : System → Type 0 where
  start : Reach max_subscribers n init
  later :
      {s t : System} {i : ℕ}
      → Reach max_subscribers n s
      → Step max_subscribers n s i t
      → Reach max_subscribers n t
