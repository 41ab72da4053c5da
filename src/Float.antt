-- ===== src/Float.antt =====
-- 64-bit floats as their bit patterns, and the two orders that the program meets: the comparisons
-- of Rust's `f64` (IEEE 754: false on NaN, and the zeros are equal), and the order of `float8` in
-- PostgreSQL, where NaN equals itself and stands above all other values.
use rustroid_sentinel.Prelude.{
  ℕ, ◌+◌, ◌-◌, ◌%◌, ◌^◌, ◌≡◌, Bool, true, not, ◌&&◌, arith, ltb, leb, if◌then◌else◌,
}

abbrev pub F64 : Type 0
F64 = ℕ

unfoldable pub is_nan : F64 → Bool
is_nan x = ltb 0x7ff0000000000000 (x % 2 ^ 63)

-- Both zeros have the key 2 ^ 63.
unfoldable pub order_key : F64 → ℕ
order_key x = if leb (2 ^ 63) x then 2 ^ 63 - x % 2 ^ 63 else 2 ^ 63 + x % 2 ^ 63

unfoldable pub lt : F64 → F64 → Bool
unfolding is_nan order_key
lt x y = not (is_nan x) && not (is_nan y) && ltb (order_key x) (order_key y)

unfoldable pub le : F64 → F64 → Bool
unfolding is_nan order_key
le x y = not (is_nan x) && not (is_nan y) && leb (order_key x) (order_key y)

-- The place of a value in the order of PostgreSQL.
unfoldable pub float8_key : F64 → ℕ
unfolding is_nan order_key
float8_key x = if is_nan x then 2 ^ 64 else order_key x

pub lt-le_trans : (x y z : F64) → lt x y ≡ true → le y z ≡ true → lt x z ≡ true
unfolding lt le
lt-le_trans x y z h k = unfold is_nan in ground arith

pub le-lt_trans : (x y z : F64) → le x y ≡ true → lt y z ≡ true → lt x z ≡ true
unfolding lt le
le-lt_trans x y z h k = ground arith
