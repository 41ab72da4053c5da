-- ===== src/Catalog/Order.antt =====
-- The order of the catalog's rows, src/database/catalog.rs.
use rustroid_sentinel.Prelude.{◌≡◌, ◌≢◌, refl, Bool, true, false, Option, none, some, arith, ltb}
use rustroid_sentinel.Models.{Uuid, I64, pos, negsuc}
use rustroid_sentinel.Catalog.{
  SortDir, asc, desc, nullable_keyset, not_null_keyset, nullable_before, int_lt, float8_lt,
}

-- A strict order in which two values that are not below one another count as equal.
pub record IsWeakOrder {ℓ} {K : Type ℓ} (lt : K → K → Bool) : Type ℓ where
  pub asym : (a b : K) → lt a b ≡ true → lt b a ≡ false
  pub cotrans : (a b c : K) → lt a c ≡ true → lt a b ≡ false → lt b c ≡ true

pub ltb-IsWeakOrder : IsWeakOrder ltb
ltb-IsWeakOrder = record { asym = λ a b h. ground arith; cotrans = λ a b c h k. ground arith }

int_lt_asym : (a b : I64) → int_lt a b ≡ true → int_lt b a ≡ false
unfolding int_lt
int_lt_asym (pos a) (pos b) h = ground arith
int_lt_asym (pos a) (negsuc b) h = ground arith
int_lt_asym (negsuc a) (pos b) h = ground arith
int_lt_asym (negsuc a) (negsuc b) h = ground arith

int_lt_cotrans : (a b c : I64) → int_lt a c ≡ true → int_lt a b ≡ false → int_lt b c ≡ true
unfolding int_lt
int_lt_cotrans (pos a) (pos b) (pos c) h k = ground arith
int_lt_cotrans (pos a) (negsuc b) (pos c) h k = refl
int_lt_cotrans (negsuc a) (pos b) (pos c) h k = ground arith
int_lt_cotrans (negsuc a) (negsuc b) (pos c) h k = refl
int_lt_cotrans (pos a) b (negsuc c) h k = ground arith
int_lt_cotrans (negsuc a) (pos b) (negsuc c) h k = ground arith
int_lt_cotrans (negsuc a) (negsuc b) (negsuc c) h k = ground arith

pub int_lt-IsWeakOrder : IsWeakOrder int_lt
int_lt-IsWeakOrder = record { asym = int_lt_asym; cotrans = int_lt_cotrans }

pub float8_lt-IsWeakOrder : IsWeakOrder float8_lt
unfolding float8_lt
float8_lt-IsWeakOrder = record { asym = λ a b h. ground arith; cotrans = λ a b c h k. ground arith }

module _ {ℓ} {K : Type ℓ} (lt : K → K → Bool) where
  -- The predicate that resumes after a row admits the rows that the order puts after it.
  pub nullable_keyset_lem :
      (dir : SortDir) (v : Option K) (i : Uuid) (c : Option K) (j : Uuid)
      → nullable_keyset lt dir v i c j ≡ nullable_before lt dir v i c j
  nullable_keyset_lem asc (some v) i (some c) j = ground arith
  nullable_keyset_lem desc (some v) i (some c) j = ground arith
  nullable_keyset_lem dir (some v) i none j = refl
  nullable_keyset_lem dir none i (some c) j = refl
  nullable_keyset_lem dir none i none j = refl

  pub not_null_keyset_lem :
      (dir : SortDir) (v : K) (i : Uuid) (c : K) (j : Uuid)
      → not_null_keyset lt dir v i c j ≡ nullable_before lt dir (some v) i (some c) j
  not_null_keyset_lem asc v i c j = ground arith
  not_null_keyset_lem desc v i c j = ground arith

  module _ (o : IsWeakOrder lt) where
    pub nullable_before_asym :
        (dir : SortDir) (a : Option K) (i : Uuid) (b : Option K) (j : Uuid)
        → nullable_before lt dir a i b j ≡ true
        → nullable_before lt dir b j a i ≡ false
    nullable_before_asym asc (some a) i (some b) j h = ground (arith, o.asym a b, o.asym b a)
    nullable_before_asym desc (some a) i (some b) j h = ground (arith, o.asym a b, o.asym b a)
    nullable_before_asym dir (some a) i none j h = refl
    nullable_before_asym dir none i (some b) j h = ground arith
    nullable_before_asym asc none i none j h = ground arith
    nullable_before_asym desc none i none j h = ground arith

    pub nullable_before_total :
        (dir : SortDir) (a : Option K) (i : Uuid) (b : Option K) (j : Uuid)
        → i ≢ j
        → nullable_before lt dir a i b j ≡ false
        → nullable_before lt dir b j a i ≡ true
    nullable_before_total asc (some a) i (some b) j d h = ground (arith, o.asym a b, o.asym b a)
    nullable_before_total desc (some a) i (some b) j d h = ground (arith, o.asym a b, o.asym b a)
    nullable_before_total dir (some a) i none j d h = ground arith
    nullable_before_total dir none i (some b) j d h = refl
    nullable_before_total asc none i none j d h = ground arith
    nullable_before_total desc none i none j d h = ground arith

    pub nullable_before_trans :
        (dir : SortDir) (a : Option K) (i : Uuid) (b : Option K) (j : Uuid) (c : Option K)
        (k : Uuid)
        → nullable_before lt dir a i b j ≡ true
        → nullable_before lt dir b j c k ≡ true
        → nullable_before lt dir a i c k ≡ true
    nullable_before_trans asc (some a) i (some b) j (some c) k g h = ground (
      arith,
      o.asym a b,
      o.asym b c,
      o.asym a c,
      o.asym c a,
      o.asym c b,
      o.asym b a,
      o.cotrans a b c,
      o.cotrans a c b,
      o.cotrans b a c,
      o.cotrans b c a,
      o.cotrans c a b,
      o.cotrans c b a,
    )
    nullable_before_trans desc (some a) i (some b) j (some c) k g h = ground (
      arith,
      o.asym a b,
      o.asym b c,
      o.asym a c,
      o.asym c a,
      o.asym c b,
      o.asym b a,
      o.cotrans a b c,
      o.cotrans a c b,
      o.cotrans b a c,
      o.cotrans b c a,
      o.cotrans c a b,
      o.cotrans c b a,
    )
    nullable_before_trans dir (some a) i b j none k g h = refl
    nullable_before_trans dir (some a) i none j (some c) k g h = ground arith
    nullable_before_trans dir none i (some b) j c k g h = ground arith
    nullable_before_trans dir none i none j (some c) k g h = ground arith
    nullable_before_trans asc none i none j none k g h = ground arith
    nullable_before_trans desc none i none j none k g h = ground arith
