-- ===== src/Cache/Staleness.antt =====
-- How old the answers of src/database/cache.rs can be.
use rustroid_sentinel.Prelude.{
  ℕ, ◌+◌, ◌≤◌, ◌<◌, ◌≡◌, ◌⊎◌, ◌∙◌, inl, inr, refl, ap, sym, Bool, true, false, Option, none, some,
  arith, Option-cases, Result, ok,
}
use rustroid_sentinel.Models.{DateTime}
use rustroid_sentinel.Database.{SqlError}
use rustroid_sentinel.Cache.{Moka, cached}

-- What moka documents. A call returns the entry that is there and keeps it, or else the answer of
-- the query, which it stores if it is no error. An entry that is found was there before or is the
-- one just stored, and then its time to live has not passed. Stores may forget. After
-- `invalidate_all` nothing is found.
pub record IsDocumented (moka : Moka) : Type 1 where
  pub hit :
      {K V : Type 0} (c : moka.Cache K V) (now : DateTime) (k : K) (q : Result SqlError V) (v : V)
      → moka.lookup c now k ≡ some v
      → (moka.try_get_with c now k q).1 ≡ ok v
  pub miss :
      {K V : Type 0} (c : moka.Cache K V) (now : DateTime) (k : K) (q : Result SqlError V)
      → moka.lookup c now k ≡ none
      → (moka.try_get_with c now k q).1 ≡ q
  pub kept :
      {K V : Type 0} (c : moka.Cache K V) (now : DateTime) (k : K) (q : Result SqlError V)
      (now' : DateTime) (k' : K) (w : V)
      → moka.lookup (moka.try_get_with c now k q).0 now' k' ≡ some w
      → (moka.lookup c now' k' ≡ some w)
        ⊎ ((k' ≡ k) × (q ≡ ok w) × (now' < now + moka.time_to_live c))
  pub same_ttl :
      {K V : Type 0} (c : moka.Cache K V) (now : DateTime) (k : K) (q : Result SqlError V)
      → moka.time_to_live (moka.try_get_with c now k q).0 ≡ moka.time_to_live c
  pub cleared :
      {K V : Type 0} (c : moka.Cache K V) (now : DateTime) (k : K)
      → moka.lookup (moka.invalidate_all c) now k ≡ none
  pub cleared_ttl :
      {K V : Type 0} (c : moka.Cache K V)
      → moka.time_to_live (moka.invalidate_all c) ≡ moka.time_to_live c

module _ (moka : Moka) (doc : IsDocumented moka) {K V : Type 0}
    (answers : DateTime → K → Result SqlError V) where
  -- The answer that the query gave at some time at most `ttl` before.
  abbrev pub IsRecent : ℕ → DateTime → K → Result SqlError V → Type 0
  IsRecent ttl now k r =
      (r ≡ answers now k)
      ⊎ ((past : DateTime) × (past ≤ now)
          × (now < past + ttl)
          × (v : V) × (answers past k ≡ ok v)
          × (r ≡ ok v))

  -- Each entry is an answer of the past whose time has not passed.
  abbrev pub Holds : moka.Cache K V → DateTime → Type 0
  Holds c last =
      (now : DateTime) (k : K) (w : V)
      → last ≤ now
      → moka.lookup c now k ≡ some w
      → (t : DateTime) × (t ≤ last) × (now < t + moka.time_to_live c) × (answers t k ≡ ok w)

  pub asked-Holds :
      (b : Bool) (c : moka.Cache K V) (last now : DateTime) (k : K)
      → last ≤ now
      → Holds c last
      → Holds (cached moka b c now k (answers now k)).0 now
  unfolding cached
  asked-Holds false c last now k le h now' k' w le' found =
      let (t, before, fresh, e) = h now' k' w (omega (arith, le, le')) found in
      (t, omega (arith, before, le), fresh, e)
  asked-Holds true c last now k le h now' k' w le' found =
      let ttl = doc.same_ttl c now k (answers now k) in
      elim (doc.kept c now k (answers now k) now' k' w found) [
        | inl old ↦
            let (t, before, fresh, e) = h now' k' w (omega (arith, le, le')) old in
            (t, omega (arith, before, le), omega (arith, fresh, ttl), e)
        | inr (same, e, fresh) ↦
            (now, omega arith, omega (arith, fresh, ttl), ap (answers now) same ∙ e)
      ]

  none-some : {w : V} → ◌≡◌ {A = Option V} none (some w) → ⊥
  none-some e = cc

  pub empty-Holds :
      (c : moka.Cache K V) (last : DateTime)
      → ((now : DateTime) (k : K) → moka.lookup c now k ≡ none)
      → Holds c last
  empty-Holds c last empty = λ now k w le found. absurd (none-some (sym (empty now k) ∙ found))

  pub later-Holds :
      (c : moka.Cache K V) (last now : DateTime) → last ≤ now → Holds c last → Holds c now
  later-Holds c last now le h = λ now' k w le' found.
      let (t, before, fresh, e) = h now' k w (omega (arith, le, le')) found in
      (t, omega (arith, before, le), fresh, e)

  pub answer-IsRecent :
      (b : Bool) (c : moka.Cache K V) (last now : DateTime) (k : K)
      → last ≤ now
      → Holds c last
      → IsRecent (moka.time_to_live c) now k (cached moka b c now k (answers now k)).1
  unfolding cached
  answer-IsRecent false c last now k le h = inl refl
  answer-IsRecent true c last now k le h = elim (Option-cases (moka.lookup c now k)) [
    | inl absent ↦ inl (doc.miss c now k (answers now k) absent)
    | inr (v, found) ↦
        let (t, before, fresh, e) = h now k v le found in
        inr (t, omega (arith, before, le), fresh, v, e, doc.hit c now k (answers now k) v found)
  ]

  -- After a store is cleared, and when caching is off, the answer is that of now.
  pub after_clearing :
      (b : Bool) (c : moka.Cache K V) (now : DateTime) (k : K)
      → (cached moka b (moka.invalidate_all c) now k (answers now k)).1 ≡ answers now k
  unfolding cached
  after_clearing false c now k = refl
  after_clearing true c now k = doc.miss _ now k (answers now k) (doc.cleared c now k)
