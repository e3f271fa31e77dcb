-- ===== src/Store/Cache.antt =====
-- internal/store/cache.go: ttlCache. The mutex makes each method one step.
pub mod History
pub mod Coherent
use tileserve_go.Prelude.{
  ℕ, ◌+◌, Bool, true, false, Option, none, some, List, [], ◌∷◌, if◌then◌else◌, ltb, Eq, ◌==◌,
}
use tileserve_go.Prelude.Assoc.{lookup, insert, remove}

-- ttlEntry
pub record Entry (V : Type 0) : Type 0 where
  pub value : V
  pub expires : ℕ

-- The field m of ttlCache. Times are in nanoseconds.
abbrev pub Cache : Type 0 → Type 0 → Type 0
Cache K V = List (K × Entry V)

module _ {V : Type 0} where
  -- The test of get: a hit as long as the time is not after `expires`.
  unfoldable pub live_value : ℕ → Option (Entry V) → Option V
  live_value now none = none
  live_value now (some e) = if ltb e.expires now then none else some e.value

module _ {K V : Type 0} ⦃e : Eq K⦄ where
  unfoldable pub get : ℕ → K → Cache K V → Option V
  unfolding live_value
  get now k c = live_value now (lookup k c)

  unfoldable pub set : (ttl now : ℕ) → K → V → Cache K V → Cache K V
  set ttl now k v c = insert k (record { value = v; expires = now + ttl }) c

  unfoldable pub invalidate : K → Cache K V → Cache K V
  invalidate k c = remove k c

  unfoldable pub clear : Cache K V → Cache K V
  clear c = []
