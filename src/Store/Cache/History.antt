-- ===== src/Store/Cache/History.antt =====
-- internal/store/cache.go: ttlCache against the list of the calls made on it.
use tileserve_go.Prelude.{
  ℕ, ◌+◌, Bool, true, false, Option, none, some, List, [], ◌∷◌, if◌then◌else◌, ltb, Eq, ◌==◌, ◌≡◌,
  refl, ap, ◌∙◌,
}
use tileserve_go.Prelude.Assoc.{lookup, lookup-remove, lookup-insert, lookup-nil}
use tileserve_go.Store.Cache.{Entry, Cache, live_value, get, set, invalidate, clear}

-- The calls that change a cache, each at its time.
pub data Call (K V : Type 0) : Type 0 where
  setting : ℕ → K → V → Call K V
  invalidating : K → Call K V
  clearing : Call K V

pub live_if :
    {V : Type 0} (now : ℕ) (b : Bool) (o p : Option (Entry V))
    → live_value now (if b then o else p) ≡ (if b then live_value now o else live_value now p)
live_if now true o p = refl
live_if now false o p = refl

module _ {K V : Type 0} ⦃e : Eq K⦄ (ttl : ℕ) where
  unfoldable pub apply : Call K V → Cache K V → Cache K V
  unfolding set invalidate clear
  apply (setting now k v) c = set ttl now k v c
  apply (invalidating k) c = invalidate k c
  apply clearing c = clear c

  -- The calls are listed with the last first.
  unfoldable pub run : List (Call K V) → Cache K V
  unfolding apply
  run [] = []
  run (c ∷ calls) = apply c (run calls)

  -- What the calls promise of a key: the value that was set last, unless it was dropped since
  -- or is older than the ttl.
  unfoldable pub promised : ℕ → K → List (Call K V) → Option V
  promised now k [] = none
  promised now k (setting t j v ∷ calls) =
      if j == k then (if ltb (t + ttl) now then none else some v) else promised now k calls
  promised now k (invalidating j ∷ calls) = if j == k then none else promised now k calls
  promised now k (clearing ∷ calls) = none

  -- After any calls on a new cache, get returns the value that was set last for the key, unless the
  -- key was invalidated or the cache cleared since, or the value is older than the ttl.
  pub get-promised :
      (now : ℕ) (k : K) (calls : List (Call K V)) → get now k (run calls) ≡ promised now k calls
  unfolding get live_value run apply promised set invalidate clear
  get-promised now k [] = rw (lookup-nil {V = Entry V} k) refl
  get-promised now k (setting t j v ∷ calls) =
      ap (live_value now) (lookup-insert j k (record { value = v; expires = t + ttl }) (run calls))
      ∙ live_if now (j == k) (some (record { value = v; expires = t + ttl })) (lookup k (run calls))
      ∙ ap (λ o. if j == k then (if ltb (t + ttl) now then none else some v) else o)
          (get-promised now k calls)
  get-promised now k (invalidating j ∷ calls) =
      ap (live_value now) (lookup-remove j k (run calls))
      ∙ live_if now (j == k) none (lookup k (run calls))
      ∙ ap (λ o. if j == k then none else o) (get-promised now k calls)
  get-promised now k (clearing ∷ calls) = rw (lookup-nil {V = Entry V} k) refl
