-- ===== src/Store/Cache/Coherent.antt =====
-- internal/store/cache.go: a ttlCache in front of a function, and the calls that keep it right.
use tileserve_go.Prelude.{
  none-some, ℕ, ◌+◌, ◌≤◌, Bool, true, false, Option, none, some, [], if◌then◌else◌, Eq, ◌==◌,
  eq_iff, ◌≡◌, refl, sym, ap, ◌∙◌, inl, inr, Bool-cases, arith,
}
use tileserve_go.Prelude.Assoc.{lookup, lookup-remove, lookup-insert, lookup-nil}
use tileserve_go.Store.Cache.{Entry, Cache, live_value, get, set, invalidate, clear}
use tileserve_go.Store.Cache.History.{live_if}

live_fresh :
    {V : Type 0} (ttl now : ℕ) (v : V)
    → live_value now (some (record { value = v; expires = now + ttl })) ≡ some v
unfolding live_value
live_fresh ttl now v = ground arith

live_earlier :
    {V : Type 0} (now later : ℕ) (o : Option (Entry V)) (v : V)
    → now ≤ later
    → live_value later o ≡ some v
    → live_value now o ≡ some v
unfolding live_value
live_earlier now later none v l h = h
live_earlier now later (some e) v l h = ground arith

chosen_first :
    {A : Type 0} {b : Bool} {z : A} (x y : A) → b ≡ true → (if b then x else y) ≡ z → x ≡ z
chosen_first x y p h = rw p at h

pub chosen_second :
    {A : Type 0} {b : Bool} {z : A} (x y : A) → b ≡ false → (if b then x else y) ≡ z → y ≡ z
chosen_second x y p h = rw p at h

pub none_chosen :
    {A : Type 0} {b : Bool} {a : A} (y : Option A) → b ≡ true → (if b then none else y) ≡ some a → ⊥
none_chosen y p h = none-some (chosen_first none y p h)

module _ {K V : Type 0} ⦃e : Eq K⦄ where
  pub get-set :
      (ttl now : ℕ) (k j : K) (v : V) (c : Cache K V)
      → get now j (set ttl now k v c) ≡ (if k == j then some v else get now j c)
  unfolding get set
  get-set ttl now k j v c =
      ap (live_value now) (lookup-insert k j (record { value = v; expires = now + ttl }) c)
      ∙ live_if now (k == j) (some (record { value = v; expires = now + ttl })) (lookup j c)
      ∙ ap (λ o. if k == j then o else live_value now (lookup j c)) (live_fresh ttl now v)

  pub get-invalidate :
      (now : ℕ) (k j : K) (c : Cache K V)
      → get now j (invalidate k c) ≡ (if k == j then none else get now j c)
  unfolding get invalidate
  get-invalidate now k j c =
      ap (live_value now) (lookup-remove k j c)
      ∙ live_if now (k == j) none (lookup j c)
      ∙ ap (λ o. if k == j then o else live_value now (lookup j c)) (unfold live_value in refl)

  pub get-clear : (now : ℕ) (j : K) (c : Cache K V) → get now j (clear c) ≡ none
  unfolding get clear live_value
  get-clear now j c = rw (lookup-nil {V = Entry V} j) refl

  -- Every value that the cache still serves is that of the function behind it.
  pub record IsCoherent (f : K → Option V) (now : ℕ) (c : Cache K V) : Type 0 where
    pub agrees : (k : K) (v : V) → get now k c ≡ some v → f k ≡ some v

  pub IsCoherent-set :
      (f : K → Option V) (ttl now : ℕ) (k : K) (v : V) (c : Cache K V)
      → f k ≡ some v
      → IsCoherent f now c
      → IsCoherent f now (set ttl now k v c)
  IsCoherent-set f ttl now k v c h i = record {
    agrees = λ j w g.
        let g2 : (if k == j then some v else get now j c) ≡ some w =
          sym (get-set ttl now k j v c) ∙ g in
        elim (Bool-cases (k == j)) [
          | inl same ↦
              ap f (sym ((eq_iff k j).0 same)) ∙ h ∙ chosen_first (some v) (get now j c) same g2
          | inr other ↦ i.agrees j w (chosen_second (some v) (get now j c) other g2)
        ];
  }

  -- What a call changes behind the cache may be any value at the key that it invalidates.
  pub IsCoherent-invalidate :
      (f g : K → Option V) (now : ℕ) (k : K) (c : Cache K V)
      → ((j : K) → (k == j) ≡ false → g j ≡ f j)
      → IsCoherent f now c
      → IsCoherent g now (invalidate k c)
  IsCoherent-invalidate f g now k c h i = record {
    agrees = λ j w r.
        let r2 : (if k == j then none else get now j c) ≡ some w =
          sym (get-invalidate now k j c) ∙ r in
        elim (Bool-cases (k == j)) [
          | inl same ↦ absurd (none_chosen (get now j c) same r2)
          | inr other ↦ h j other ∙ i.agrees j w (chosen_second none (get now j c) other r2)
        ];
  }

  pub IsCoherent-clear : (g : K → Option V) (now : ℕ) (c : Cache K V) → IsCoherent g now (clear c)
  IsCoherent-clear g now c = record {
    agrees = λ j w r. absurd (none-some (sym (get-clear now j c) ∙ r));
  }

  -- Time only makes values expire.
  pub IsCoherent-later :
      (f : K → Option V) (now later : ℕ) (c : Cache K V)
      → now ≤ later
      → IsCoherent f now c
      → IsCoherent f later c
  unfolding get
  IsCoherent-later f now later c l i = record {
    agrees = λ j w r. i.agrees j w (live_earlier now later (lookup j c) w l r);
  }

  pub IsCoherent-empty : (f : K → Option V) (now : ℕ) → IsCoherent f now []
  unfolding clear
  IsCoherent-empty f now = IsCoherent-clear f now []
