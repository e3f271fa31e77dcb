-- ===== src/Sync/Manager/Owned.antt =====
-- internal/sync/manager.go: whose the goroutines are, and what starts the wanted workers.
use tileserve_go.Prelude.{
  none-some, ℕ, Bool, true, false, ◌||◌, Option, none, some, List, [], ◌∷◌, ◌⊎◌, Text, ◌==◌, nat_eq,
  text_eq, eq_iff, keep_if, In, All, ◌≡◌, refl, sym, ap, ◌∙◌, subst, inl, inr, Bool-cases, arith,
}
use tileserve_go.Prelude.Assoc.{lookup, lookup-insert_self}
use tileserve_go.Prelude.Assoc.Entries.{
  IsDistinct, entries, lookup-entries, IsDistinct-entries, lookup_behind, lookup_front,
  lookup_other,
}
use tileserve_go.Sync.Manager.{
  SyncRemote, RunningWorker, Goroutine, Phase, idle, waiting, over, Manager, start_worker,
  start_all, start_unless, start_missing, start_wanted, has,
}

-- No remote has two goroutines.
abbrev pub AreExclusive : List Goroutine → Type 0
AreExclusive [] = Unit
AreExclusive (g ∷ gs) = All (λ h. (h.remote == g.remote) ≡ false) gs × AreExclusive gs

-- A goroutine is its remote's worker's.
abbrev pub IsOwned : List (Text × RunningWorker) → Goroutine → Type 0
IsOwned workers g =
    (w : RunningWorker) × (lookup g.remote workers ≡ some w) × (w.goroutine ≡ g.number)

abbrev pub AllOwned : List (Text × RunningWorker) → List Goroutine → Type 0
AllOwned workers live = (g : Goroutine) → In g live → IsOwned workers g

-- A goroutine is its remote's worker's, or it is one of those that are waited for.
abbrev pub OwnedOrStopped : List (Text × RunningWorker) → List ℕ → List Goroutine → Type 0
OwnedOrStopped workers stopped live =
    (g : Goroutine) → In g live → IsOwned workers g ⊎ (has g.number stopped ≡ true)

abbrev pub AllAbsent : List (Text × SyncRemote) → List (Text × RunningWorker) → Type 0
AllAbsent restart workers =
    (id : Text) (r : SyncRemote) → lookup id restart ≡ some r → lookup id workers ≡ none

-- Each remote stands under its own id.
abbrev pub AreKeyed : List (Text × SyncRemote) → Type 0
AreKeyed rs = (id : Text) (r : SyncRemote) → lookup id rs ≡ some r → r.id ≡ id

abbrev pub PhaseIsValid : Phase → List (Text × RunningWorker) → List Goroutine → Type 0
PhaseIsValid idle workers live = AllOwned workers live
PhaseIsValid (waiting stopped restart desired) workers live =
    OwnedOrStopped workers stopped live
    × AllAbsent restart workers
    × AreKeyed restart
    × AreKeyed desired
PhaseIsValid over workers live = Unit

pub record IsValid (m : Manager) : Type 0 where
  pub exclusive : AreExclusive m.live
  pub phased : PhaseIsValid m.phase m.workers m.live

pub All-of_In : {A : Type 0} (P : A → Type 0) (l : List A) → ((a : A) → In a l → P a) → All P l
All-of_In P [] h = tt
All-of_In P (a ∷ l) h = (h a (inl refl), All-of_In P l (λ b i. h b (inr i)))

pub or_right : (a : Bool) {b : Bool} → b ≡ true → (a || b) ≡ true
or_right a h = ground arith

pub or_left : {a : Bool} (b : Bool) → a ≡ true → (a || b) ≡ true
or_left b h = ground arith

pub All-keep_if :
    {A : Type 0} (p : A → Bool) (P : A → Type 0) (l : List A) → All P l → All P (keep_if p l)
All-keep_if p P [] h = tt
All-keep_if p P (a ∷ l) h = elim (Bool-cases (p a)) [
  | inl kept ↦ rw kept (h.0, All-keep_if p P l h.1)
  | inr gone ↦ rw gone (All-keep_if p P l h.1)
]

pub flipped : (a b : Text) → (a == b) ≡ false → (b == a) ≡ false
flipped a b h = ground (arith, eq_iff a b, eq_iff b a)

-- All goroutines are workers', and no remote has two.
pub record IsSettled (m : Manager) : Type 0 where
  pub exclusive : AreExclusive m.live
  pub owned : AllOwned m.workers m.live

module _ (m : Manager) (v : IsSettled m) (r : SyncRemote)
    (free : lookup r.id m.workers ≡ none) where
  pub of_others : (g : Goroutine) → In g m.live → (g.remote == r.id) ≡ false
  of_others g i = elim (Bool-cases (g.remote == r.id)) [
    | inr other ↦ other
    | inl same ↦ absurd (
        none-some (
          sym free
          ∙ ap (λ k. lookup k m.workers) (sym ((eq_iff g.remote r.id).0 same))
          ∙ (v.owned g i).1))
  ]

  pub start_worker-owned : AllOwned (start_worker r m).workers (start_worker r m).live
  unfolding start_worker
  start_worker-owned g (inl e) = subst (IsOwned (start_worker r m).workers) e (
    record { goroutine = m.next; config = r; pending = false },
    lookup-insert_self r.id _ m.workers,
    refl,
  )
  start_worker-owned g (inr i) =
      let o = v.owned g i in
      (
        o.0,
        lookup_other r.id g.remote _ m.workers (flipped g.remote r.id (of_others g i)) ∙ o.1,
        o.2,
      )

  pub start_worker-IsSettled : IsSettled (start_worker r m)
  unfolding start_worker
  start_worker-IsSettled = record {
    exclusive = (All-of_In (λ h. (h.remote == r.id) ≡ false) m.live of_others, v.exclusive);
    owned = start_worker-owned;
  }

pub start_all-IsSettled :
    (rs : List (Text × SyncRemote)) (m : Manager)
    → IsDistinct rs
    → AreKeyed rs
    → AllAbsent rs m.workers
    → IsSettled m
    → IsSettled (start_all rs m)
unfolding start_all start_worker
start_all-IsSettled [] m d k a v = v
start_all-IsSettled ((id, r) ∷ rs) m d k a v =
    start_all-IsSettled rs (start_worker r m) d.1 (λ j q h. k j q (lookup_behind id j r q rs d h).1)
      (λ j q h.
        let b = lookup_behind id j r q rs d h in
        lookup_other r.id j _ m.workers (ap (λ i. i == j) (k id r (lookup_front id r rs)) ∙ b.0)
        ∙ a j q b.1)
      (start_worker-IsSettled m v r (
        ap (λ i. lookup i m.workers) (k id r (lookup_front id r rs))
        ∙ a id r (lookup_front id r rs)))

pub start_unless-IsSettled :
    (o : Option RunningWorker) (m : Manager) (r : SyncRemote)
    → lookup r.id m.workers ≡ o
    → IsSettled m
    → IsSettled (start_unless o r m)
start_unless-IsSettled none m r h v = start_worker-IsSettled m v r h
start_unless-IsSettled (some w) m r h v = v

pub start_missing-IsSettled :
    (rs : List (Text × SyncRemote)) (m : Manager)
    → IsDistinct rs
    → AreKeyed rs
    → IsSettled m
    → IsSettled (start_missing rs m)
unfolding start_missing
start_missing-IsSettled [] m d k v = v
start_missing-IsSettled ((id, r) ∷ rs) m d k v =
    start_missing-IsSettled rs (start_unless (lookup id m.workers) r m) d.1
      (λ j q h. k j q (lookup_behind id j r q rs d h).1)
      (start_unless-IsSettled (lookup id m.workers) m r
        (ap (λ i. lookup i m.workers) (k id r (lookup_front id r rs))) v)

pub AreKeyed-entries : (rs : List (Text × SyncRemote)) → AreKeyed rs → AreKeyed (entries rs)
AreKeyed-entries rs k j q h = k j q (sym (lookup-entries j rs) ∙ h)

pub start_wanted-IsValid :
    (m : Manager) (restart desired : List (Text × SyncRemote))
    → IsSettled m
    → AllAbsent restart m.workers
    → AreKeyed restart
    → AreKeyed desired
    → IsValid (start_wanted restart desired m)
unfolding start_wanted
start_wanted-IsValid m restart desired v a k l =
    let w =
      start_missing-IsSettled (entries desired) (start_all (entries restart) m)
        (IsDistinct-entries desired) (AreKeyed-entries desired l)
        (start_all-IsSettled (entries restart) m (IsDistinct-entries restart)
          (AreKeyed-entries restart k) (λ j q h. a j q (sym (lookup-entries j restart) ∙ h)) v) in
    record { exclusive = w.exclusive; phased = w.owned }
