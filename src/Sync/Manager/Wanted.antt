-- ===== src/Sync/Manager/Wanted.antt =====
-- internal/sync/manager.go: the rows that a reconcile has listed, and the workers that they ask for.
use tileserve_go.Prelude.{
  ℕ, Bool, true, false, some, List, [], ◌∷◌, ◌⊎◌, Text, ◌==◌, nat_eq, text_eq, eq_iff,
  if◌then◌else◌, In, ◌≡◌, refl, sym, ap, ◌∙◌, subst, inl, inr, Bool-cases, none-some, some_same,
  arith,
}
use tileserve_go.Prelude.Assoc.{lookup, insert, lookup-insert, lookup-insert_self, lookup-nil}
use tileserve_go.Prelude.Assoc.Entries.{lookup_other}
use tileserve_go.Sync.Manager.{
  SyncRemote, RunningWorker, Phase, idle, waiting, over, Manager, differ, config_changed,
  desired_of, stop_outdated, begin_reconcile,
}
use tileserve_go.Sync.Manager.Matched.{Matches}

-- Two rows agree in what configChanged compares: the connection details, the interval and the
-- policy.
pub record RunsLike (c r : SyncRemote) : Type 0 where
  pub base_url : c.base_url ≡ r.base_url
  pub remote_api_key_id : c.remote_api_key_id ≡ r.remote_api_key_id
  pub poll_interval_sec : c.poll_interval_sec ≡ r.poll_interval_sec
  pub sync_all_maps : c.sync_all_maps ≡ r.sync_all_maps
  pub sync_new_maps : c.sync_new_maps ≡ r.sync_new_maps
  pub sync_geo_objects : c.sync_geo_objects ≡ r.sync_geo_objects

-- The workers are those of the enabled rows: each runs like an enabled row with its id, and each
-- enabled row has one.
pub record AreFor (remotes : List SyncRemote) (workers : List (Text × RunningWorker)) : Type 0 where
  pub asked_for :
      (id : Text) (w : RunningWorker)
      → lookup id workers ≡ some w
      → (r : SyncRemote) × In r remotes × (r.enabled ≡ true) × (r.id ≡ id) × RunsLike w.config r
  pub complete :
      (r : SyncRemote)
      → In r remotes
      → r.enabled ≡ true
      → (w : RunningWorker) × (lookup r.id workers ≡ some w)

not_differ : (a b : Bool) → differ a b ≡ false → a ≡ b
not_differ true b h = ground arith
not_differ false b h = ground arith

unchanged-RunsLike : (c r : SyncRemote) → config_changed c r ≡ false → RunsLike c r
unfolding config_changed
unchanged-RunsLike c r h = record {
  base_url = (eq_iff c.base_url r.base_url).0 (ground arith);
  remote_api_key_id = (eq_iff c.remote_api_key_id r.remote_api_key_id).0 (ground arith);
  poll_interval_sec = (eq_iff c.poll_interval_sec r.poll_interval_sec).0 (ground arith);
  sync_all_maps = not_differ c.sync_all_maps r.sync_all_maps (ground arith);
  sync_new_maps = not_differ c.sync_new_maps r.sync_new_maps (ground arith);
  sync_geo_objects = not_differ c.sync_geo_objects r.sync_geo_objects (ground arith);
}

-- An enabled row of the list, with an id.
abbrev IsListed : List SyncRemote → Text → SyncRemote → Type 0
IsListed remotes id r = In r remotes × (r.enabled ≡ true) × (r.id ≡ id)

later_row :
    (id : Text) (q r : SyncRemote) (rs : List SyncRemote)
    → IsListed rs id q
    → IsListed (r ∷ rs) id q
later_row id q r rs h = (inr h.0, h.1, h.2)

desired_of-IsListed :
    (rs : List SyncRemote) (acc : List (Text × SyncRemote)) (id : Text) (q : SyncRemote)
    → lookup id (desired_of acc rs) ≡ some q
    → (lookup id acc ≡ some q) ⊎ IsListed rs id q
unfolding desired_of
desired_of-IsListed [] acc id q h = inl h
desired_of-IsListed (r ∷ rs) acc id q h =
    elim (desired_of-IsListed rs (if r.enabled then insert r.id r acc else acc) id q h) [
      | inr i ↦ inr (later_row id q r rs i)
      | inl k ↦ front r.enabled refl k
    ]
  where
    front :
        (b : Bool)
        → r.enabled ≡ b
        → lookup id (if b then insert r.id r acc else acc) ≡ some q
        → (lookup id acc ≡ some q) ⊎ IsListed (r ∷ rs) id q
    front false e k = inl k
    front true e k = elim (Bool-cases (r.id == id)) [
      | inr other ↦ inl (sym (lookup_other r.id id r acc other) ∙ k)
      | inl here ↦
          let same : r.id ≡ id = (eq_iff r.id id).0 here in
          let found = some_same (
            sym (lookup-insert_self r.id r acc)
            ∙ ap (λ i. lookup i (insert r.id r acc)) same
            ∙ k) in
          inr (inl found, ap (λ x. x.enabled) (sym found) ∙ e, ap (λ x. x.id) (sym found) ∙ same)
    ]

-- An id that is known stays known.
abbrev IsKnown : Text → List (Text × SyncRemote) → Type 0
IsKnown id l = (q : SyncRemote) × (lookup id l ≡ some q)

IsKnown-if :
    (b : Bool) (id : Text) (r : SyncRemote) (acc : List (Text × SyncRemote))
    → IsKnown id acc
    → IsKnown id (if b then insert r.id r acc else acc)
IsKnown-if false id r acc k = k
IsKnown-if true id r acc k = elim (Bool-cases (r.id == id)) [
  | inl here ↦ (r, rw (lookup-insert r.id id r acc, here) refl)
  | inr other ↦ (k.0, lookup_other r.id id r acc other ∙ k.1)
]

desired_of-IsKnown :
    (rs : List SyncRemote) (acc : List (Text × SyncRemote)) (id : Text)
    → IsKnown id acc
    → IsKnown id (desired_of acc rs)
unfolding desired_of
desired_of-IsKnown [] acc id k = k
desired_of-IsKnown (r ∷ rs) acc id k =
    desired_of-IsKnown rs (if r.enabled then insert r.id r acc else acc) id
      (IsKnown-if r.enabled id r acc k)

listed-IsKnown :
    (rs : List SyncRemote) (acc : List (Text × SyncRemote)) (q : SyncRemote)
    → In q rs
    → q.enabled ≡ true
    → IsKnown q.id (desired_of acc rs)
unfolding desired_of
listed-IsKnown [] acc q i e = absurd i
listed-IsKnown (r ∷ rs) acc q (inr i) e =
    listed-IsKnown rs (if r.enabled then insert r.id r acc else acc) q i e
listed-IsKnown (r ∷ rs) acc q (inl same) e =
    desired_of-IsKnown rs (if r.enabled then insert r.id r acc else acc) q.id (
      subst (λ b. IsKnown q.id (if b then insert r.id r acc else acc))
        (sym (ap (λ x. x.enabled) same ∙ e))
        (subst (λ x. IsKnown q.id (insert x.id x acc)) (sym same)
          (q, lookup-insert_self q.id q acc)))

pub Matches-AreFor :
    (remotes : List SyncRemote) (workers : List (Text × RunningWorker))
    → Matches (desired_of [] remotes) workers
    → AreFor remotes workers
Matches-AreFor remotes workers m = record {
  asked_for = λ id w h.
      let (r, found, same) = m.as_desired id w h in
      elim (desired_of-IsListed remotes [] id r found) [
        | inl gone ↦ absurd (none-some (sym (lookup-nil {V = SyncRemote} id) ∙ gone))
        | inr l ↦ (r, l.0, l.1, l.2, unchanged-RunsLike w.config r same)
      ];
  complete = λ r i e. let k = listed-IsKnown remotes [] r i e in m.complete r.id k.0 k.1;
}

abbrev wanted_in : Phase → List (Text × SyncRemote)
wanted_in idle = []
wanted_in (waiting stopped restart desired) = desired
wanted_in over = []

-- The phase of a reconcile that waits holds the enabled rows that it has listed.
pub waiting-desired_of :
    (remotes : List SyncRemote) (ensured : Bool) (m : Manager) (stopped : List ℕ)
    (restart desired : List (Text × SyncRemote))
    → m.phase ≡ idle
    → (begin_reconcile (some remotes) ensured m).phase ≡ waiting stopped restart desired
    → desired_of [] remotes ≡ desired
unfolding begin_reconcile stop_outdated
waiting-desired_of [] ensured m stopped restart desired i h = ap wanted_in h
waiting-desired_of (r ∷ rs) true m stopped restart desired i h = ap wanted_in h
waiting-desired_of (r ∷ rs) false m stopped restart desired i h = absurd (ground arith)
