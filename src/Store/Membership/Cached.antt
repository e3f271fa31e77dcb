-- ===== src/Store/Membership/Cached.antt =====
-- internal/store/group_membership.go: the cached permissions behind a sync of a user's groups.
use tileserve_go.Prelude.{
  Bool, true, false, not, ◌&&◌, ◌||◌, List, [], ◌∷◌, ◌++◌, Text, ◌==◌, nat_eq, text_eq, pair_eq,
  if◌then◌else◌, any, keep_if, ◌≡◌, refl, arith,
}
use tileserve_go.Prelude.Monad.{Result, ok, err, Exec, ◌>>◌}
use tileserve_go.Prelude.Monad.Leads.{
  Leads, Outcome, Leads-pure, Leads-raise, Leads-bind, Leads-then, Leads-handle,
}
use tileserve_go.Store.State.{
  Store, StoreError, db_failed, group_exists, group_not_found, execute, transaction, roll_back,
}
use tileserve_go.Store.Accounts.{has_user, has_group}
use tileserve_go.Store.Accounts.Permitted.{
  HasTruePermissions, IsTrueBut, IsSteady, HasTruePermissions-IsSteady, Leads-execute, Leads-query,
  Leads-execute_or, changed, IsTrueBut-HasTruePermissions, Leads-invalidate,
}
use tileserve_go.Store.Accounts.Changed.{dropped_members-ChangesOne, added_member-ChangesOne}
use tileserve_go.Store.Accounts.Cached.{LeavesTrue, LeavesTrue-row, LeavesTrue-create_group}
use tileserve_go.Store.Membership.{
  member_clashes, add_member, add_members, replace_group_membership, Link, linked_group,
  find_group_by_link, synced_group, insert_synced_group, Draws, retry_suffixed, after_violation,
  create_if_missing, get_or_create_group_by_link, resolve_groups, sync_group_membership,
}

-- The transaction has not touched the cache of `s`, and what it wrote is about one user.
record IsOpen (username : Text) (s t : Store) : Type 0 where
  cache : t.perms_cache ≡ s.perms_cache
  now : t.now ≡ s.now
  known : IsTrueBut username t

accepted :
    (clash known_group known_user : Bool)
    → (clash || not (known_group && known_user)) ≡ false
    → (known_user ≡ true) × (known_group ≡ true)
accepted clash known_group known_user h = ground arith

module _ (username : Text) (s : Store) where
  IsOpen-IsSteady : IsSteady (IsOpen username s)
  IsOpen-IsSteady = record {
    at = λ t gs p. record {
      cache = p.cache;
      now = p.now;
      known = record { others = p.known.others; rows = p.known.rows };
    };
  }

  Leads-add_member :
      (id : Text)
      → Leads (IsOpen username s) (IsOpen username s) (IsOpen username s) (add_member username id)
  unfolding add_member
  Leads-add_member id =
      Leads-execute_or IsOpen-IsSteady (λ t p. p) (member_clashes id username) db_failed
        (λ db. record db { members = (id, username) ∷ db.members })
        (λ t gs e p.
          let both =
            accepted (any (λ m. m == (id, username)) t.db.members) (has_group id t.db)
              (has_user username t.db) e in
          record {
            cache = p.cache;
            now = p.now;
            known =
                changed username t (record t.db { members = (id, username) ∷ t.db.members }) gs
                  (added_member-ChangesOne username id t.db both.0 both.1) p.known;
          })

  Leads-add_members :
      (ids : List Text)
      → Leads (IsOpen username s) (IsOpen username s) (IsOpen username s) (add_members username ids)
  unfolding add_members
  Leads-add_members [] = Leads-pure tt
  Leads-add_members (id ∷ ids) = Leads-then _ _ (Leads-add_member id) (Leads-add_members ids)

  Leads-replaced :
      (ids : List Text)
      → Leads (IsOpen username s) (IsOpen username s) (IsOpen username s) (
          execute (λ db. record db { members = keep_if (λ e. not (e.1 == username)) db.members })
          >> add_members username ids)
  Leads-replaced ids =
      Leads-then _ _
        (Leads-execute IsOpen-IsSteady (λ t p. p)
          (λ db. record db { members = keep_if (λ e. not (e.1 == username)) db.members })
          (λ t gs p. record {
            cache = p.cache;
            now = p.now;
            known =
                changed username t
                  (record t.db { members = keep_if (λ e. not (e.1 == username)) t.db.members }) gs
                  (dropped_members-ChangesOne username t.db) p.known;
          }))
        (Leads-add_members ids)

  -- What a failed transaction wrote is undone.
  rolled_back :
      {A : Type 0} (r : Result StoreError A × Store)
      → HasTruePermissions s
      → Outcome (IsOpen username s) (IsOpen username s) r
      → Outcome (IsTrueBut username) HasTruePermissions (roll_back s.db r)
  rolled_back (ok a, t) h p = p.known
  rolled_back (err e, t) h p = record { coherent = rw (p.cache, p.now) h.coherent; rows = h.rows }

pub LeavesTrue-replace_group_membership :
    (username : Text) (ids : List Text) → LeavesTrue (replace_group_membership username ids)
unfolding replace_group_membership transaction
LeavesTrue-replace_group_membership username ids =
    Leads-then _ _
      (record {
        at = λ s h.
            rolled_back username s
              ((execute
                    (λ db. record db { members = keep_if (λ e. not (e.1 == username)) db.members })
                  >> add_members username ids)
                s)
              h
              ((Leads-replaced username s ids).at s (record {
                cache = refl;
                now = refl;
                known = IsTrueBut-HasTruePermissions username s h;
              }));
      })
      (Leads-invalidate username)

LeavesTrue-find : (l : Link) (value : Text) → LeavesTrue (find_group_by_link l value)
unfolding find_group_by_link
LeavesTrue-find l value =
    Leads-bind _ _
      (Leads-query HasTruePermissions-IsSteady (λ s h. h) (λ db. linked_group l value db.groups))
      (λ id. LeavesTrue-row group_not_found id)

LeavesTrue-insert :
    (l : Link) (value name id : Text) → LeavesTrue (insert_synced_group l value name id)
unfolding insert_synced_group
LeavesTrue-insert l value name id =
    Leads-then _ _ (LeavesTrue-create_group id (synced_group l value name)) (Leads-pure id)

LeavesTrue-retry :
    (l : Link) (value name : Text) (d : Draws) → LeavesTrue (retry_suffixed l value name d)
unfolding retry_suffixed
LeavesTrue-retry l value name d =
    Leads-bind _ _ (LeavesTrue-row db_failed d.suffix)
      (λ suffix. LeavesTrue-insert l value (name ++ b'-' ∷ suffix) d.second_id)

LeavesTrue-violation :
    (l : Link) (value name : Text) (d : Draws) (e : StoreError)
    → LeavesTrue (after_violation l value name d e)
unfolding after_violation
LeavesTrue-violation l value name d group_exists =
    Leads-handle _ _ (LeavesTrue-find l value) (λ e. LeavesTrue-retry l value name d)
LeavesTrue-violation l value name d e = Leads-raise e (λ s h. h)

LeavesTrue-missing :
    (l : Link) (value name : Text) (d : Draws) (e : StoreError)
    → LeavesTrue (create_if_missing l value name d e)
unfolding create_if_missing
LeavesTrue-missing l value name d group_not_found =
    Leads-handle _ _ (LeavesTrue-insert l value name d.first_id)
      (LeavesTrue-violation l value name d)
LeavesTrue-missing l value name d e = Leads-raise e (λ s h. h)

LeavesTrue-get_or_create :
    (l : Link) (value name : Text) (d : Draws)
    → LeavesTrue (get_or_create_group_by_link l value name d)
unfolding get_or_create_group_by_link
LeavesTrue-get_or_create l value name d =
    Leads-handle _ _ (LeavesTrue-find l value) (LeavesTrue-missing l value name d)

LeavesTrue-if :
    {A : Type 0} (b : Bool) (m n : Exec Store StoreError A)
    → LeavesTrue m
    → LeavesTrue n
    → LeavesTrue (if b then m else n)
LeavesTrue-if true m n h k = h
LeavesTrue-if false m n h k = k

LeavesTrue-resolve :
    (l : Link) (display : Text → Text) (draws : Text → Draws) (seen values : List Text)
    → LeavesTrue (resolve_groups l display draws seen values)
unfolding resolve_groups
LeavesTrue-resolve l display draws seen [] = Leads-pure []
LeavesTrue-resolve l display draws seen (v ∷ vs) =
    LeavesTrue-if (v == [] || any (λ w. w == v) seen) _ _
      (LeavesTrue-resolve l display draws seen vs)
      (Leads-bind _ _ (LeavesTrue-get_or_create l v (display v) (draws v)) (λ id.
        Leads-bind _ _ (LeavesTrue-resolve l display draws (v ∷ seen) vs)
          (λ ids. Leads-pure (id ∷ ids))))

pub LeavesTrue-sync :
    (l : Link) (display : Text → Text) (draws : Text → Draws) (username : Text) (values : List Text)
    → LeavesTrue (sync_group_membership l display draws username values)
unfolding sync_group_membership
LeavesTrue-sync l display draws username values =
    Leads-bind _ _ (LeavesTrue-resolve l display draws [] values)
      (λ ids. LeavesTrue-replace_group_membership username ids)
