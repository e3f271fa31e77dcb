-- ===== src/Store/Accounts/Joined.antt =====
-- internal/store: what the join of GetPermissions sees of a write of users, groups or memberships.
use tileserve_go.Prelude.{
  false, not, Option, List, [], ◌∷◌, Text, ◌==◌, nat_eq, text_eq, pair_eq, eq_iff, keep_if, In, ◌≡◌,
  refl, ap, inl, inr, Bool-cases, arith,
}
use tileserve_go.Store.Database.{join_members}

module _ {A : Type 0} where
  pub join_members_others :
      (find : Text → Option A) (username j : Text) (members : List (Text × Text))
      → (username == j) ≡ false
      → join_members find j (keep_if (λ e. not (e.1 == username)) members)
        ≡ join_members find j members
  unfolding join_members
  join_members_others find username j [] h = refl
  join_members_others find username j ((g, u) ∷ members) h =
      ground (arith, join_members_others find username j members h, eq_iff u username, eq_iff u j)

  pub join_members_agree :
      (find look : Text → Option A) (j : Text) (members : List (Text × Text))
      → ((g : Text) → In (g, j) members → look g ≡ find g)
      → join_members look j members ≡ join_members find j members
  unfolding join_members
  join_members_agree find look j [] h = refl
  join_members_agree find look j ((g, u) ∷ members) h = elim (Bool-cases (u == j)) [
    | inl same ↦
        rw
          (
            same,
            h g (inl (ap (λ w. (g, w)) ((eq_iff u j).0 same))),
            join_members_agree find look j members (λ i m. h i (inr m)),
          )
          refl
    | inr other ↦ rw (other, join_members_agree find look j members (λ i m. h i (inr m))) refl
  ]

  pub join_members_unknown :
      (find : Text → Option A) (j : Text) (members : List (Text × Text))
      → ((g : Text) → In (g, j) members → ⊥)
      → join_members find j members ≡ []
  unfolding join_members
  join_members_unknown find j [] h = refl
  join_members_unknown find j ((g, u) ∷ members) h = elim (Bool-cases (u == j)) [
    | inl same ↦ absurd (h g (inl (ap (λ w. (g, w)) ((eq_iff u j).0 same))))
    | inr other ↦ rw (other, join_members_unknown find j members (λ i m. h i (inr m))) refl
  ]

  pub join_members_added :
      (find : Text → Option A) (id username j : Text) (members : List (Text × Text))
      → (username == j) ≡ false
      → join_members find j ((id, username) ∷ members) ≡ join_members find j members
  unfolding join_members
  join_members_added find id username j members h = rw h refl
