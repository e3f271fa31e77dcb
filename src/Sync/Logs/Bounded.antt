-- ===== src/Sync/Logs/Bounded.antt =====
-- internal/sync/logs.go: a LogStore against the list of all the entries recorded.
use tileserve_go.Prelude.{
  ℕ, zero, suc, ◌+◌, ◌-◌, ◌≤◌, List, [], ◌∷◌, ◌++◌, Text, ◌==◌, nat_eq, text_eq, eq_iff,
  if◌then◌else◌, ltb, length, drop, length-append, length-drop, ◌≡◌, refl, sym, ap, ◌∙◌, Bool-cases,
  inl, inr, arith,
}
use tileserve_go.Prelude.Assoc.{lookup, lookup-insert}
use tileserve_go.Sync.Logs.{
  LogStore, or_empty, trimmed, max_log_entries_per_remote, record_entry, logs,
}

module _ {E : Type 0} where
  -- The last `n` entries.
  unfoldable pub last_of : ℕ → List E → List E
  last_of n l = drop (length l - n) l

  drop-append : (k : ℕ) (l ys : List E) → k ≤ length l → drop k l ++ ys ≡ drop k (l ++ ys)
  drop-append zero l ys h = refl
  drop-append (suc k) [] ys h = absurd (omega arith)
  drop-append (suc k) (x ∷ l) ys h = drop-append k l ys (omega arith)

  drop-nil : (n : ℕ) → drop {A = E} n [] ≡ []
  drop-nil zero = refl
  drop-nil (suc n) = refl

  drop-drop : (m k : ℕ) (l : List E) → drop m (drop k l) ≡ drop (k + m) l
  drop-drop m zero l = let e : m ≡ 0 + m = omega arith in ap (λ i. drop i l) e
  drop-drop m (suc k) [] = drop-nil m ∙ sym (drop-nil (suc k + m))
  drop-drop m (suc k) (x ∷ l) =
      let e : suc (k + m) ≡ suc k + m = omega arith in drop-drop m k l ∙ ap (λ i. drop i (x ∷ l)) e

  last_of-append :
      (n : ℕ) (l ys : List E)
      → 1 ≤ n
      → length ys ≡ 1
      → last_of n (last_of n l ++ ys) ≡ last_of n (l ++ ys)
  unfolding last_of
  last_of-append n l ys h e =
      let k : ℕ = length l - n in
      let short : k ≤ length l = omega arith in
      let len : length (drop k l ++ ys) ≡ length l - k + 1 =
        length-append (drop k l) ys ∙ (omega (arith, length-drop k l, e)) in
      ap (λ x. drop (length (drop k l ++ ys) - n) x) (drop-append k l ys short)
      ∙ drop-drop (length (drop k l ++ ys) - n) k (l ++ ys)
      ∙ ap (λ i. drop i (l ++ ys)) (omega (arith, len, length-append l ys, e))

  trimmed-last_of : (l : List E) → trimmed l ≡ last_of max_log_entries_per_remote l
  unfolding last_of
  trimmed-last_of l = elim (Bool-cases (ltb max_log_entries_per_remote (length l))) [
    | inl long ↦ rw long refl
    | inr short ↦
        rw short
          (let e : 0 ≡ length l - max_log_entries_per_remote = ground arith in ap (λ i. drop i l) e)
  ]

  logs-nil : (id : Text) → logs {E = E} id [] ≡ []
  unfolding logs lookup
  logs-nil id = refl

  drop_all : (n : ℕ) → last_of n [] ≡ []
  unfolding last_of
  drop_all n = drop-nil (0 - n)

  -- The store after some recordings, with the last first.
  unfoldable pub run : List (Text × E) → LogStore E
  unfolding record_entry
  run [] = []
  run ((id, e) ∷ earlier) = record_entry id e (run earlier)

  -- Everything that was recorded of one remote, oldest first.
  unfoldable pub recorded : Text → List (Text × E) → List E
  recorded id [] = []
  recorded id ((j, e) ∷ earlier) =
      let rest = recorded id earlier in if j == id then rest ++ e ∷ [] else rest

  logs_after :
      (j id : Text) (e : E) (s : LogStore E)
      → logs id (record_entry j e s) ≡ (if j == id then trimmed (logs j s ++ e ∷ []) else logs id s)
  unfolding logs record_entry
  logs_after j id e s = elim (Bool-cases (j == id)) [
    | inl same ↦ rw (lookup-insert j id (trimmed (or_empty (lookup j s) ++ e ∷ [])) s, same) refl
    | inr other ↦ rw (lookup-insert j id (trimmed (or_empty (lookup j s) ++ e ∷ [])) s, other) refl
  ]

  -- After any recordings, Logs returns the last 200 entries recorded of the remote, oldest first.
  pub logs-last_of :
      (id : Text) (history : List (Text × E))
      → logs id (run history) ≡ last_of max_log_entries_per_remote (recorded id history)
  unfolding run recorded
  logs-last_of id [] = logs-nil id ∙ sym (drop_all max_log_entries_per_remote)
  logs-last_of id ((j, e) ∷ earlier) = elim (Bool-cases (j == id)) [
    | inl same ↦
        logs_after j id e (run earlier)
        ∙ rw same (
            trimmed-last_of (logs j (run earlier) ++ e ∷ [])
            ∙ ap (λ l. last_of max_log_entries_per_remote (l ++ e ∷ [])) (logs-last_of j earlier)
            ∙ last_of-append max_log_entries_per_remote (recorded j earlier) (e ∷ []) (omega arith)
                refl
            ∙ ap (λ i. last_of max_log_entries_per_remote (recorded i earlier ++ e ∷ []))
                ((eq_iff j id).0 same))
    | inr other ↦ logs_after j id e (run earlier) ∙ rw other (logs-last_of id earlier)
  ]
