-- ===== src/Disk/Entries.antt =====
-- os.ReadDir, os.Stat and os.WriteFile on a disk without faults.
use tileserve_go.Prelude.{
  ℕ, Bool, ◌||◌, true, false, Option, none, some, List, [], ◌∷◌, ◌++◌, Text, codes, ◌==◌, nat_eq,
  text_eq, eq_iff, eq_refl, In, ◌≡◌, refl, sym, ◌∙◌, ◌↔◌, inl, inr, Bool-cases, arith,
  if◌then◌else◌, append_assoc, iff_trans, iff_sym,
}
use tileserve_go.Prelude.Assoc.{lookup}
use tileserve_go.Disk.{Node, Tree, cut_prefix, is_element, child_path, names_in, cons_element}

pub cut_prefix-append : (p s : Text) → cut_prefix (p ++ s) p ≡ some s
unfolding cut_prefix
cut_prefix-append [] s = refl
cut_prefix-append (c ∷ p) s = rw (eq_refl c) (cut_prefix-append p s)

abbrev pub is_present {ℓ} : {A : Type ℓ} → Option A → Bool
is_present none = false
is_present (some a) = true

cons_equal : {a b : ℕ} {s t : Text} → a ≡ b → s ≡ t → (a ∷ s) ≡ (b ∷ t)
cons_equal e f = rw (e, f) refl

pub cut_prefix_sound : (t p s : Text) → cut_prefix t p ≡ some s → p ++ s ≡ t
unfolding cut_prefix
cut_prefix_sound t [] s e = ground arith
cut_prefix_sound [] (c ∷ p) s e = absurd (ground arith)
cut_prefix_sound (a ∷ t) (c ∷ p) s e = elim (Bool-cases (a == c)) [
  | inl same ↦ cons_equal ((eq_iff c a).0 (ground arith)) (cut_prefix_sound t p s (ground arith))
  | inr differs ↦ absurd (ground arith)
]

cut_prefix_child :
    (path name p : Text)
    → (cut_prefix p (path ++ codes "/") ≡ some name) ↔ (p ≡ child_path path name)
cut_prefix_child path name p = (
  λ e. sym (cut_prefix_sound p (path ++ codes "/") name e) ∙ append_assoc path (codes "/") name,
  λ e. rw (e, ← append_assoc path (codes "/") name) (cut_prefix-append (path ++ codes "/") name),
)

entry_step :
    (name : Text) (o : Option Text) (here found : Bool) (names : List Text)
    → (o ≡ some name) ↔ (here ≡ true)
    → In name names ↔ ((is_element name ≡ true) × (found ≡ true))
    → In name (cons_element o names) ↔ ((is_element name ≡ true) × ((here || found) ≡ true))
entry_step name none here found names h k = ground arith
entry_step name (some m) here found names h k = elim (Bool-cases (is_element m)) [
  | inl e ↦ rw e (ground arith)
  | inr e ↦ rw e (ground arith)
]

is_present_here :
    (b : Bool) (n : Node) (o : Option Node)
    → is_present (if b then some n else o) ≡ (b || is_present o)
is_present_here true n o = refl
is_present_here false n o = refl

-- A name is listed just when the disk has a node at that name below the directory.
pub names_in_iff :
    (path name : Text) (t : Tree)
    → In name (names_in path t)
      ↔ ((is_element name ≡ true) × (is_present (lookup (child_path path name) t) ≡ true))
unfolding names_in lookup
names_in_iff path name [] = ground arith
names_in_iff path name ((p, n) ∷ rest) =
    rw (is_present_here (p == child_path path name) n (lookup (child_path path name) rest)) (
      entry_step name (cut_prefix p (path ++ codes "/")) (p == child_path path name)
        (is_present (lookup (child_path path name) rest)) (names_in path rest)
        (iff_trans (cut_prefix_child path name p) (iff_sym (eq_iff p (child_path path name))))
        (names_in_iff path name rest))
