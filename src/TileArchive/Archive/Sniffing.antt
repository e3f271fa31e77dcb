-- ===== src/TileArchive/Archive/Sniffing.antt =====
-- What sniffArchiveFormat tells of a file, stated on all of its bytes.
use tileserve_go.Prelude.{
  ℕ, zero, suc, ◌+◌, ◌≤◌, ◌≡◌, refl, sym, ◌∙◌, ap, ◌↔◌, ◌⊎◌, inl, inr, Bool, true, false, ◌&&◌,
  ◌||◌, if◌then◌else◌, length-drop, [], ◌∷◌, ◌++◌, Text, nat_eq, ◌==◌, text_eq, text_beq_iff, arith,
  length, take, drop, leb, le→leb, and_true, and-true_right,
}
use mathlib.Core.Bool.{false≢true}
use tileserve_go.Prelude.Strings.{has_prefix}
use tileserve_go.TileArchive.Archive.{
  ArchiveFormat, archive_unknown, archive_zip, archive_tar_gz, archive_tar, zip_magic,
  zip_empty_magic, gzip_magic, tar_magic, sniff_archive_format,
}

pub has_prefix_iff : (s p : Text) → (has_prefix s p ≡ true) ↔ ((rest : Text) × (s ≡ p ++ rest))
unfolding has_prefix
has_prefix_iff [] [] = (λ _. ([], refl), λ _. refl)
has_prefix_iff (a ∷ s) [] = (λ _. (a ∷ s, refl), λ _. refl)
has_prefix_iff [] (b ∷ p) = (λ e. cc, λ e. let r = e.1 in cc)
has_prefix_iff (a ∷ s) (b ∷ p) = (
  λ e. let (rest, q) = (has_prefix_iff s p).0 (ground arith) in (rest, ground arith),
  λ e. let r = e.1 in let ih = (has_prefix_iff s p).1 (e.0, cc) in ground arith,
)

has_prefix-take : (n : ℕ) (s p : Text) → length p ≤ n → has_prefix (take n s) p ≡ has_prefix s p
unfolding has_prefix
has_prefix-take zero [] [] h = refl
has_prefix-take zero (a ∷ s) [] h = refl
has_prefix-take zero s (b ∷ p) h = absurd (omega arith)
has_prefix-take (suc n) [] p h = refl
has_prefix-take (suc n) (a ∷ s) [] h = refl
has_prefix-take (suc n) (a ∷ s) (b ∷ p) h = ground (arith, has_prefix-take n s p)

drop-take : (a b n : ℕ) (s : Text) → n ≡ a + b → drop a (take n s) ≡ take b (drop a s)
drop-take zero b n s h = let e : n ≡ b = omega arith in rw e refl
drop-take (suc a) zero zero [] h = absurd (omega arith)
drop-take (suc a) b zero s h = absurd (omega arith)
drop-take (suc a) zero (suc n) [] h = refl
drop-take (suc a) (suc b) (suc n) [] h = refl
drop-take (suc a) b (suc n) (x ∷ s) h = drop-take a b n s (omega arith)

-- The bytes begin with a magic number.
abbrev pub StartsWith : Text → Text → Type 0
StartsWith magic bytes = (rest : Text) × (bytes ≡ magic ++ rest)

-- The bytes have "ustar" at offset 257.
abbrev pub HasUstar : Text → Type 0
HasUstar bytes = StartsWith tar_magic (drop 257 bytes)

abbrev pub IsZip : Text → Type 0
IsZip bytes = StartsWith zip_magic bytes ⊎ StartsWith zip_empty_magic bytes

abbrev pub Describes : ArchiveFormat → Text → Type 0
Describes archive_zip bytes = IsZip bytes
Describes archive_tar_gz bytes = StartsWith gzip_magic bytes
Describes archive_tar bytes = HasUstar bytes × ¬ IsZip bytes × ¬ StartsWith gzip_magic bytes
Describes archive_unknown bytes = ¬ HasUstar bytes × ¬ IsZip bytes × ¬ StartsWith gzip_magic bytes

take_prefix : (s p : Text) → (take (length p) s ≡ p) ↔ StartsWith p s
take_prefix s [] = (λ _. (s, refl), λ _. refl)
take_prefix [] (b ∷ p) = (λ e. cc, λ w. let r = w.1 in cc)
take_prefix (a ∷ s) (b ∷ p) = (
  λ e. let (rest, q) = (take_prefix s p).0 (ground arith) in (rest, ground arith),
  λ w. let r = w.1 in let ih = (take_prefix s p).1 (w.0, cc) in ground arith,
)

long_enough : (h : Text) → drop 257 h ≡ tar_magic → leb 262 (length h) ≡ true
long_enough h e =
    le→leb 262 (length h) (omega (arith, length-drop 257 h, ap (λ (t : Text). length t) e))

ustar_iff :
    (bytes : Text)
    → ((leb 262 (length (take 262 bytes)) && drop 257 (take 262 bytes) == tar_magic) ≡ true)
      ↔ HasUstar bytes
ustar_iff bytes =
    let h = take 262 bytes in
    let cut : drop 257 h ≡ take 5 (drop 257 bytes) = drop-take 257 5 262 bytes (omega arith) in
    (
      λ e.
          (take_prefix (drop 257 bytes) tar_magic).0
            (sym cut ∙ (text_beq_iff (drop 257 h) tar_magic).0 (and-true_right _ _ e)),
      λ w.
          let same : drop 257 h ≡ tar_magic = cut ∙ (take_prefix (drop 257 bytes) tar_magic).1 w in
          and_true _ _ (long_enough h same) ((text_beq_iff (drop 257 h) tar_magic).1 same),
    )

starts_iff :
    (bytes magic : Text)
    → length magic ≤ 262
    → (has_prefix (take 262 bytes) magic ≡ true) ↔ StartsWith magic bytes
starts_iff bytes magic h = (
  λ e. (has_prefix_iff bytes magic).0 (sym (has_prefix-take 262 bytes magic h) ∙ e),
  λ w. has_prefix-take 262 bytes magic h ∙ (has_prefix_iff bytes magic).1 w,
)

not-IsZip :
    (bytes : Text)
    → (StartsWith zip_magic bytes → false ≡ true)
    → (StartsWith zip_empty_magic bytes → false ≡ true)
    → ¬ IsZip bytes
not-IsZip bytes z e (inl w) = false≢true (z w)
not-IsZip bytes z e (inr w) = false≢true (e w)

choose : Bool → Bool → Bool → Bool → ArchiveFormat
choose zip empty gz tar =
    if zip || empty
    then archive_zip
    else if gz
    then archive_tar_gz
    else if tar
    then archive_tar
    else archive_unknown

choose-Describes :
    (bytes : Text) (zip empty gz tar : Bool)
    → (zip ≡ true) ↔ StartsWith zip_magic bytes
    → (empty ≡ true) ↔ StartsWith zip_empty_magic bytes
    → (gz ≡ true) ↔ StartsWith gzip_magic bytes
    → (tar ≡ true) ↔ HasUstar bytes
    → Describes (choose zip empty gz tar) bytes
unfolding choose
choose-Describes bytes true empty gz tar z e g t = inl (z.0 refl)
choose-Describes bytes false true gz tar z e g t = inr (e.0 refl)
choose-Describes bytes false false true tar z e g t = g.0 refl
choose-Describes bytes false false false true z e g t =
    (t.0 refl, not-IsZip bytes z.1 e.1, λ w. false≢true (g.1 w))
choose-Describes bytes false false false false z e g t =
    (λ w. false≢true (t.1 w), not-IsZip bytes z.1 e.1, λ w. false≢true (g.1 w))

-- The format is told by the magic numbers of zip (also of an empty zip), of gzip, and by "ustar"
-- at offset 257, in this order; a file is unknown exactly if it has none of them.
pub sniff-Describes : (bytes : Text) → Describes (sniff_archive_format bytes) bytes
unfolding sniff_archive_format choose
sniff-Describes bytes =
    choose-Describes bytes _ _ _ _ (starts_iff bytes zip_magic (omega arith))
      (starts_iff bytes zip_empty_magic (omega arith)) (starts_iff bytes gzip_magic (omega arith))
      (ustar_iff bytes)
