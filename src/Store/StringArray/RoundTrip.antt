-- ===== src/Store/StringArray/RoundTrip.antt =====
-- internal/store/api_key_scopes.go: Scan reads back what Value wrote.
use tileserve_go.Prelude.{
  ℕ, Bool, true, false, ◌||◌, Option, none, some, List, [], ◌∷◌, ◌++◌, Text, ◌==◌, nat_eq, text_eq,
  append-nil, append_assoc, ◌≡◌, refl, ap, ◌∙◌, arith, Bool-cases, inl, inr,
}
use tileserve_go.Store.StringArray.{
  Scanner, scan_rune, scan_runes, trim_close, trim_open, scanned, scan_elements, scan, escape,
  quote, write_elements, value,
}

abbrev reading : List Text → Text → Bool → Scanner
reading out cur quoted = record { out = out; cur = cur; quoted = quoted; escaped = false }

scan_runes-append :
    (s t : Text) (st : Scanner) → scan_runes (s ++ t) st ≡ scan_runes t (scan_runes s st)
unfolding scan_runes
scan_runes-append [] t st = refl
scan_runes-append (c ∷ s) t st = scan_runes-append s t (scan_rune c st)

plain_rune :
    (r : ℕ) (out : List Text) (cur : Text)
    → (r == b'"' || r == b'\\') ≡ false
    → scan_rune r (reading out cur true) ≡ reading out (cur ++ r ∷ []) true
unfolding scan_rune
plain_rune r out cur h = ground arith

longer :
    (r : ℕ) (s : Text) (out : List Text) (cur : Text)
    → reading out (cur ++ r ∷ [] ++ s) true ≡ reading out (cur ++ r ∷ s) true
longer r s out cur = ap (λ c. reading out c true) (append_assoc cur (r ∷ []) s)

scan_runes-escape :
    (s : Text) (out : List Text) (cur : Text)
    → scan_runes (escape s) (reading out cur true) ≡ reading out (cur ++ s) true
unfolding scan_runes escape
scan_runes-escape [] out cur = rw (append-nil cur) refl
scan_runes-escape (r ∷ s) out cur = elim (Bool-cases (r == b'"' || r == b'\\')) [
  | inl special ↦ rw special (
      ap (scan_runes (escape s)) (unfold scan_rune in refl)
      ∙ scan_runes-escape s out (cur ++ r ∷ [])
      ∙ longer r s out cur)
  | inr plain ↦ rw plain (
      ap (scan_runes (escape s)) (plain_rune r out cur plain)
      ∙ scan_runes-escape s out (cur ++ r ∷ [])
      ∙ longer r s out cur)
]

scan_runes-quote :
    (s : Text) (out : List Text) → scan_runes (quote s) (reading out [] false) ≡ reading out s false
unfolding quote scan_runes scan_rune
scan_runes-quote s out =
    scan_runes-append (escape s) (b'"' ∷ []) (reading out [] true)
    ∙ ap (scan_runes (b'"' ∷ [])) (scan_runes-escape s out [])

scan_runes-write_elements :
    (s : Text) (ss : List Text) (out : List Text)
    → scanned (scan_runes (write_elements (s ∷ ss)) (reading out [] false)) ≡ out ++ s ∷ ss
unfolding write_elements scan_runes scan_rune
scan_runes-write_elements s [] out = ap scanned (scan_runes-quote s out)
scan_runes-write_elements s (t ∷ ts) out =
    ap scanned (
      scan_runes-append (quote s) (b',' ∷ write_elements (t ∷ ts)) (reading out [] false)
      ∙ ap (scan_runes (b',' ∷ write_elements (t ∷ ts))) (scan_runes-quote s out))
    ∙ scan_runes-write_elements t ts (out ++ s ∷ [])
    ∙ append_assoc out (s ∷ []) (t ∷ ts)

trim_close-append : (s : Text) → trim_close (s ++ b'}' ∷ []) ≡ s
unfolding trim_close
trim_close-append [] = refl
trim_close-append (c ∷ []) = refl
trim_close-append (c ∷ d ∷ s) = ap (λ t. c ∷ t) (trim_close-append (d ∷ s))

elements_of_write : (s : Text) (ss : List Text) → scan_elements (write_elements (s ∷ ss)) ≡ s ∷ ss
unfolding scan_elements write_elements
elements_of_write s [] = scan_runes-write_elements s [] []
elements_of_write s (t ∷ ts) = scan_runes-write_elements s (t ∷ ts) []

-- Scan undoes Value on every slice, nil included.
pub scan-value : (a : Option (List Text)) → scan (value a) ≡ a
unfolding scan value trim_open
scan-value none = refl
scan-value (some []) = unfold write_elements trim_close scan_elements in refl
scan-value (some (s ∷ ss)) =
    ap (λ t. some (scan_elements (trim_open t)))
      (trim_close-append (b'{' ∷ write_elements (s ∷ ss)))
    ∙ ap some (elements_of_write s ss)
