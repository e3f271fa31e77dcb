-- ===== src/Store/StringArray.antt =====
-- internal/store/api_key_scopes.go: stringArray, a text[] column read and written as a literal.
pub mod RoundTrip
use tileserve_go.Prelude.{
  ℕ, Bool, true, false, not, ◌&&◌, ◌||◌, Option, none, some, List, [], ◌∷◌, ◌++◌, Text, codes, ◌==◌,
  nat_eq, text_eq, if◌then◌else◌,
}

-- The variables of the loop in Scan: the strings read (last first), the one being read, the flags.
pub record Scanner : Type 0 where
  pub out : List Text
  pub cur : Text
  pub quoted : Bool
  pub escaped : Bool

-- The body of the loop.
unfoldable pub scan_rune : ℕ → Scanner → Scanner
scan_rune r s =
    if s.escaped
    then record s { cur = s.cur ++ r ∷ []; escaped = false }
    else if r == b'\\' && s.quoted
    then record s { escaped = true }
    else if r == b'"'
    then record s { quoted = not s.quoted }
    else if r == b',' && not s.quoted
    then record s { out = s.out ++ s.cur ∷ []; cur = [] }
    else record s { cur = s.cur ++ r ∷ [] }

unfoldable pub scan_runes : Text → Scanner → Scanner
unfolding scan_rune
scan_runes [] s = s
scan_runes (r ∷ rs) s = scan_runes rs (scan_rune r s)

-- strings.TrimSuffix(s, "}")
unfoldable pub trim_close : Text → Text
trim_close [] = []
trim_close (c ∷ []) = if c == b'}' then [] else c ∷ []
trim_close (c ∷ d ∷ s) = c ∷ trim_close (d ∷ s)

-- strings.TrimPrefix(s, "{")
unfoldable pub trim_open : Text → Text
trim_open [] = []
trim_open (c ∷ s) = if c == b'{' then s else c ∷ s

abbrev pub scanned : Scanner → List Text
scanned s = s.out ++ s.cur ∷ []

-- The part of Scan behind the trims.
unfoldable pub scan_elements : Text → List Text
unfolding scan_runes
scan_elements [] = []
scan_elements (c ∷ s) =
    scanned (scan_runes (c ∷ s) (record { out = []; cur = []; quoted = false; escaped = false }))

-- Scan, of a string or of NULL; a nil slice is `none`
unfoldable pub scan : Option Text → Option (List Text)
unfolding scan_elements trim_close trim_open
scan none = none
scan (some s) = some (scan_elements (trim_open (trim_close s)))

-- The runes of one element, with a backslash before each quote and backslash.
unfoldable pub escape : Text → Text
escape [] = []
escape (r ∷ rs) =
    let rest = escape rs in if r == b'"' || r == b'\\' then b'\\' ∷ r ∷ rest else r ∷ rest

unfoldable pub quote : Text → Text
unfolding escape
quote s = b'"' ∷ escape s ++ b'"' ∷ []

unfoldable pub write_elements : List Text → Text
unfolding quote
write_elements [] = []
write_elements (s ∷ []) = quote s
write_elements (s ∷ t ∷ ts) = quote s ++ b',' ∷ write_elements (t ∷ ts)

-- Value
unfoldable pub value : Option (List Text) → Option Text
unfolding write_elements
value none = none
value (some a) = some (b'{' ∷ write_elements a ++ b'}' ∷ [])
