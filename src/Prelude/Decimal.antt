-- ===== src/Prelude/Decimal.antt =====
-- Go's strconv.Itoa on non-negative numbers and strconv.Atoi, for 64-bit integers.
use Prim.Native.Nat.{ℕ, zero, suc, ◌+◌, ◌-◌, ◌*◌, ◌/◌, ◌%◌, ◌^◌, ◌<◌, ◌≤◌}
use mathlib.Core.Path.{◌≡◌, refl, ◌∙◌}
use mathlib.Core.Bool.{Bool, true, false}
use mathlib.Core.Logic.{inl, inr}
use mathlib.Core.Option.{Option, none, some}
use mathlib.Core.List.{[], ◌∷◌}
use native.Mathlib.Omega.{arith}
use tileserve_go.Prelude.Tests.{if◌then◌else◌, ltb, leb, nat_beq, le→leb, Bool-cases}
use tileserve_go.Prelude.Equality.{Text, ◌==◌, nat_eq}
use tileserve_go.Prelude.Strings.{is_digit}

-- Go's int: `negsuc n` is -(n + 1).
pub data ℤ : Type 0 where
  pos : ℕ → ℤ
  negsuc : ℕ → ℤ

abbrev pub less : ℤ → ℤ → Bool
less (pos a) (pos b) = ltb a b
less (pos a) (negsuc b) = false
less (negsuc a) (pos b) = true
less (negsuc a) (negsuc b) = ltb b a

pub less_asym : (a b : ℤ) → less a b ≡ true → less b a ≡ false
less_asym (pos a) (pos b) h = ground arith
less_asym (pos a) (negsuc b) h = ground arith
less_asym (negsuc a) (pos b) h = ground arith
less_asym (negsuc a) (negsuc b) h = ground arith

pub less_antisym : (a b : ℤ) → less a b ≡ false → less b a ≡ false → a ≡ b
less_antisym (pos a) (pos b) h k = ground arith
less_antisym (pos a) (negsuc b) h k = ground arith
less_antisym (negsuc a) (pos b) h k = ground arith
less_antisym (negsuc a) (negsuc b) h k = ground arith

digits_of : ℕ → ℕ → Text → Text
digits_of zero n acc = acc
digits_of (suc fuel) n acc =
    let rest = digits_of fuel (n / 10) ((b'0' + n % 10) ∷ acc) in
    if ltb n 10 then (b'0' + n) ∷ acc else rest

-- strconv.Itoa; the quotients by ten reach one digit within `n` divisions
unfoldable pub itoa : ℕ → Text
unfolding digits_of
itoa n = digits_of (suc n) n []

unfoldable pub parse_digits : ℕ → Text → Option ℕ
parse_digits acc [] = some acc
parse_digits acc (c ∷ s) =
    let rest = parse_digits (acc * 10 + (c - b'0')) s in if is_digit c then rest else none

abbrev pub max_int : ℕ
max_int = 2 ^ 63 - 1

-- The magnitude against the range of int64.
abbrev ranged : Bool → Option ℕ → Option ℤ
ranged negative none = none
ranged false (some n) = if leb n max_int then some (pos n) else none
ranged true (some zero) = some (pos 0)
ranged true (some (suc n)) = if leb n max_int then some (negsuc n) else none

abbrev unsigned : Bool → Text → Option ℤ
unsigned negative [] = none
unsigned negative (c ∷ s) = ranged negative (parse_digits 0 (c ∷ s))

-- strconv.Atoi: an optional sign and one or more digits, none if the number is out of range
unfoldable pub atoi : Text → Option ℤ
unfolding parse_digits
atoi [] = none
atoi (c ∷ s) =
    if c == b'-'
    then unsigned true s
    else if c == b'+'
    then unsigned false s
    else unsigned false (c ∷ s)

parse-digits_of :
    (fuel n : ℕ) (acc : Text)
    → n < fuel
    → parse_digits 0 (digits_of fuel n acc) ≡ parse_digits n acc
unfolding digits_of
parse-digits_of zero n acc h = absurd (omega arith)
parse-digits_of (suc fuel) n acc h = elim (Bool-cases (ltb n 10)) [
  | inl small ↦ rw small (unfold parse_digits in ground arith)
  | inr large ↦ rw large (
      parse-digits_of fuel (n / 10) ((b'0' + n % 10) ∷ acc) (ground arith)
      ∙ (unfold parse_digits in ground arith))
]

starts_with_digit : Text → Bool
starts_with_digit [] = false
starts_with_digit (c ∷ s) = is_digit c

digits_of-starts :
    (fuel n : ℕ) (acc : Text) → n < fuel → starts_with_digit (digits_of fuel n acc) ≡ true
unfolding digits_of starts_with_digit
digits_of-starts zero n acc h = absurd (omega arith)
digits_of-starts (suc fuel) n acc h = elim (Bool-cases (ltb n 10)) [
  | inl small ↦ rw small (ground arith)
  | inr large ↦ rw large (digits_of-starts fuel (n / 10) ((b'0' + n % 10) ∷ acc) (ground arith))
]

digit-not_sign : (c : ℕ) → is_digit c ≡ true → (nat_beq c b'-' ≡ false) × (nat_beq c b'+' ≡ false)
digit-not_sign c d = (ground arith, ground arith)

atoi_of_digits :
    (s : Text) (n : ℕ)
    → starts_with_digit s ≡ true
    → parse_digits 0 s ≡ some n
    → n ≤ max_int
    → atoi s ≡ some (pos n)
unfolding atoi starts_with_digit
atoi_of_digits [] n d e h = absurd (ground arith)
atoi_of_digits (c ∷ s) n d e h =
    rw ((digit-not_sign c d).0, (digit-not_sign c d).1, e, le→leb n max_int h) refl

pub parse-itoa : (n : ℕ) → parse_digits 0 (itoa n) ≡ some n
unfolding itoa
parse-itoa n = parse-digits_of (suc n) n [] (omega arith) ∙ (unfold parse_digits in refl)

-- The text of a number in range reads as that number.
pub atoi-itoa : (n : ℕ) → n ≤ max_int → atoi (itoa n) ≡ some (pos n)
unfolding itoa
atoi-itoa n h =
    atoi_of_digits (digits_of (suc n) n []) n (digits_of-starts (suc n) n [] (omega arith))
      (parse-digits_of (suc n) n [] (omega arith) ∙ (unfold parse_digits in refl)) h
