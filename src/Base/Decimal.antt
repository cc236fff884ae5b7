-- ===== src/Base/Decimal.antt =====
-- Decimal numbers: `to_string` and `parse` of the unsigned integers, with `parse` for `i32`.
use Prim.Native.Nat.{ℕ, zero, suc, ◌+◌, ◌-◌, ◌*◌, ◌/◌, ◌%◌, ◌<◌}
use mathlib.Core.Path.{◌≡◌, refl, ◌∙◌, ap}
use mathlib.Core.Logic.{inl, inr}
use mathlib.Core.Bool.{Bool, true, false, ◌&&◌}
use mathlib.Core.Option.{Option, none, some}
use mathlib.Core.List.{[], ◌∷◌, ◌++◌}
use native.Mathlib.Omega.{arith}
use qarax.Base.Tests.{if◌then◌else◌, leb, ltb, nat_beq, Bool-cases, ltb→lt}
use qarax.Base.Order.{Text}

abbrev pub is_digit : ℕ → Bool
is_digit c = leb b'0' c && leb c b'9'

print_fuel : ℕ → ℕ → Text
print_fuel zero n = []
print_fuel (suc fuel) n = elim (ltb n 10) [
  | true ↦ (b'0' + n) ∷ []
  | false ↦ print_fuel fuel (n / 10) ++ (b'0' + n % 10) ∷ []
]

-- `n.to_string()`
unfoldable pub to_string : ℕ → Text
unfolding print_fuel
to_string n = print_fuel (suc n) n

unfoldable pub parse_digits : ℕ → Text → Option ℕ
parse_digits acc [] = some acc
parse_digits acc (c ∷ cs) =
    let rest = parse_digits (acc * 10 + (c - b'0')) cs in if is_digit c then rest else none

-- At least one digit, and a value below the bound of the type.
abbrev pub below : ℕ → Option ℕ → Option ℕ
below bound none = none
below bound (some n) = if ltb n bound then some n else none

abbrev pub parse_nonempty : ℕ → Text → Option ℕ
parse_nonempty bound [] = none
parse_nonempty bound (c ∷ cs) = below bound (parse_digits 0 (c ∷ cs))

-- `s.parse()` for an unsigned type with `bound` values: one leading `+` is allowed.
unfoldable pub parse_unsigned : ℕ → Text → Option ℕ
parse_unsigned bound [] = none
parse_unsigned bound (c ∷ cs) =
    if nat_beq c b'+' then parse_nonempty bound cs else parse_nonempty bound (c ∷ cs)

digit_parses : (d : ℕ) → d < 10 → is_digit (b'0' + d) ≡ true
digit_parses d h = ground arith

parse_digits-append :
    (acc d : ℕ) (s : Text) {n : ℕ}
    → d < 10
    → parse_digits acc s ≡ some n
    → parse_digits acc (s ++ (b'0' + d) ∷ []) ≡ some (n * 10 + d)
unfolding parse_digits
parse_digits-append acc d [] h e = ground arith
parse_digits-append acc d (c ∷ cs) {n} h e =
    ground (arith, parse_digits-append (acc * 10 + (c - b'0')) d cs {n = n} h)

parse_digits-nil : parse_digits 0 [] ≡ some 0
unfolding parse_digits
parse_digits-nil = refl

parse-print_fuel : (fuel n : ℕ) → n < fuel → parse_digits 0 (print_fuel fuel n) ≡ some n
unfolding print_fuel
parse-print_fuel zero n h = absurd (omega arith)
parse-print_fuel (suc fuel) n h = elim (Bool-cases (ltb n 10)) [
  | inl t ↦
      rw (t, print_fuel)
        (parse_digits-append 0 n [] {n = 0} (ltb→lt n 10 t) parse_digits-nil
          ∙ ap some (omega arith))
  | inr f ↦
      rw (f, print_fuel)
        (parse_digits-append 0 (n % 10) (print_fuel fuel (n / 10)) (omega arith)
            (parse-print_fuel fuel (n / 10) (ground arith))
          ∙ ap some (omega arith))
]

-- Parsing inverts printing.
pub parse_digits-to_string : (n : ℕ) → parse_digits 0 (to_string n) ≡ some n
unfolding to_string
parse_digits-to_string n = parse-print_fuel (suc n) n (omega arith)

pub to_string-injective : (m n : ℕ) → to_string m ≡ to_string n → m ≡ n
to_string-injective m n e =
    let p = ap (parse_digits 0) e in cc (p, parse_digits-to_string m, parse_digits-to_string n)

abbrev pub all_digits : Text → Bool
all_digits [] = true
all_digits (c ∷ cs) = is_digit c && all_digits cs

all_digits-append :
    (s : Text) (d : ℕ) → d < 10 → all_digits s ≡ true → all_digits (s ++ (b'0' + d) ∷ []) ≡ true
all_digits-append [] d h e = ground arith
all_digits-append (c ∷ cs) d h e = ground (arith, all_digits-append cs d h)

print_fuel-all_digits : (fuel n : ℕ) → all_digits (print_fuel fuel n) ≡ true
unfolding print_fuel
print_fuel-all_digits zero n = refl
print_fuel-all_digits (suc fuel) n = elim (Bool-cases (ltb n 10)) [
  | inl t ↦ rw (t, print_fuel) (all_digits-append [] n (ltb→lt n 10 t) refl)
  | inr f ↦
      rw (f, print_fuel)
        (all_digits-append (print_fuel fuel (n / 10)) (n % 10) (omega arith)
          (print_fuel-all_digits fuel (n / 10)))
]

pub to_string-all_digits : (n : ℕ) → all_digits (to_string n) ≡ true
unfolding to_string
to_string-all_digits n = print_fuel-all_digits (suc n) n
