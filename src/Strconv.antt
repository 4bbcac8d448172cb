-- ===== src/Strconv.antt =====
-- What the controllers use of Go's `strconv`: `Itoa` and `Atoi`, on 64-bit integers.
pub mod RoundTrip
pub mod Width
use Prim.Native.Char.{Char, code}
use Prim.Native.String
use kube_greencosts.Prelude.{
  ℕ, zero, suc, ◌+◌, ◌-◌, ◌*◌, ◌/◌, ◌%◌, ◌^◌, String, ◌≡◌, refl, ◌||◌, Option, none, some, ltb,
  nat_eq, if◌then◌else◌,
}
use kube_greencosts.Prelude.Int.{ℤ, pos, negsuc}

digit_char : ℕ → Char
digit_char zero = "0"
digit_char (suc zero) = "1"
digit_char (suc (suc zero)) = "2"
digit_char (suc (suc (suc zero))) = "3"
digit_char (suc (suc (suc (suc zero)))) = "4"
digit_char (suc (suc (suc (suc (suc zero))))) = "5"
digit_char (suc (suc (suc (suc (suc (suc zero)))))) = "6"
digit_char (suc (suc (suc (suc (suc (suc (suc zero))))))) = "7"
digit_char (suc (suc (suc (suc (suc (suc (suc (suc zero)))))))) = "8"
digit_char _ = "9"

-- The digits of `n` in front of `out`; each round divides by ten, so `suc n` rounds are enough.
emit : ℕ → ℕ → String → String
unfolding digit_char
emit zero n out = out
emit (suc f) n out =
    let last = String.◌∷◌ (digit_char n) out in
    let rest = emit f (n / 10) (String.◌∷◌ (digit_char (n % 10)) out) in
    if ltb n 10 then last else rest

format_nat : ℕ → String
unfolding emit
format_nat n = emit (suc n) n ""

-- `strconv.Itoa`
unfoldable pub itoa : ℤ → String
unfolding format_nat
itoa (pos n) = format_nat n
itoa (negsuc n) = String.◌∷◌ "-" (format_nat (suc n))

-- Reads decimal digits up to the end of the text.
scan : String → ℕ → Option ℕ
scan String.[] n = some n
scan (String.◌∷◌ c s) n =
    let d = code c in
    let rest = scan s (n * 10 + (d - b'0')) in if ltb d b'0' || ltb b'9' d then none else rest

digits : String → Option ℕ
unfolding scan
digits String.[] = none
digits (String.◌∷◌ c s) = scan (String.◌∷◌ c s) 0

abbrev in_range : Option ℕ → Option ℤ
in_range none = none
in_range (some n) = if ltb n (2 ^ 63) then some (pos n) else none

-- the negative of the digits read; `-2 ^ 63` is in range
abbrev negated : Option ℕ → Option ℤ
negated none = none
negated (some zero) = some (pos 0)
negated (some (suc n)) = if ltb n (2 ^ 63) then some (negsuc n) else none

-- `strconv.Atoi`: an optional sign, at least one digit, and a value that fits 64 bits
unfoldable pub atoi : String → Option ℤ
unfolding digits
atoi String.[] = none
atoi (String.◌∷◌ c s) =
    if nat_eq (code c) b'-'
    then negated (digits s)
    else if nat_eq (code c) b'+'
    then in_range (digits s)
    else in_range (digits (String.◌∷◌ c s))

itoa_runs : itoa (negsuc 41) ≡ "-42"
unfolding itoa
itoa_runs = refl

atoi_runs :
    (atoi "007" ≡ some (pos 7))
    × (atoi "+12" ≡ some (pos 12))
    × (atoi "1x" ≡ none)
    × (atoi "9223372036854775808" ≡ none)
unfolding atoi
atoi_runs = (refl, refl, refl, refl)
