-- ===== src/Strconv/RoundTrip.antt =====
-- `Atoi` reads back what `Itoa` writes.
use Prim.Native.Char.{Char, code}
use Prim.Native.String.compare
use text.Mathlib.Text.{is_eq}
use kube_greencosts.Prelude.{
  ℕ, zero, suc, ◌+◌, ◌*◌, ◌/◌, ◌%◌, ◌^◌, ◌≤◌, ◌<◌, String, ◌≡◌, refl, ◌∙◌, ap, some, arith, inl,
  inr, Bool-cases, false, ◌==◌, ltb, ltb→lt,
}
use kube_greencosts.Prelude.Int.{ℤ, pos, negsuc}
use kube_greencosts.Strconv.{digit_char, emit, format_nat, itoa, scan, in_range, atoi}

-- The character of a digit reads as that digit.
code-digit_char : (d : ℕ) → d < 10 → code (digit_char d) ≡ b'0' + d
unfolding digit_char
code-digit_char zero h = refl
code-digit_char (suc zero) h = refl
code-digit_char (suc (suc zero)) h = refl
code-digit_char (suc (suc (suc zero))) h = refl
code-digit_char (suc (suc (suc (suc zero)))) h = refl
code-digit_char (suc (suc (suc (suc (suc zero))))) h = refl
code-digit_char (suc (suc (suc (suc (suc (suc zero)))))) h = refl
code-digit_char (suc (suc (suc (suc (suc (suc (suc zero))))))) h = refl
code-digit_char (suc (suc (suc (suc (suc (suc (suc (suc zero)))))))) h = refl
code-digit_char (suc (suc (suc (suc (suc (suc (suc (suc (suc zero))))))))) h = refl
code-digit_char (suc (suc (suc (suc (suc (suc (suc (suc (suc (suc n)))))))))) h =
    absurd (omega arith)

scan-digit :
    (d n : ℕ) (s : String) → d < 10 → scan (String.◌∷◌ (digit_char d) s) n ≡ scan s (n * 10 + d)
unfolding scan
scan-digit d n s h = ground (arith, code-digit_char d h)

-- Reading on after the digits of `n` is reading on from `n`.
scan-emit : (f n : ℕ) (out : String) → n < f → scan (emit f n out) 0 ≡ scan out n
unfolding emit
scan-emit zero n out h = absurd (omega arith)
scan-emit (suc f) n out h = elim (Bool-cases (ltb n 10)) [
  | inl small ↦ rw small (scan-digit n 0 out (ltb→lt n 10 small) ∙ ap (scan out) (omega arith))
  | inr large ↦ rw large (
      scan-emit f (n / 10) (String.◌∷◌ (digit_char (n % 10)) out) (ground arith)
      ∙ scan-digit (n % 10) (n / 10) out (omega arith)
      ∙ ap (scan out) (omega arith))
]

scan-format_nat : (n : ℕ) → scan (format_nat n) 0 ≡ some n
unfolding format_nat scan
scan-format_nat n = scan-emit (suc n) n "" (omega arith)

-- What is written begins with a digit.
emit-head :
    (f n : ℕ) (out : String)
    → n < f
    → (c : Char) × (s : String) × (emit f n out ≡ String.◌∷◌ c s) × (b'0' ≤ code c)
unfolding emit
emit-head zero n out h = absurd (omega arith)
emit-head (suc f) n out h = elim (Bool-cases (ltb n 10)) [
  | inl small ↦ (digit_char n, out, rw small, omega (arith, code-digit_char n (ltb→lt n 10 small)))
  | inr large ↦
      rw large (emit-head f (n / 10) (String.◌∷◌ (digit_char (n % 10)) out) (ground arith))
]

atoi-cons :
    (c : Char) (s : String)
    → b'0' ≤ code c
    → atoi (String.◌∷◌ c s) ≡ in_range (scan (String.◌∷◌ c s) 0)
unfolding atoi
atoi-cons c s h = ground arith

-- Every 64-bit number that is not negative is read back from its decimal text.
pub atoi-itoa : (n : ℕ) → n < 2 ^ 63 → atoi (itoa (pos n)) ≡ some (pos n)
unfolding itoa format_nat
atoi-itoa n h =
    let (c, s, e, d) = emit-head (suc n) n "" (omega arith) in
    rw e (atoi-cons c s d ∙ ap in_range (rw e at (scan-format_nat n)) ∙ fits)
  where
    fits : in_range (some n) ≡ some (pos n)
    fits = ground arith

cons-ne-empty : (c : Char) (s : String) → (String.◌∷◌ c s == "") ≡ false
cons-ne-empty c s i = is_eq (compare.cons-nil c s i)

-- No number is written as the empty text, which a missing annotation reads as.
pub itoa-ne-empty : (v : ℤ) → (itoa v == "") ≡ false
unfolding itoa format_nat
itoa-ne-empty (pos n) =
    let (c, s, e, d) = emit-head (suc n) n "" (omega arith) in rw e (cons-ne-empty c s)
itoa-ne-empty (negsuc n) = cons-ne-empty "-" (format_nat (suc n))
