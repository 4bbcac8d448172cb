-- ===== src/Strconv/Width.antt =====
-- How long the text of a number is.
use Prim.Native.Char.{len_utf8}
use Prim.Native.String.{len}
use kube_greencosts.Prelude.{
  ℕ, zero, suc, ◌+◌, ◌*◌, ◌/◌, ◌%◌, ◌≤◌, ◌<◌, String, ◌≡◌, refl, inl, inr, true, Bool-cases, arith,
  ltb,
}
use kube_greencosts.Prelude.Bytes.{len-nil, len-cons}
use kube_greencosts.Prelude.Int.{ℤ, pos, negsuc, neg_part, pos_part}
use kube_greencosts.Strconv.{digit_char, emit, format_nat, itoa}

-- 10 to a power, by which `omega` reads one multiplication at a time
abbrev pub ten_to : ℕ → ℕ
ten_to zero = 1
ten_to (suc k) = 10 * ten_to k

one_byte : (n : ℕ) → len_utf8 (digit_char n) ≡ 1
unfolding digit_char
one_byte zero = refl
one_byte (suc zero) = refl
one_byte (suc (suc zero)) = refl
one_byte (suc (suc (suc zero))) = refl
one_byte (suc (suc (suc (suc zero)))) = refl
one_byte (suc (suc (suc (suc (suc zero))))) = refl
one_byte (suc (suc (suc (suc (suc (suc zero)))))) = refl
one_byte (suc (suc (suc (suc (suc (suc (suc zero))))))) = refl
one_byte (suc (suc (suc (suc (suc (suc (suc (suc zero)))))))) = refl
one_byte (suc (suc (suc (suc (suc (suc (suc (suc (suc n))))))))) = refl

len-digit : (n : ℕ) (out : String) → len (String.◌∷◌ (digit_char n) out) ≡ 1 + len out
len-digit n out = rw (len-cons (digit_char n) out, one_byte n)

len-emit : (f n k : ℕ) (out : String) → n < ten_to (suc k) → len (emit f n out) ≤ suc k + len out
unfolding emit
len-emit zero n k out h = omega arith
len-emit (suc f) n zero out h =
    let small : ltb n 10 ≡ true = ground arith in rw small (omega (arith, len-digit n out))
len-emit (suc f) n (suc k) out h = elim (Bool-cases (ltb n 10)) [
  | inl small ↦ rw small (omega (arith, len-digit n out))
  | inr large ↦ rw large (
      omega (
        arith,
        len-emit f (n / 10) k (String.◌∷◌ (digit_char (n % 10)) out) (omega (arith, h)),
        len-digit (n % 10) out,
      ))
]

-- The text of a number below a power of ten has no more digits than that, and a sign.
pub len-itoa :
    (z : ℤ) (k : ℕ)
    → pos_part z < ten_to (suc k)
    → neg_part z < ten_to (suc k)
    → len (itoa z) ≤ suc (suc k)
unfolding itoa format_nat
len-itoa (pos n) k p q = omega (arith, len-emit (suc n) n k "" p, len-nil)
len-itoa (negsuc n) k p q =
    rw (len-cons "-" (format_nat (suc n)))
      (omega (arith, len-emit (suc (suc n)) (suc n) k "" q, len-nil))
