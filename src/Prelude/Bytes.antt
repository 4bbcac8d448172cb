-- ===== src/Prelude/Bytes.antt =====
-- The bytes of texts: the clauses of `len` and `slice` as equations.
use Prim.Native.Char.{Char, len_utf8}
use Prim.Native.String
use Prim.Native.String.len
use Prim.Native.String.slice as cuts
use Prim.Native.String.{String, slice as cut, fits}
use Prim.Native.Nat.{ℕ, ◌+◌, ◌-◌, ◌≤◌, compare, Ordering}
use mathlib.Core.Path.{◌≡◌, refl}
use mathlib.Core.Logic.{◌≢◌}
use native.Mathlib.Omega.{arith}

pub len-nil : String.len String.[] ≡ 0
len-nil = λ i. len.nil i

pub len-cons : (c : Char) (s : String) → String.len (String.◌∷◌ c s) ≡ len_utf8 c + String.len s
len-cons c s = λ i. len.cons c s i

slice-nil : (k : ℕ) → cut String.[] 0 k ≡ String.[]
slice-nil k = λ i. cuts.nil 0 k i

slice-cons :
    (c : Char) (s : String) (k : ℕ)
    → cut (String.◌∷◌ c s) 0 k ≡ fits (compare (len_utf8 c) k) c (cut s 0 (k - len_utf8 c))
slice-cons c s k = λ i. cuts.cons-zero c s k i

fits_bound : (w k n : ℕ) (o : Ordering) → compare w k ≡ o → n ≤ k - w → o ≢ Ordering.gt → w + n ≤ k
fits_bound w k n Ordering.lt e h _ = ground arith
fits_bound w k n Ordering.eq e h _ = ground arith
fits_bound w k n Ordering.gt e h apart = absurd (apart refl)

len-fits :
    (c : Char) (s : String) (k : ℕ) (o : Ordering)
    → compare (len_utf8 c) k ≡ o
    → String.len s ≤ k - len_utf8 c
    → String.len (fits o c s) ≤ k
len-fits c s k Ordering.lt e h =
    rw (len-cons c s) (fits_bound (len_utf8 c) k (String.len s) Ordering.lt e h (λ x. cc))
len-fits c s k Ordering.eq e h =
    rw (len-cons c s) (fits_bound (len_utf8 c) k (String.len s) Ordering.eq e h (λ x. cc))
len-fits c s k Ordering.gt e h = rw len-nil (omega arith)

pub len-slice : (s : String) (k : ℕ) → String.len (cut s 0 k) ≤ k
len-slice String.[] k = rw (slice-nil k) (omega (arith, len-nil))
len-slice (String.◌∷◌ c s) k =
    rw (slice-cons c s k)
      (len-fits c (cut s 0 (k - len_utf8 c)) k _ refl (len-slice s (k - len_utf8 c)))
