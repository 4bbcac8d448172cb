-- ===== src/EnergyJob/Naming/Bounds.antt =====
-- The names and labels of the jobs fit the limit of Kubernetes.
use Prim.Native.Char.{Char}
use Prim.Native.String
use Prim.Native.String.{len, slice}
use text.Mathlib.TextPositions.{len-append}
use kube_greencosts.Prelude.{
  ℕ, ◌+◌, ◌-◌, ◌*◌, ◌≤◌, ◌<◌, String, ◌≡◌, refl, inl, inr, Bool, ◌&&◌, Bool-cases, arith, leb,
  leb→le, ◌==◌,
}
use kube_greencosts.Prelude.Bytes.{len-nil, len-cons, len-slice}
use kube_greencosts.Prelude.Int.{pos_part, neg_part}
use kube_greencosts.Hpa.{short_hash}
use kube_greencosts.Strconv.{itoa}
use kube_greencosts.Strconv.Width.{ten_to, len-itoa}
use kube_greencosts.EnergyJob.Naming.{
  trim_right, trim_left, is_dash, is_dash_or_dot, is_label_separator, labelled, short_label_value,
  prefixed, shortened, short_object_name, unix, energy_aware_cron_job_name,
}
use kube_greencosts.Schedule.{second}

len-trim_right : (p : Char → Bool) (s : String) → len (trim_right p s) ≤ len s
unfolding trim_right
len-trim_right p String.[] = omega arith
len-trim_right p (String.◌∷◌ c s) = elim (Bool-cases (trim_right p s == "" && p c)) [
  | inl empty ↦ rw empty (omega (arith, len-nil))
  | inr kept ↦
      rw kept (omega (arith, len-trim_right p s, len-cons c s, len-cons c (trim_right p s)))
]

len-trim_left : (p : Char → Bool) (s : String) → len (trim_left p s) ≤ len s
unfolding trim_left
len-trim_left p String.[] = omega arith
len-trim_left p (String.◌∷◌ c s) = elim (Bool-cases (p c)) [
  | inl dropped ↦ rw dropped (omega (arith, len-trim_left p s, len-cons c s))
  | inr kept ↦ rw kept (omega arith)
]

len-dash : (s : String) → len (String.◌++◌ "-" s) ≡ 1 + len s
len-dash s = omega (arith, len-append "-" s, dash)
  where
    dash : len "-" ≡ 1
    dash = refl

module _ (sha256_hex : String → String) where
  len-short_hash : (s : String) → len (short_hash sha256_hex s) ≤ 10
  unfolding short_hash
  len-short_hash s = len-slice _ 10

  len-labelled :
      (prefix hash : String)
      → len hash ≤ 10
      → len prefix + (1 + len hash) ≤ 63
      → len (labelled sha256_hex prefix hash) ≤ 63
  len-labelled prefix hash h fits = elim (Bool-cases (prefix == "")) [
    | inl empty ↦ rw empty (omega arith)
    | inr there ↦ rw there (omega (arith, len-append prefix (String.◌++◌ "-" hash), len-dash hash))
  ]

  len-short_label_value : (value : String) → len (short_label_value sha256_hex value) ≤ 63
  unfolding short_label_value
  len-short_label_value value = elim (Bool-cases (leb (len value) 63)) [
    | inl short ↦ rw short (leb→le (len value) 63 short)
    | inr long ↦ rw long (
        let hash = short_hash sha256_hex value in
        let bound = 63 - len (String.◌++◌ "-" hash) in
        len-labelled _ hash (len-short_hash value) (
          omega (
            arith,
            len-trim_right is_label_separator (slice value 0 bound),
            len-slice value bound,
            len-short_hash value,
            len-dash hash,
          )))
  ]

  len-prefixed :
      (prefix hash_suffix : String)
      → len prefix + len hash_suffix ≤ 63
      → len (prefixed sha256_hex prefix hash_suffix) ≤ 63
  len-prefixed prefix hash_suffix fits = elim (Bool-cases (prefix == "")) [
    | inl empty ↦ rw empty (omega (arith, len-trim_left is_dash hash_suffix))
    | inr there ↦ rw there (omega (arith, len-append prefix hash_suffix))
  ]

  len-shortened :
      (prefix hash_suffix : String)
      → len hash_suffix ≤ 63
      → len (shortened sha256_hex prefix hash_suffix) ≤ 63
  len-shortened prefix hash_suffix h = elim (Bool-cases (leb 63 (len hash_suffix))) [
    | inl full ↦ rw full (omega (arith, len-trim_left is_dash hash_suffix))
    | inr room ↦ rw room (
        let bound = 63 - len hash_suffix in
        len-prefixed _ hash_suffix (
          omega
            (arith, len-trim_right is_dash_or_dot (slice prefix 0 bound), len-slice prefix bound)))
  ]

  len-short_object_name :
      (prefix stable_input suffix : String)
      → len suffix ≤ 52
      → len (short_object_name sha256_hex prefix stable_input suffix) ≤ 63
  unfolding short_object_name
  len-short_object_name prefix stable_input suffix h =
      elim (Bool-cases (leb (len (String.◌++◌ prefix suffix)) 63)) [
        | inl short ↦ rw short (leb→le (len (String.◌++◌ prefix suffix)) 63 short)
        | inr long ↦ rw long (
            let hash = short_hash sha256_hex stable_input in
            len-shortened prefix _ (
              omega (
                arith,
                len-dash (String.◌++◌ hash suffix),
                len-append hash suffix,
                len-short_hash stable_input,
              )))
      ]

  -- Whatever the name of the EnergyAwareCronJob, the owner label and the name of a job have at most 63
  -- bytes, where the job is scheduled in the first ten to the nineteenth seconds of the calendar.
  pub names_fit :
      (name : String) (scheduled_at : ℕ)
      → scheduled_at < 10000000000000000000 * second
      → (len (short_label_value sha256_hex name) ≤ 63)
        × (len (energy_aware_cron_job_name sha256_hex name scheduled_at) ≤ 63)
  unfolding energy_aware_cron_job_name
  names_fit name scheduled_at early =
      (len-short_label_value name, len-short_object_name name name _ suffix)
    where
      low : pos_part (unix scheduled_at) < ten_to 19
      low = ground (arith, early)

      high : neg_part (unix scheduled_at) < ten_to 19
      high = ground arith

      suffix : len (String.◌++◌ "-" (itoa (unix scheduled_at))) ≤ 52
      suffix =
          omega
            (arith, len-dash (itoa (unix scheduled_at)), len-itoa (unix scheduled_at) 18 low high)
