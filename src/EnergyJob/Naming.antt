-- ===== src/EnergyJob/Naming.antt =====
-- The names and labels of the jobs (internal/controller/helpers.go: shortLabelValue,
-- shortObjectName). A length and a cut count bytes, as in Go; names are ASCII.
pub mod Bounds
use Prim.Native.Char.{Char, code}
use Prim.Native.String
use Prim.Native.String.{len, slice}
use kube_greencosts.Prelude.{
  ℕ, ◌+◌, ◌-◌, ◌/◌, String, ◌≡◌, refl, Bool, true, false, ◌&&◌, ◌||◌, leb, nat_eq, ◌==◌,
  if◌then◌else◌,
}
use kube_greencosts.Prelude.Int.{ℤ, sub_ℕ}
use kube_greencosts.Hpa.{short_hash}
use kube_greencosts.Schedule.{second}
use kube_greencosts.Strconv.{itoa}

abbrev pub max_kubernetes_label_length : ℕ
max_kubernetes_label_length = 63

-- `strings.TrimRight`, whose characters are given by a test
unfoldable pub trim_right : (Char → Bool) → String → String
trim_right p String.[] = ""
trim_right p (String.◌∷◌ c s) =
    let rest = trim_right p s in if rest == "" && p c then "" else String.◌∷◌ c rest

-- `strings.TrimLeft`
unfoldable pub trim_left : (Char → Bool) → String → String
trim_left p String.[] = ""
trim_left p (String.◌∷◌ c s) = let rest = trim_left p s in if p c then rest else String.◌∷◌ c s

abbrev pub is_dash : Char → Bool
is_dash c = nat_eq (code c) b'-'

abbrev pub is_dash_or_dot : Char → Bool
is_dash_or_dot c = nat_eq (code c) b'-' || nat_eq (code c) b'.'

abbrev pub is_label_separator : Char → Bool
is_label_separator c = nat_eq (code c) b'-' || nat_eq (code c) b'_' || nat_eq (code c) b'.'

module _ (sha256_hex : String → String) where
  -- what follows the trim of the prefix
  abbrev pub labelled : String → String → String
  labelled prefix hash = if prefix == "" then hash else String.◌++◌ prefix (String.◌++◌ "-" hash)

  -- `shortLabelValue`
  unfoldable pub short_label_value : String → String
  short_label_value value =
      if leb (len value) max_kubernetes_label_length
      then value
      else let hash = short_hash sha256_hex value in
        let prefix_len = max_kubernetes_label_length - len (String.◌++◌ "-" hash) in
        labelled (trim_right is_label_separator (slice value 0 prefix_len)) hash

  -- the two returns after the prefix is trimmed
  abbrev pub prefixed : String → String → String
  prefixed short_prefix hash_suffix =
      if short_prefix == ""
      then trim_left is_dash hash_suffix
      else String.◌++◌ short_prefix hash_suffix

  -- with the suffix that holds the hash
  abbrev pub shortened : String → String → String
  shortened prefix hash_suffix =
      if leb max_kubernetes_label_length (len hash_suffix)
      then trim_left is_dash hash_suffix
      else prefixed
          (trim_right is_dash_or_dot
            (slice prefix 0 (max_kubernetes_label_length - len hash_suffix)))
          hash_suffix

  -- `shortObjectName`
  unfoldable pub short_object_name : String → String → String → String
  short_object_name prefix stable_input suffix =
      let name = String.◌++◌ prefix suffix in
      if leb (len name) max_kubernetes_label_length
      then name
      else shortened prefix
          (String.◌++◌ "-" (String.◌++◌ (short_hash sha256_hex stable_input) suffix))

  -- `energyAwareCronJobOwnerLabelValue`
  abbrev pub owner_label_value : String → String
  owner_label_value name = short_label_value name

-- the seconds from Go's zero time to 1970
abbrev pub unix_epoch : ℕ
unix_epoch = 62135596800

-- `time.Time.Unix`
abbrev pub unix : ℕ → ℤ
unix t = sub_ℕ (t / second) unix_epoch

-- `energyAwareCronJobName`
unfoldable pub energy_aware_cron_job_name : (String → String) → String → ℕ → String
energy_aware_cron_job_name sha256_hex name scheduled_at =
    short_object_name sha256_hex name name (String.◌++◌ "-" (itoa (unix scheduled_at)))

name_runs : energy_aware_cron_job_name (λ s. s) "bake" 63903254400000000000 ≡ "bake-1767657600"
unfolding energy_aware_cron_job_name short_object_name itoa
name_runs = refl
