-- ===== src/Prelude/Text.antt =====
-- Go's `map[string]string`, as a function from keys.
use Prim.Native.String.{String}
use mathlib.Core.Option.{Option, none, some}
use text.Mathlib.Text.{◌==◌}
use mathlib.Core.Path.{◌≡◌, sym, ◌∙◌}
use mathlib.Core.Logic.{◌≢◌}
use mathlib.Core.Bool.{false}
use text.Mathlib.TextEquality.{eq_iff}
use kube_greencosts.Prelude.Tests.{if◌then◌else◌}

abbrev pub StringMap : Type 0
StringMap = String → Option String

abbrev pub or_empty : Option String → String
or_empty none = ""
or_empty (some v) = v

-- `m[k]`: the empty string where the key is missing
abbrev pub value_at : StringMap → String → String
value_at m k = or_empty (m k)

-- `m[k] = v`
abbrev pub put : StringMap → String → String → StringMap
put m k v j = if k == j then some v else m j

-- `delete(m, k)`
abbrev pub delete : StringMap → String → StringMap
delete m k j = if k == j then none else m j

-- Two texts that the test tells apart are different.
pub ne_text : (s s' : String) → (s == s') ≡ false → s ≢ s'
ne_text s s' h e = let clash = sym ((eq_iff s s').1 e) ∙ h in absurd (cc)
