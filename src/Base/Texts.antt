-- ===== src/Base/Texts.antt =====
-- Prefixes of texts: Go's strings.HasPrefix and strings.TrimPrefix.
use Prim.Native.Char.{code}
use Prim.Native.String.{String, ◌++◌}
use Prim.Native.String.append
use mathlib.Core.Path.{◌≡◌, refl}
use mathlib.Core.Bool.{Bool, true, false}
use mathlib.Core.Option.{Option, none, some}
use native.Mathlib.Omega.{arith}
use cledyu.Base.Tests.{◌==◌, if◌then◌else◌}

-- what is left of a text behind a prefix
abbrev pub after : String → String → Option String
after String.[] s = some s
after (String.◌∷◌ c p) String.[] = none
after (String.◌∷◌ c p) (String.◌∷◌ d s) = if code c == code d then after p s else none

abbrev pub has_prefix : String → String → Bool
has_prefix s p = elim (after p s) [ some _ ↦ true | none ↦ false ]

abbrev pub trim_prefix : String → String → String
trim_prefix s p = elim (after p s) [ some r ↦ r | none ↦ s ]

pub after-append : (p s : String) → after p (p ++ s) ≡ some s
after-append String.[] s = rw (append.nil s) refl
after-append (String.◌∷◌ c p) s = rw (append.cons c p s) (ground (arith, after-append p s))

pub trim_prefix-append : (p s : String) → trim_prefix (p ++ s) p ≡ s
trim_prefix-append p s = rw (after-append p s, trim_prefix) refl
