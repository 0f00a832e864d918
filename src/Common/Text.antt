-- ===== src/Common/Text.antt =====
-- Steps of the regular expressions and of the string methods that the tools use on one line.
use Prim.Native.Char.{Char, code}
use Prim.Native.String.{String}
use mathlib.Core.Bool.{Bool, true, false}
use mathlib.Core.Option.{Option, none, some}
use golem_riscv_sim.Common.Tests.{◌==◌, if◌then◌else◌}

-- What follows a literal.
abbrev pub strip_prefix : String → String → Option String
strip_prefix String.[] s = some s
strip_prefix (String.◌∷◌ c p) String.[] = none
strip_prefix (String.◌∷◌ c p) (String.◌∷◌ d s) = if code c == code d then strip_prefix p s else none

-- The longest start of characters of one kind, and the rest.
abbrev pub span : (Char → Bool) → String → String × String
span kind String.[] = (String.[], String.[])
span kind (String.◌∷◌ c s) =
    let rest = span kind s in
    if kind c then (String.◌∷◌ c rest.0, rest.1) else (String.[], String.◌∷◌ c s)

abbrev pub is_blank : String → Bool
is_blank String.[] = true
is_blank _ = false

abbrev pub is_space : Char → Bool
is_space c = code c == 32
