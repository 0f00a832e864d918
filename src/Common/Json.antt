-- ===== src/Common/Json.antt =====
-- Values as `json.loads` returns them: an object is a list of its members in order. A number with a
-- fraction or an exponent is a float, given by the integer that it equals, if there is one.
use Prim.Native.Nat.{ℕ}
use Prim.Native.String.{String}
use mathlib.Core.Bool.{Bool, true, false}
use mathlib.Core.Option.{Option, none, some}
use text.Mathlib.Text.{◌==◌ as str_eq}
use golem_riscv_sim.Common.Tests.{if◌then◌else◌}
use golem_riscv_sim.Common.Int.{ℤ, pos, eq_ℤ}

mutual
  pub data Json : Type 0 where
    null : Json
    bool : Bool → Json
    int : ℤ → Json
    float : Option ℤ → Json
    string : String → Json
    array : Items → Json
    object : Members → Json

  pub data Items : Type 0 where
    nil : Items
    cons : Json → Items → Items

  pub data Members : Type 0 where
    end : Members
    member : String → Json → Members → Members

-- members.get(key): a missing key gives None.
abbrev pub get_member : String → Members → Json
get_member key end = null
get_member key (member k v rest) = if str_eq k key then v else get_member key rest

-- not isinstance(value, bool) and isinstance(value, int) and value >= 0
abbrev pub as_unsigned : Json → Option ℕ
as_unsigned (int (pos n)) = some n
as_unsigned _ = none

-- value == n, for a literal n: True equals 1 and False equals 0.
abbrev pub equals_int : Json → ℤ → Bool
equals_int (int m) n = eq_ℤ m n
equals_int (bool true) n = eq_ℤ (pos 1) n
equals_int (bool false) n = eq_ℤ (pos 0) n
equals_int (float (some m)) n = eq_ℤ m n
equals_int _ n = false

-- value == "..."
abbrev pub equals_string : Json → String → Bool
equals_string (string s) t = str_eq s t
equals_string _ t = false

-- value == []
abbrev pub is_empty_array : Json → Bool
is_empty_array (array nil) = true
is_empty_array _ = false
