-- ===== src/Base/Texts.antt =====
-- Texts are only compared: what the equality test of the library says.
use Prim.Native.String.{String}
use mathlib.Core.Path.{◌≡◌}
use mathlib.Core.Logic.{◌≢◌}
use mathlib.Core.Bool.{false}
use text.Mathlib.Text.{◌==◌}
use text.Mathlib.TextEquality.{eq_iff}
use native.Mathlib.Omega.{arith}

pub str_eq_comm : (a b : String) → (a == b) ≡ (b == a)
str_eq_comm a b = ground (arith, eq_iff a b, eq_iff b a)

pub ne_of_test : (a b : String) → (a == b) ≡ false → a ≢ b
ne_of_test a b h e = ground (arith, eq_iff a b)
