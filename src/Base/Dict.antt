-- ===== src/Base/Dict.antt =====
-- A Go map with string keys, as an association list.
use Prim.Native.String.{String}
use mathlib.Core.Path.{◌≡◌, refl}
use mathlib.Core.Logic.{◌≢◌}
use mathlib.Core.Option.{Option, none, some}
use mathlib.Core.List.{List, [], ◌∷◌}
use text.Mathlib.Text.{◌==◌}
use text.Mathlib.TextEquality.{eq_iff}
use native.Mathlib.Omega.{arith}
use cron_lib.Base.Tests.{if◌then◌else◌}

module _ {ℓ} {V : Type ℓ} where
  abbrev pub lookup : String → List (String × V) → Option V
  lookup k [] = none
  lookup k (e ∷ m) = if e.0 == k then some e.1 else lookup k m

  -- `m[k] = v`
  abbrev pub insert : String → V → List (String × V) → List (String × V)
  insert k v [] = (k, v) ∷ []
  insert k v (e ∷ m) = if e.0 == k then (k, v) ∷ m else e ∷ insert k v m

  -- `delete(m, k)`
  abbrev pub erase : String → List (String × V) → List (String × V)
  erase k [] = []
  erase k (e ∷ m) = if e.0 == k then erase k m else e ∷ erase k m

  -- After `m[k] = v` the key `k` has the value `v`, and each other key the value that it had.
  pub lookup-insert :
      (key : String) (value : V) (table : List (String × V)) (other : String)
      → lookup other (insert key value table)
        ≡ (if key == other then some value else lookup other table)
  lookup-insert key value [] other = refl
  lookup-insert key value (e ∷ rest) other = ground (
    arith,
    lookup-insert key value rest other,
    eq_iff e.0 other,
    eq_iff e.0 key,
    eq_iff key other,
  )

  pub lookup-erase_self : (k : String) (m : List (String × V)) → lookup k (erase k m) ≡ none
  lookup-erase_self k [] = refl
  lookup-erase_self k (e ∷ m) = ground (arith, lookup-erase_self k m)

  pub lookup-erase_ne :
      (k j : String) (m : List (String × V)) → k ≢ j → lookup j (erase k m) ≡ lookup j m
  lookup-erase_ne k j [] h = refl
  lookup-erase_ne k j (e ∷ m) h =
      ground (arith, eq_iff e.0 k, eq_iff e.0 j, lookup-erase_ne k j m h)

  pub erase_absent : (k : String) (m : List (String × V)) → lookup k m ≡ none → erase k m ≡ m
  erase_absent k [] e = refl
  erase_absent k (x ∷ m) e = ground (arith, erase_absent k m)

  pub erase-insert :
      (k : String) (v : V) (m : List (String × V)) → lookup k m ≡ none → erase k (insert k v m) ≡ m
  erase-insert k v [] e = ground (arith, eq_iff k k)
  erase-insert k v (x ∷ m) e = ground (arith, erase-insert k v m)
