-- ===== src/Server/Runtime.antt =====
-- What api/openapi/cron-service.go uses of github.com/gin-gonic/gin, of the parameter binding of
-- github.com/oapi-codegen/runtime, and of the accessors of its context.
use cron_lib.Base.{ℕ, String, Bool, Option, none, some, List, [], ◌∷◌}
use cron_lib.Execution.World.{Result}

-- The context of a request, with state `C`. `values` is `c.Request.URL.Query()`, `param` is `c.Param`,
-- `body` what `c.ShouldBindJSON` reads of the body of UpdateRegisteredJob: an error, or an object with
-- the flag or without. The bindings give nil for a parameter that is not there; an `int32` is its word
-- of 32 bits, and a `UUID` a number.
pub record Runtime (C : Type 0) : Type 0 where
  pub is_aborted : C → Bool
  pub tenant_id : C → Option String
  pub is_admin : C → Bool
  pub is_super_admin : C → Bool
  pub values : C → String → List String
  pub param : C → String → String
  pub body : C → Result (Option Bool)
  pub bind_int32 : String → (String → List String) → Result (Option ℕ)
  pub bind_string : String → (String → List String) → Result (Option String)
  pub bind_uuid : String → String → Result ℕ

-- `c.GetQuery`: the first value of the name.
abbrev pub get_query : {C : Type 0} → Runtime C → C → String → Option String
get_query rt c name = first (rt.values c name)
  where
    first : List String → Option String
    first [] = none
    first (v ∷ vs) = some v
