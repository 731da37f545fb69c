-- ===== src/History/Atoi.antt =====
-- `strconv.Atoi`, and the machine integers of GetJobAuditLogs in pkg/api/registered_job_handler.go.
-- An `int` is its word of 64 bits and an `int32` its word of 32 bits, in two's complement.
use Prim.Native.String.{String}
use cron_lib.Base.{
  ℕ, ◌+◌, ◌-◌, ◌*◌, ◌%◌, ◌^◌, Bool, ◌&&◌, ◌==◌, Option, none, some, List, [], ◌∷◌, if◌then◌else◌,
  ltb, leb,
}
use cron_lib.Manager.Keys.{codes}

abbrev pub is_digit : ℕ → Bool
is_digit c = leb 48 c && leb c 57

-- ParseUint in base ten: it stops at a character that is no digit, with a syntax error, and where the
-- number no longer fits, with a range error, whatever comes first.
unfoldable pub parse_uint : ℕ → List ℕ → Option ℕ
parse_uint n [] = some n
parse_uint n (c ∷ cs) =
    let m = n * 10 + (c - 48) in
    let rest = parse_uint m cs in
    if is_digit c then if ltb m (2 ^ 64) then rest else some (2 ^ 64 - 1) else none

-- The digits after the sign; there must be one.
abbrev pub magnitude : List ℕ → Option ℕ
magnitude [] = none
magnitude (c ∷ cs) = parse_uint 0 (c ∷ cs)

-- A syntax error gives 0, and a range error the nearest number.
abbrev pub positive : Option ℕ → ℕ
positive none = 0
positive (some n) = if ltb n (2 ^ 63) then n else 2 ^ 63 - 1

abbrev pub negative : Option ℕ → ℕ
negative none = 0
negative (some n) = if leb n (2 ^ 63) then (2 ^ 64 - n) % 2 ^ 64 else 2 ^ 63

abbrev pub signed : List ℕ → ℕ
signed [] = 0
signed (c ∷ cs) =
    if c == 45
    then negative (magnitude cs)
    else if c == 43
    then positive (magnitude cs)
    else positive (magnitude (c ∷ cs))

-- The number that `strconv.Atoi` returns, its error aside.
unfoldable pub atoi : String → ℕ
atoi s = signed (codes s)

abbrev pub int32 : ℕ → ℕ
int32 n = n % 2 ^ 32

abbrev pub is_negative : ℕ → Bool
is_negative n = leb (2 ^ 31) n

-- `int32((page - 1) * pageSize)`
unfoldable pub page_offset : ℕ → ℕ → ℕ
page_offset page page_size = int32 (((page + (2 ^ 64 - 1)) % 2 ^ 64 * page_size) % 2 ^ 64)
