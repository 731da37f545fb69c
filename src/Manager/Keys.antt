-- ===== src/Manager/Keys.antt =====
-- `jobKey` and `jobLockToLockID` of pkg/job-manager.go.
use Prim.Native.Char.{Char, code}
use Prim.Native.String.{String, ◌++◌}
use text.Mathlib.TextLemmas.{
  nil-append, cons-append, append_assoc, head-eq_of_cons-eq, tail-eq_of_cons-eq,
}
use mathlib.Core.Path.{ap₂}
use cron_lib.Base.{
  ℕ, ◌+◌, ◌*◌, ◌%◌, ◌^◌, ◌<◌, ◌≡◌, refl, ap, ◌∙◌, sym, ◌≢◌, List, [], ◌∷◌, arith, All,
}

-- A Go string that is ranged over gives its code points.
abbrev pub codes : String → List ℕ
codes String.[] = []
codes (String.◌∷◌ c s) = code c ∷ codes s

-- fmt.Sprintf("%s:%s", tenantID, name)
unfoldable pub job_key : String → String → String
job_key name tenant_id = tenant_id ++ (":" ++ name)

-- uint32 arithmetic: `hash << 5`, and the sums, wrap around.
abbrev pub hash_step : ℕ → ℕ → ℕ
hash_step hash c = (((hash * 32) % 2 ^ 32 + hash) % 2 ^ 32 + c) % 2 ^ 32

unfoldable pub hash_loop : ℕ → List ℕ → ℕ
hash_loop hash [] = hash
hash_loop hash (c ∷ cs) = hash_loop (hash_step hash c) cs

unfoldable pub job_lock_to_lock_id : String → String → ℕ
unfolding job_key hash_loop
job_lock_to_lock_id job_name tenant_id = hash_loop 5381 (codes (job_key job_name tenant_id))

-- The hash without a word size.
pub horner : ℕ → List ℕ → ℕ
horner acc [] = acc
horner acc (c ∷ cs) = horner (acc * 33 + c) cs

hash_loop-horner :
    (hash acc : ℕ) (cs : List ℕ) → hash ≡ acc % 2 ^ 32 → hash_loop hash cs ≡ horner acc cs % 2 ^ 32
unfolding hash_loop horner
hash_loop-horner hash acc [] e = e
hash_loop-horner hash acc (c ∷ cs) e =
    hash_loop-horner (hash_step hash c) (acc * 33 + c) cs (omega arith)

-- The lock id is the polynomial hash of the key, base 33 from 5381, modulo 2^32, and so a 32-bit
-- number: the wrap-arounds on the way lose nothing else.
pub job_lock_to_lock_id-horner :
    (job_name tenant_id : String)
    → (job_lock_to_lock_id job_name tenant_id
        ≡ horner 5381 (codes (job_key job_name tenant_id)) % 2 ^ 32)
      × (job_lock_to_lock_id job_name tenant_id < 2 ^ 32)
unfolding job_lock_to_lock_id
job_lock_to_lock_id-horner job_name tenant_id =
    let e = hash_loop-horner 5381 5381 (codes (job_key job_name tenant_id)) (omega arith) in
    (e, omega (arith, e))

-- No colon in the text.
abbrev pub IsColonFree : String → Type 0
IsColonFree s = All (λ c. c ≢ b':') (codes s)

colon-cons : (u : String) → "" ++ (":" ++ u) ≡ String.◌∷◌ ":" u
colon-cons u = nil-append (":" ++ u) ∙ cons-append ":" "" u ∙ ap (String.◌∷◌ ":") (nil-append u)

not_at_colon :
    (d : Char) (t u v : String) → code d ≢ b':' → "" ++ (":" ++ u) ≢ String.◌∷◌ d t ++ (":" ++ v)
not_at_colon d t u v h e =
    h (ap code (sym (head-eq_of_cons-eq (sym (colon-cons u) ∙ e ∙ cons-append d t (":" ++ v)))))

-- Left of a colon, a text without one can be read back.
split-colon :
    (s t u v : String)
    → IsColonFree s
    → IsColonFree t
    → s ++ (":" ++ u) ≡ t ++ (":" ++ v)
    → (s ≡ t) × (u ≡ v)
split-colon String.[] String.[] u v hs ht e =
    (refl, tail-eq_of_cons-eq (sym (colon-cons u) ∙ e ∙ colon-cons v))
split-colon String.[] (String.◌∷◌ d t) u v hs ht e = absurd (not_at_colon d t u v ht.0 e)
split-colon (String.◌∷◌ c s) String.[] u v hs ht e = absurd (not_at_colon c s v u hs.0 (sym e))
split-colon (String.◌∷◌ c s) (String.◌∷◌ d t) u v hs ht e =
    let q = sym (cons-append c s (":" ++ u)) ∙ e ∙ cons-append d t (":" ++ v) in
    let rest = split-colon s t u v hs.1 ht.1 (tail-eq_of_cons-eq q) in
    (ap₂ String.◌∷◌ (head-eq_of_cons-eq q) rest.0, rest.1)

-- Among tenants whose ids have no colon, the key tells the job's name and tenant.
pub job_key-injective :
    (name name' tenant_id tenant_id' : String)
    → IsColonFree tenant_id
    → IsColonFree tenant_id'
    → job_key name tenant_id ≡ job_key name' tenant_id'
    → (tenant_id ≡ tenant_id') × (name ≡ name')
unfolding job_key
job_key-injective name name' tenant_id tenant_id' h h' e =
    split-colon tenant_id tenant_id' name name' h h' e

-- With a colon in an id it does not: for any texts x, y and z, the job called "y:z" of tenant x has
-- the key, and with it the lock id, of the job called z of tenant "x:y".
pub job_key-collides :
    (x y z : String)
    → (job_key (y ++ (":" ++ z)) x ≡ job_key z (x ++ (":" ++ y)))
      × (job_lock_to_lock_id (y ++ (":" ++ z)) x ≡ job_lock_to_lock_id z (x ++ (":" ++ y)))
unfolding job_key job_lock_to_lock_id
job_key-collides x y z = (same, ap (λ k. hash_loop 5381 (codes k)) same)
  where
    same : x ++ (":" ++ (y ++ (":" ++ z))) ≡ (x ++ (":" ++ y)) ++ (":" ++ z)
    same =
        sym
          (append_assoc x (":" ++ y) (":" ++ z) ∙ ap (λ k. x ++ k) (append_assoc ":" y (":" ++ z)))
