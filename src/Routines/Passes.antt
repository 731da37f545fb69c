-- ===== src/Routines/Passes.antt =====
-- The passes of the clean-up routine.
use mathlib.Core.Path.{subst}
use cron_lib.Base.{
  ℕ, ◌+◌, ◌≤◌, ◌<◌, ◌≡◌, ◌≢◌, refl, sym, ap, String, Bool, true, false, ◌&&◌, ◌||◌, Option, none,
  some, List, [], ◌∷◌, ◌++◌, map, arith, All, All-mono, ltb, leb, Bool-cases, inl, inr,
}
use cron_lib.Schema.{CronJob, minutes}
use cron_lib.Jobs.{Jobs, is_running, is_stale, of_tenant}
use cron_lib.Manager.State.{Job, refused}
use cron_lib.Manager.Sweep.{is_in, cleanup_stale_jobs-IsSwept}
use cron_lib.Routines.{tick, loop, Pass, clean, cleanup_routine}

-- Every call of the pass is executed, none before its tick, and the order drops no tenant.
pub record IsExecuted (pass : Pass) : Type 0 where
  pub sent : (n : ℕ) → (pass.calls n).fault ≢ refused
  pub clock : (n : ℕ) → pass.at ≤ (pass.calls n).now
  pub all_tenants : (t : String) (ts : List String) → is_in t (pass.order ts) ≡ is_in t ts

-- The ticks come at most five minutes apart.
abbrev pub IsRegular : ℕ → List Pass → Type 0
IsRegular previous [] = Unit
IsRegular previous (pass ∷ passes) = (pass.at ≤ previous + minutes 5) × IsRegular pass.at passes

abbrev pub any_later : ℕ → List Pass → Bool
any_later time [] = false
any_later time (pass ∷ passes) = ltb time pass.at || any_later time passes

abbrev pub locked_by_time : ℕ → Option ℕ → Bool
locked_by_time time none = false
locked_by_time time (some at) = leb at time

-- A running row of the tenant that was locked at that time or before.
abbrev pub is_dead : ℕ → String → CronJob → Bool
is_dead time t r = is_running r && locked_by_time time r.locked_at && of_tenant t r

-- The first of the passes after a time.
record FirstAfter (time : ℕ) (passes : List Pass) : Type 0 where
  early : List Pass
  pass : Pass
  late : List Pass
  parts : passes ≡ early ++ pass ∷ late
  after : time < pass.at
  soon : pass.at ≤ time + minutes 5
  executed : IsExecuted pass

first_after :
    (time previous : ℕ) (passes : List Pass)
    → previous ≤ time
    → All IsExecuted passes
    → IsRegular previous passes
    → any_later time passes ≡ true
    → FirstAfter time passes
first_after time previous [] le a g l = absurd (ground arith)
first_after time previous (p ∷ passes) le a g l = elim (Bool-cases (ltb time p.at)) [
  | inl e ↦ record {
    early = [];
    pass = p;
    late = passes;
    parts = refl;
    after = ground arith;
    soon = ground (arith, g.0);
    executed = a.0;
  }
  | inr e ↦
      let rest = first_after time p.at passes (ground arith) a.1 g.1 (ground arith) in
      record {
        early = p ∷ rest.early;
        pass = rest.pass;
        late = rest.late;
        parts = ap (◌∷◌ p) rest.parts;
        after = rest.after;
        soon = rest.soon;
        executed = rest.executed;
      }
]

loop-snoc :
    {A S : Type 0} (body : A → S → S) (xs : List A) (x : A) (s : S)
    → (loop body (map tick (xs ++ x ∷ [])) s).1 ≡ body x (loop body (map tick xs) s).1
unfolding loop
loop-snoc body [] x s = refl
loop-snoc body (y ∷ xs) x s = loop-snoc body xs x (body y s)

module _ (before : List Job) (job : Job) (after : List Job) where
  jobs : List Job
  jobs = before ++ job ∷ after

  clean-frees :
      (time : ℕ) (pass : Pass) (rows : Jobs)
      → IsExecuted pass
      → time + minutes 15 < pass.at
      → All (λ r. is_dead time job.tenant_id r ≡ false) (clean jobs pass rows)
  unfolding clean jobs
  clean-frees time pass rows x lt =
      All-mono (λ r. is_stale pass.at job.tenant_id r ≡ false)
        (λ r. is_dead time job.tenant_id r ≡ false) _ (λ r h. ground arith)
        (cleanup_stale_jobs-IsSwept pass.at pass.calls pass.order (pass.others rows) before job
          after x.sent x.clock x.all_tenants)

  -- A lease whose holder is dead does not last: where the routine is not stopped, its ticks come at
  -- most five minutes apart, the first pass at most fifteen minutes after the time and some later one
  -- more than fifteen minutes after it, and every call of a pass is executed, there is a pass within
  -- twenty minutes of the time after which no row of the tenant of a registered job that was locked at
  -- that time or before is running, whatever others have done to the table before that pass.
  pub cleanup_routine-frees :
      (time : ℕ) (first : Pass) (passes : List Pass) (rows : Jobs)
      → first.at ≤ time + minutes 15
      → IsRegular first.at passes
      → All IsExecuted passes
      → any_later (time + minutes 15) passes ≡ true
      → (early : List Pass) × (pass : Pass) × (late : List Pass) × (passes ≡ early ++ pass ∷ late)
        × (pass.at ≤ time + minutes 20)
        × All
            (λ r. is_dead time job.tenant_id r ≡ false)
            (cleanup_routine (before ++ job ∷ after) first (map tick (early ++ pass ∷ [])) rows).1
  unfolding cleanup_routine jobs
  cleanup_routine-frees time first passes rows le g a l =
      let found = first_after (time + minutes 15) first.at passes le a g l in
      (
        found.early,
        found.pass,
        found.late,
        found.parts,
        omega (arith, found.soon),
        subst (All (λ r. is_dead time job.tenant_id r ≡ false))
            (sym (loop-snoc (clean jobs) found.early found.pass (clean jobs first rows)))
            (clean-frees time found.pass _ found.executed found.after),
      )
