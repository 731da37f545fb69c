-- ===== src/Manager/Sweep.antt =====
-- `cleanupStaleJobs` of pkg/job-manager.go: one pass of the clean-up routine over the tenants of the
-- registered jobs, with no other client between its calls.
use mathlib.Core.Path.{subst}
use cron_lib.Base.{
  ℕ, ◌+◌, ◌≤◌, ◌≡◌, ◌≢◌, refl, sym, ◌∙◌, String, str_eq, eq_iff, eq_refl, Bool, true, false, ◌||◌,
  List, [], ◌∷◌, ◌++◌, arith, if◌then◌else◌, All, All-update, count_where, select_where, Bool-cases,
  inl, inr,
}
use cron_lib.Schema.{CronJob}
use cron_lib.Jobs.{Jobs, is_running, is_stale, of_tenant, unlocked_row, cleanup_stale_locks}
use cron_lib.Jobs.Cleanup.{count-running}
use cron_lib.Jobs.Statements.{Stmt, exec}
use cron_lib.Jobs.Tenants.{exec-other_tenants}
use cron_lib.Manager.State.{Job, Call, Fault, answered, lost, refused, executed}

abbrev pub is_in : String → List String → Bool
is_in t [] = false
is_in t (u ∷ us) = str_eq u t || is_in t us

-- The keys of the map `tenantIDs`.
abbrev pub tenant_ids : List Job → List String
tenant_ids [] = []
tenant_ids (job ∷ jobs) =
    let rest = tenant_ids jobs in if is_in job.tenant_id rest then rest else job.tenant_id ∷ rest

-- `RowsAffected` is known only of an answered call.
abbrev pub reported : Fault → ℕ → ℕ
reported answered affected = affected
reported lost affected = 0
reported refused affected = 0

-- The loop from call number `n` on: the total of cleaned locks, and the table.
unfoldable pub sweep : (ℕ → Call) → ℕ → List String → Jobs → ℕ × Jobs
sweep calls n [] rows = (0, rows)
sweep calls n (t ∷ ts) rows =
    let call = calls n in
    let cleaned = executed call.fault rows (cleanup_stale_locks call.now t rows) in
    let (total, rows') = sweep calls (n + 1) ts cleaned in
    (reported call.fault (count_where (is_stale call.now t) rows) + total, rows')

-- The order in which the map is ranged over is not specified: `order` rearranges the keys.
unfoldable pub cleanup_stale_jobs :
    (ℕ → Call) → (List String → List String) → List Job → Jobs → ℕ × Jobs
cleanup_stale_jobs calls order jobs rows = sweep calls 0 (order (tenant_ids jobs)) rows

sweep-count :
    (calls : ℕ → Call) (n : ℕ) (ts : List String) (rows : Jobs)
    → ((m : ℕ) → (calls m).fault ≢ lost)
    → let (total, rows') = sweep calls n ts rows in
      count_where is_running rows' + total ≡ count_where is_running rows
unfolding sweep
sweep-count calls n [] rows h = omega arith
sweep-count calls n (t ∷ ts) rows h = ground (
  arith,
  h n,
  count-running (calls n).now t rows,
  sweep-count calls (n + 1) ts
      (executed (calls n).fault rows (cleanup_stale_locks (calls n).now t rows)) h,
)

-- Where no executed call loses its answer, the total that the pass logs is the number of rows fewer
-- that are running afterwards, in whatever order it goes through the tenants and however many of the
-- calls fail.
pub cleanup_stale_jobs-count :
    (calls : ℕ → Call) (order : List String → List String) (jobs : List Job) (rows : Jobs)
    → ((n : ℕ) → (calls n).fault ≢ lost)
    → let (total, rows') = cleanup_stale_jobs calls order jobs rows in
      count_where is_running rows' + total ≡ count_where is_running rows
unfolding cleanup_stale_jobs
cleanup_stale_jobs-count calls order jobs rows h =
    sweep-count calls 0 (order (tenant_ids jobs)) rows h

module _ (now : ℕ) (t : String) where
  -- No lock of the tenant is stale at that time.
  abbrev pub IsSwept : Jobs → Type 0
  IsSwept = All (λ r. is_stale now t r ≡ false)

  unlocked-fresh :
      (later : ℕ) (r : CronJob) → is_stale now t (unlocked_row "failed" later r) ≡ false
  unlocked-fresh later r = refl

  cleaned-IsSwept :
      (later : ℕ) (u : String) (rows : Jobs)
      → IsSwept rows
      → IsSwept (cleanup_stale_locks later u rows)
  unfolding cleanup_stale_locks
  cleaned-IsSwept later u rows a =
      All-update (λ r. is_stale now t r ≡ false) (is_stale later u) (unlocked_row "failed" later)
        rows (λ r h. unlocked-fresh later r) a

  older :
      (later : ℕ) (r : CronJob) → now ≤ later → is_stale now t r ≡ true → is_stale later t r ≡ true
  older later r le h = ground arith

  clean-IsSwept :
      (later : ℕ) (rows : Jobs) → now ≤ later → IsSwept (cleanup_stale_locks later t rows)
  unfolding cleanup_stale_locks
  clean-IsSwept later [] le = tt
  clean-IsSwept later (r ∷ rs) le =
      ground (arith, older later r le, unlocked-fresh later r, clean-IsSwept later rs le)

  sweep-keeps :
      (calls : ℕ → Call) (n : ℕ) (ts : List String) (rows : Jobs)
      → IsSwept rows
      → IsSwept (sweep calls n ts rows).1
  unfolding sweep
  sweep-keeps calls n [] rows a = a
  sweep-keeps calls n (u ∷ ts) rows a = sweep-keeps calls (n + 1) ts _ (kept (calls n).fault)
    where
      kept : (f : Fault) → IsSwept (executed f rows (cleanup_stale_locks (calls n).now u rows))
      kept answered = cleaned-IsSwept (calls n).now u rows a
      kept lost = cleaned-IsSwept (calls n).now u rows a
      kept refused = a

  sweep-IsSwept :
      (calls : ℕ → Call) (n : ℕ) (ts : List String) (rows : Jobs)
      → ((m : ℕ) → (calls m).fault ≢ refused)
      → ((m : ℕ) → now ≤ (calls m).now)
      → is_in t ts ≡ true
      → IsSwept (sweep calls n ts rows).1
  unfolding sweep
  sweep-IsSwept calls n [] rows sent clock i = ground arith
  sweep-IsSwept calls n (u ∷ ts) rows sent clock i = elim (Bool-cases (str_eq u t)) [
    | inr other ↦ sweep-IsSwept calls (n + 1) ts _ sent clock (ground arith)
    | inl same ↦
        subst
          (λ v.
            IsSwept
              (sweep calls (n + 1) ts
                (executed (calls n).fault rows (cleanup_stale_locks (calls n).now v rows))).1)
          (sym ((eq_iff u t).0 same))
          (sweep-keeps calls (n + 1) ts _ (cleaned (calls n).fault (sent n)))
  ]
    where
      cleaned :
          (f : Fault)
          → f ≢ refused
          → IsSwept (executed f rows (cleanup_stale_locks (calls n).now t rows))
      cleaned answered h = clean-IsSwept (calls n).now rows (clock n)
      cleaned lost h = clean-IsSwept (calls n).now rows (clock n)
      cleaned refused h = absurd (h refl)

tenant-is_in :
    (before : List Job) (job : Job) (after : List Job)
    → is_in job.tenant_id (tenant_ids (before ++ job ∷ after)) ≡ true
tenant-is_in [] job after = ground (arith, eq_refl job.tenant_id)
tenant-is_in (j ∷ before) job after = ground (arith, tenant-is_in before job after)

-- Where every call is executed, at server times from `now` on, no lock of a registered job's tenant that
-- is stale at `now` is left by the pass.
pub cleanup_stale_jobs-IsSwept :
    (now : ℕ) (calls : ℕ → Call) (order : List String → List String) (rows : Jobs)
    (before : List Job) (job : Job) (after : List Job)
    → ((n : ℕ) → (calls n).fault ≢ refused)
    → ((n : ℕ) → now ≤ (calls n).now)
    → ((t : String) (ts : List String) → is_in t (order ts) ≡ is_in t ts)
    → IsSwept now job.tenant_id (cleanup_stale_jobs calls order (before ++ job ∷ after) rows).1
unfolding cleanup_stale_jobs
cleanup_stale_jobs-IsSwept now calls order rows before job after sent clock same =
    sweep-IsSwept now job.tenant_id calls 0 _ rows sent clock
      (same job.tenant_id (tenant_ids (before ++ job ∷ after)) ∙ tenant-is_in before job after)

clean-others :
    (u t : String) (now : ℕ) (rows : Jobs)
    → u ≢ t
    → select_where (of_tenant u) (cleanup_stale_locks now t rows) ≡ select_where (of_tenant u) rows
unfolding exec
clean-others u t now rows ne = exec-other_tenants now (Stmt.clean_stale t) rows t u refl ne

sweep-others :
    (u : String) (calls : ℕ → Call) (n : ℕ) (ts : List String) (rows : Jobs)
    → is_in u ts ≡ false
    → select_where (of_tenant u) (sweep calls n ts rows).1 ≡ select_where (of_tenant u) rows
unfolding sweep
sweep-others u calls n [] rows i = refl
sweep-others u calls n (t ∷ ts) rows i =
    sweep-others u calls (n + 1) ts _ (ground arith) ∙ one (calls n).fault
  where
    other : u ≢ t
    other e = ground (arith, eq_iff t u)

    one :
        (f : Fault)
        → select_where (of_tenant u) (executed f rows (cleanup_stale_locks (calls n).now t rows))
          ≡ select_where (of_tenant u) rows
    one answered = clean-others u t (calls n).now rows other
    one lost = clean-others u t (calls n).now rows other
    one refused = refl

-- The pass leaves the rows of a tenant that none of the registered jobs has as they are.
pub cleanup_stale_jobs-others :
    (u : String) (calls : ℕ → Call) (order : List String → List String) (jobs : List Job)
    (rows : Jobs)
    → ((t : String) (ts : List String) → is_in t (order ts) ≡ is_in t ts)
    → is_in u (tenant_ids jobs) ≡ false
    → select_where (of_tenant u) (cleanup_stale_jobs calls order jobs rows).1
      ≡ select_where (of_tenant u) rows
unfolding cleanup_stale_jobs
cleanup_stale_jobs-others u calls order jobs rows same i =
    sweep-others u calls 0 (order (tenant_ids jobs)) rows (same u (tenant_ids jobs) ∙ i)
