-- ===== src/Manager/Registration.antt =====
-- The job list and the entries of the scheduler: what registering and unregistering keep.
use cron_lib.Base.{
  ℕ, ◌≡◌, ◌≢◌, refl, String, str_eq, eq_iff, eq_refl, Bool, true, false, none, List, [], ◌∷◌, ◌++◌,
  arith, Bool-cases, Option-cases, inl, inr, All, Distinct, All-mono, Distinct-snoc,
}
use cron_lib.Base.Dict.{lookup, insert, erase, erase_absent}
use cron_lib.Manager.Keys.{job_key}
use cron_lib.Manager.State.{Job, CronApi, JobManager, World, Call}
use cron_lib.Manager.Methods.{
  key_of, already_registered, is_named, remove_job, schedule_job, register_job, unschedule,
  unregister_job, schedule_all, start_scheduler, start_cleanup_routine, stop_scheduler,
  stop_cleanup_routine, new_job_manager,
}
use mathlib.Core.Path.{subst}
use cron_lib.Registry.{Registered}
use cron_lib.Manager.Lifecycle.{
  schedule_job-frame, schedule_all-frame, unschedule-frame, Op, register, unregister, start, stop,
  step, run, init,
}

abbrev pub same_key : Job → Job → Bool
same_key j k = str_eq (key_of j) (key_of k)

already-snoc :
    (key : String) (jobs : List Job) (job : Job)
    → already_registered key jobs ≡ true
    → already_registered key (jobs ++ job ∷ []) ≡ true
already-snoc key [] job h = cc
already-snoc key (j ∷ jobs) job h = ground (arith, already-snoc key jobs job)

pub already-snoc_self :
    (jobs : List Job) (job : Job) → already_registered (key_of job) (jobs ++ job ∷ []) ≡ true
already-snoc_self [] job = simp eq_refl
already-snoc_self (j ∷ jobs) job = ground (arith, already-snoc_self jobs job)

not_already-All :
    (jobs : List Job) (job : Job)
    → already_registered (key_of job) jobs ≡ false
    → All (λ j. same_key j job ≡ false) jobs
not_already-All [] job h = tt
not_already-All (j ∷ jobs) job h = ground (arith, not_already-All jobs job)

pub named-key :
    (name t : String) (job : Job) → is_named name t job ≡ true → key_of job ≡ job_key name t
named-key name t job h = ground (arith, eq_iff job.name name, eq_iff job.tenant_id t)

already-remove :
    (key name t : String) (jobs : List Job)
    → key ≢ job_key name t
    → already_registered key (remove_job name t jobs) ≡ already_registered key jobs
already-remove key name t [] ne = refl
already-remove key name t (job ∷ jobs) ne = elim (Bool-cases (is_named name t job)) [
  | inl named ↦ rw named (ground (arith, named-key name t job named, eq_iff (key_of job) key))
  | inr other ↦ rw other (ground (arith, already-remove key name t jobs ne))
]

pub All-remove {κ} :
    (P : Job → Type κ) (name t : String) (jobs : List Job)
    → All P jobs
    → All P (remove_job name t jobs)
All-remove P name t [] a = tt
All-remove P name t (job ∷ jobs) a = ground (arith, All-remove P name t jobs)

Distinct-remove :
    (name t : String) (jobs : List Job)
    → Distinct same_key jobs
    → Distinct same_key (remove_job name t jobs)
Distinct-remove name t [] d = tt
Distinct-remove name t (job ∷ jobs) d = ground (
  arith,
  Distinct-remove name t jobs d.1,
  All-remove (λ j. same_key job j ≡ false) name t jobs d.0,
)

-- Every entry is that of a registered job.
abbrev pub Owned : List Job → List (String × ℕ) → Type 0
Owned jobs = All (λ e. already_registered e.0 jobs ≡ true)

Owned-snoc :
    (jobs : List Job) (job : Job) (m : List (String × ℕ))
    → Owned jobs m
    → Owned (jobs ++ job ∷ []) m
Owned-snoc jobs job [] o = tt
Owned-snoc jobs job (e ∷ m) o = (already-snoc e.0 jobs job o.0, Owned-snoc jobs job m o.1)

Owned-insert :
    (jobs : List Job) (k : String) (v : ℕ) (m : List (String × ℕ))
    → already_registered k jobs ≡ true
    → Owned jobs m
    → Owned jobs (insert k v m)
Owned-insert jobs k v [] h o = (h, tt)
Owned-insert jobs k v (e ∷ m) h o = ground (arith, Owned-insert jobs k v m h)

Owned-erase :
    (jobs : List Job) (name t : String) (m : List (String × ℕ))
    → Owned jobs m
    → Owned (remove_job name t jobs) (erase (job_key name t) m)
Owned-erase jobs name t [] o = tt
Owned-erase jobs name t (e ∷ m) o = ground (
  arith,
  Owned-erase jobs name t m o.1,
  eq_iff e.0 (job_key name t),
  already-remove e.0 name t jobs,
)

pub Owned-absent :
    (jobs : List Job) (k : String) (m : List (String × ℕ))
    → already_registered k jobs ≡ false
    → Owned jobs m
    → lookup k m ≡ none
Owned-absent jobs k [] h o = refl
Owned-absent jobs k (e ∷ m) h o = ground (arith, Owned-absent jobs k m h, eq_iff e.0 k)

cons-already :
    (job j : Job) (jobs : List Job)
    → already_registered (key_of j) jobs ≡ true
    → already_registered (key_of j) (job ∷ jobs) ≡ true
cons-already job j jobs h = ground arith

All-already : (jobs : List Job) → All (λ j. already_registered (key_of j) jobs ≡ true) jobs
All-already [] = tt
All-already (job ∷ jobs) =
    (simp eq_refl, All-mono _ _ jobs (λ j h. cons-already job j jobs h) (All-already jobs))

module _ {C : Type 0} (api : CronApi C) where
  -- No two registered jobs share a key, every entry is a registered job's, and a scheduler that is
  -- not running has no entries.
  pub record IsConsistent (jm : JobManager C) : Type 0 where
    pub distinct : Distinct same_key jm.jobs
    pub owned : Owned jm.jobs jm.entry_ids
    pub idle : jm.is_running ≡ false → jm.entry_ids ≡ []

  schedule-Owned :
      (jobs : List Job) (job : Job) (jm : JobManager C)
      → already_registered (key_of job) jobs ≡ true
      → Owned jobs jm.entry_ids
      → Owned jobs (schedule_job api job jm).entry_ids
  unfolding schedule_job
  schedule-Owned jobs job jm h o = elim (Option-cases (api.add_func job.schedule job jm.cron)) [
    | inl e ↦ rw (e, schedule_job) o
    | inr (r, e) ↦ rw (e, schedule_job) (Owned-insert jobs (key_of job) r.0 jm.entry_ids h o)
  ]

  -- The loop over a part of the job list.
  schedule_all-Owned :
      (jobs part : List Job) (jm : JobManager C)
      → All (λ j. already_registered (key_of j) jobs ≡ true) part
      → Owned jobs jm.entry_ids
      → Owned jobs (schedule_all api part jm).entry_ids
  unfolding schedule_all
  schedule_all-Owned jobs [] jm a o = o
  schedule_all-Owned jobs (job ∷ part) jm a o =
      schedule_all-Owned jobs part (schedule_job api job jm) a.1 (schedule-Owned jobs job jm a.0 o)

  register-IsConsistent :
      (job : Job) (call : Call) (w : World C)
      → IsConsistent w.jm
      → IsConsistent (register_job api job call w).jm
  unfolding register_job
  register-IsConsistent job call w k =
      elim (Bool-cases (already_registered (key_of job) w.jm.jobs)) [
        | inl old ↦ rw (old, register_job) k
        | inr new ↦ ground (
          arith,
          Distinct-snoc same_key w.jm.jobs job (not_already-All w.jm.jobs job new) k.distinct,
          Owned-snoc w.jm.jobs job w.jm.entry_ids k.owned,
          schedule_job-frame api job added,
          schedule-Owned added.jobs job added (already-snoc_self w.jm.jobs job),
        )
      ]
    where
      added : JobManager C
      added = record (w.jm) { jobs = w.jm.jobs ++ job ∷ [] }

  unschedule-Owned :
      (name t : String) (jm : JobManager C)
      → Owned jm.jobs jm.entry_ids
      → Owned (remove_job name t jm.jobs) (unschedule api (job_key name t) jm).entry_ids
  unfolding unschedule
  unschedule-Owned name t jm o = elim (Option-cases (lookup (job_key name t) jm.entry_ids)) [
    | inl e ↦
        rw (e, unschedule)
          (subst (Owned (remove_job name t jm.jobs)) (erase_absent (job_key name t) jm.entry_ids e)
            (Owned-erase jm.jobs name t jm.entry_ids o))
    | inr (id, e) ↦ rw (e, unschedule) (Owned-erase jm.jobs name t jm.entry_ids o)
  ]

  unregister-IsConsistent :
      (name t : String) (call : Call) (w : World C)
      → IsConsistent w.jm
      → IsConsistent (unregister_job api name t call w).jm
  unfolding unregister_job
  unregister-IsConsistent name t call w k = elim (Bool-cases w.jm.is_running) [
    | inl runs ↦ ground (
      arith,
      unschedule-frame api (job_key name t) w.jm,
      Distinct-remove name t w.jm.jobs k.distinct,
      unschedule-Owned name t w.jm k.owned,
    )
    | inr idle ↦ ground (arith, Distinct-remove name t w.jm.jobs k.distinct, k.idle idle)
  ]

  pub step-IsConsistent :
      (op : Op) (w : World C) → IsConsistent w.jm → IsConsistent (step api op w).jm
  unfolding step start_scheduler start_cleanup_routine stop_scheduler stop_cleanup_routine
  step-IsConsistent (register job call) w k = register-IsConsistent job call w k
  step-IsConsistent (unregister name t call) w k = unregister-IsConsistent name t call w k
  step-IsConsistent start w k = ground (
    arith,
    schedule_all-frame api w.jm.jobs w.jm,
    schedule_all-Owned w.jm.jobs w.jm.jobs w.jm (All-already w.jm.jobs) k.owned,
  )
  step-IsConsistent stop w k = ground arith

  run-IsConsistent :
      (ops : List Op) (w : World C) → IsConsistent w.jm → IsConsistent (run api ops w).jm
  unfolding run
  run-IsConsistent [] w k = k
  run-IsConsistent (op ∷ ops) w k = run-IsConsistent ops (step api op w) (step-IsConsistent op w k)

  -- After any calls of the methods of a new manager, in any order and whatever the database answers,
  -- no two registered jobs share a key, every entry of the scheduler belongs to a registered job, and
  -- there are no entries while the scheduler is not running.
  pub reachable-IsConsistent :
      (instance_id : String) (registered : Registered) (ops : List Op)
      → IsConsistent (run api ops (init api instance_id registered)).jm
  unfolding init new_job_manager
  reachable-IsConsistent instance_id registered ops =
      run-IsConsistent ops _ (record { distinct = tt; owned = tt; idle = λ e. refl })
