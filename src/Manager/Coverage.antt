-- ===== src/Manager/Coverage.antt =====
-- Whether every registered job is on the schedule while the scheduler runs.
use mathlib.Core.Path.{subst}
use cron_lib.Base.{
  ℕ, ◌≡◌, ◌≢◌, refl, sym, ◌∙◌, String, str_eq, eq_iff, eq_refl, true, false, none, List, [], ◌∷◌,
  ◌++◌, arith, Bool-cases, Option-cases, inl, inr, All, Distinct, All-mono, All-snoc, All-both,
  ne_of_test,
}
use cron_lib.Base.Dict.{lookup, lookup-erase_ne, lookup-insert}
use cron_lib.Registry.{Registered}
use cron_lib.Manager.Keys.{job_key, job_key-injective, IsColonFree}
use cron_lib.Manager.State.{Job, CronApi, JobManager, World, Call}
use cron_lib.Manager.Methods.{
  key_of, already_registered, is_named, remove_job, schedule_job, register_job, unschedule,
  unregister_job, schedule_all, start_scheduler, new_job_manager,
}
use cron_lib.Manager.Lifecycle.{
  schedule_job-frame, Op, register, unregister, start, stop, step, run, init,
}
use cron_lib.Manager.Registration.{same_key, IsConsistent, named-key, step-IsConsistent, All-remove}
use cron_lib.Manager.Frames.{
  added, register-running, register-idle, register-old, unregister-jobs, unregister-running,
  unregister-entry_ids, start-running, start-jobs, start-entry_ids, stop-jobs, stop-entry_ids,
}

-- The tenants that a call names have no colon in their ids.
abbrev pub NamesColonFree : Op → Type 0
NamesColonFree (register job call) = IsColonFree job.tenant_id
NamesColonFree (unregister name t call) = IsColonFree t
NamesColonFree start = Unit
NamesColonFree stop = Unit

-- After the cut no job has the key.
remove-other_keys :
    (name t : String) (jobs : List Job)
    → IsColonFree t
    → All (λ j. IsColonFree j.tenant_id) jobs
    → Distinct same_key jobs
    → All (λ j. str_eq (key_of j) (job_key name t) ≡ false) (remove_job name t jobs)
remove-other_keys name t [] f a d = tt
remove-other_keys name t (job ∷ jobs) f a d = elim (Bool-cases (is_named name t job)) [
  | inl named ↦
      rw named (All-mono _ _ jobs (λ j h. distinct_key j (named-key name t job named) h) d.0)
  | inr other ↦ rw other (unnamed_key other, remove-other_keys name t jobs f a.1 d.1)
]
  where
    distinct_key :
        (j : Job)
        → key_of job ≡ job_key name t
        → same_key job j ≡ false
        → str_eq (key_of j) (job_key name t) ≡ false
    distinct_key j e h =
        ground (arith, eq_iff (key_of job) (key_of j), eq_iff (key_of j) (job_key name t))

    unnamed_key : is_named name t job ≡ false → str_eq (key_of job) (job_key name t) ≡ false
    unnamed_key other = elim (Bool-cases (str_eq (key_of job) (job_key name t))) [
      | inr ne ↦ ne
      | inl e ↦
          let same = job_key-injective job.name name job.tenant_id t a.0 f ((eq_iff _ _).0 e) in
          absurd (ground (arith, eq_iff job.name name, eq_iff job.tenant_id t, same))
    ]

All-at :
    {A : Type 0} (P : A → Type 0) (before : List A) (x : A) (after : List A)
    → All P (before ++ x ∷ after)
    → P x
All-at P [] x after a = a.0
All-at P (y ∷ before) x after a = All-at P before x after a.1

module _ {C : Type 0} (api : CronApi C) where
  -- A job whose schedule parses has an entry.
  abbrev pub HasEntry : List (String × ℕ) → Job → Type 0
  HasEntry m j = ((c : C) → api.add_func j.schedule j c ≢ none) → lookup (key_of j) m ≢ none

  schedule_mono :
      (k : String) (job : Job) (jm : JobManager C)
      → lookup k jm.entry_ids ≢ none
      → lookup k (schedule_job api job jm).entry_ids ≢ none
  unfolding schedule_job
  schedule_mono k job jm h = elim (Option-cases (api.add_func job.schedule job jm.cron)) [
    | inl e ↦ rw (e, schedule_job) h
    | inr (r, e) ↦
        rw (e, schedule_job) (ground (arith, lookup-insert (key_of job) r.0 jm.entry_ids k))
  ]

  schedule_self : (job : Job) (jm : JobManager C) → HasEntry (schedule_job api job jm).entry_ids job
  unfolding schedule_job
  schedule_self job jm parses = elim (Option-cases (api.add_func job.schedule job jm.cron)) [
    | inl e ↦ absurd (parses jm.cron e)
    | inr (r, e) ↦
        rw (e, schedule_job)
          (ground
            (arith, lookup-insert (key_of job) r.0 jm.entry_ids (key_of job), eq_refl (key_of job)))
  ]

  schedule_all_mono :
      (k : String) (part : List Job) (jm : JobManager C)
      → lookup k jm.entry_ids ≢ none
      → lookup k (schedule_all api part jm).entry_ids ≢ none
  unfolding schedule_all
  schedule_all_mono k [] jm h = h
  schedule_all_mono k (job ∷ part) jm h =
      schedule_all_mono k part (schedule_job api job jm) (schedule_mono k job jm h)

  schedule_all-HasEntry :
      (part : List Job) (jm : JobManager C)
      → All (HasEntry (schedule_all api part jm).entry_ids) part
  unfolding schedule_all
  schedule_all-HasEntry [] jm = tt
  schedule_all-HasEntry (job ∷ part) jm = (
    λ parses.
        schedule_all_mono (key_of job) part (schedule_job api job jm) (schedule_self job jm parses),
    schedule_all-HasEntry part (schedule_job api job jm),
  )

  -- While the scheduler runs, every registered job whose schedule parses has an entry.
  pub record IsCovered (jm : JobManager C) : Type 0 where
    pub consistent : IsConsistent api jm
    pub colon_free : All (λ j. IsColonFree j.tenant_id) jm.jobs
    pub covered : jm.is_running ≡ true → All (HasEntry jm.entry_ids) jm.jobs

  schedule-covers :
      (job : Job) (jobs : List Job) (jm : JobManager C)
      → jm.jobs ≡ jobs ++ job ∷ []
      → All (HasEntry jm.entry_ids) jobs
      → All (HasEntry (schedule_job api job jm).entry_ids) (schedule_job api job jm).jobs
  schedule-covers job jobs jm e a =
      subst (All (HasEntry (schedule_job api job jm).entry_ids))
        (sym ((schedule_job-frame api job jm).3 ∙ e))
        (All-snoc (HasEntry (schedule_job api job jm).entry_ids) jobs job
          (All-mono _ _ jobs (λ j h parses. schedule_mono (key_of j) job jm (h parses)) a)
          (schedule_self job jm))

  register-IsCovered :
      (job : Job) (call : Call) (w : World C)
      → IsColonFree job.tenant_id
      → IsConsistent api (register_job api job call w).jm
      → IsCovered w.jm
      → IsCovered (register_job api job call w).jm
  register-IsCovered job call w f k v =
      elim (Bool-cases (already_registered (key_of job) w.jm.jobs)) [
        | inl old ↦ rw (register-old api job call w old) v
        | inr new ↦ elim (Bool-cases w.jm.is_running) [
          | inr idle ↦ record {
            consistent = k;
            colon_free = rw (register-idle api job call w new idle) free;
            covered = λ r. absurd (ground (arith, register-idle api job call w new idle));
          }
          | inl runs ↦ record {
            consistent = k;
            colon_free = rw (register-running api job call w new runs) (
                subst (All (λ j. IsColonFree j.tenant_id))
                  (sym ((schedule_job-frame api job (added api job w.jm)).3)) free);
            covered = λ r.
                rw (register-running api job call w new runs)
                  (schedule-covers job w.jm.jobs (added api job w.jm) refl (v.covered runs));
          }
        ]
      ]
    where
      free : All (λ j. IsColonFree j.tenant_id) (w.jm.jobs ++ job ∷ [])
      free = All-snoc (λ j. IsColonFree j.tenant_id) w.jm.jobs job v.colon_free f

  unschedule-other :
      (k key : String) (jm : JobManager C)
      → str_eq k key ≡ false
      → lookup k jm.entry_ids ≢ none
      → lookup k (unschedule api key jm).entry_ids ≢ none
  unfolding unschedule
  unschedule-other k key jm ne h = elim (Option-cases (lookup key jm.entry_ids)) [
    | inl e ↦ rw (e, unschedule) h
    | inr (id, e) ↦
        rw (e, unschedule, lookup-erase_ne key k jm.entry_ids (λ q. ne_of_test k key ne (sym q))) h
  ]

  unregister-IsCovered :
      (name t : String) (call : Call) (w : World C)
      → IsColonFree t
      → IsConsistent api (unregister_job api name t call w).jm
      → IsCovered w.jm
      → IsCovered (unregister_job api name t call w).jm
  unregister-IsCovered name t call w f k v = record {
    consistent = k;
    colon_free =
        rw (unregister-jobs api name t call w)
          (All-remove (λ j. IsColonFree j.tenant_id) name t w.jm.jobs v.colon_free);
    covered = λ r.
        let runs = sym (unregister-running api name t call w) ∙ r in
        rw (unregister-jobs api name t call w, unregister-entry_ids api name t call w runs)
          (All-both _ _ _ (remove_job name t w.jm.jobs)
            (λ j ne h parses. unschedule-other (key_of j) (job_key name t) w.jm ne (h parses))
            (remove-other_keys name t w.jm.jobs f v.colon_free v.consistent.distinct)
            (All-remove (HasEntry w.jm.entry_ids) name t w.jm.jobs (v.covered runs)));
  }

  start-IsCovered :
      (jm : JobManager C)
      → IsConsistent api (start_scheduler api jm)
      → IsCovered jm
      → IsCovered (start_scheduler api jm)
  start-IsCovered jm k v = elim (Bool-cases jm.is_running) [
    | inl runs ↦ rw (start-running api jm runs) v
    | inr idle ↦ record {
      consistent = k;
      colon_free = rw (start-jobs api jm) v.colon_free;
      covered = λ r.
          rw (start-jobs api jm, start-entry_ids api jm idle) (schedule_all-HasEntry jm.jobs jm);
    }
  ]

  step-IsCovered :
      (op : Op) (w : World C) → NamesColonFree op → IsCovered w.jm → IsCovered (step api op w).jm
  unfolding step
  step-IsCovered (register job call) w f v =
      register-IsCovered job call w f (step-IsConsistent api (register job call) w v.consistent) v
  step-IsCovered (unregister name t call) w f v =
      unregister-IsCovered name t call w f
        (step-IsConsistent api (unregister name t call) w v.consistent) v
  step-IsCovered start w f v = start-IsCovered w.jm (step-IsConsistent api start w v.consistent) v
  step-IsCovered stop w f v = record {
    consistent = step-IsConsistent api stop w v.consistent;
    colon_free = rw (stop-jobs api w.jm) v.colon_free;
    covered = λ r.
        let kept = stop-entry_ids api w.jm r in rw (stop-jobs api w.jm, kept.1) (v.covered kept.0);
  }

  run-IsCovered :
      (ops : List Op) (w : World C)
      → All NamesColonFree ops
      → IsCovered w.jm
      → IsCovered (run api ops w).jm
  unfolding run
  run-IsCovered [] w f v = v
  run-IsCovered (op ∷ ops) w f v = run-IsCovered ops (step api op w) f.1 (step-IsCovered op w f.0 v)

  -- Where no tenant id in the calls has a colon: after any calls of the methods of a new manager, if
  -- the scheduler is running, every job in the manager's list whose schedule always parses has an
  -- entry.
  pub reachable-HasEntry :
      (instance_id : String) (registered : Registered) (ops : List Op)
      → All NamesColonFree ops
      → (run api ops (init api instance_id registered)).jm.is_running ≡ true
      → (before : List Job) (job : Job) (after : List Job)
      → (run api ops (init api instance_id registered)).jm.jobs ≡ before ++ job ∷ after
      → ((c : C) → api.add_func job.schedule job c ≢ none)
      → lookup (key_of job) (run api ops (init api instance_id registered)).jm.entry_ids ≢ none
  unfolding init new_job_manager
  reachable-HasEntry instance_id registered ops f r before job after e =
      All-at _ before job after (subst (All (HasEntry _)) e (covered_after.covered r))
    where
      bare : IsCovered (init api instance_id registered).jm
      bare = record {
        consistent = record { distinct = tt; owned = tt; idle = λ e. refl };
        colon_free = tt;
        covered = λ e. tt;
      }

      covered_after : IsCovered (run api ops (init api instance_id registered)).jm
      covered_after = run-IsCovered ops (init api instance_id registered) f bare
