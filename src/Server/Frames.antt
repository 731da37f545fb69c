-- ===== src/Server/Frames.antt =====
-- The handlers that change a table, and the rows of other tenants.
use cron_lib.Base.{
  ℕ, ◌≡◌, ◌≢◌, refl, ap, ◌∙◌, String, eq_iff, Bool, true, false, Option, none, some, arith,
  select_where, select-delete_frame, select-update_frame,
}
use cron_lib.Schema.{Reply, row}
use cron_lib.Jobs.{Jobs, of_tenant}
use cron_lib.Audit.{AuditLogs}
use cron_lib.Registry.{Registered, enabled_row, update_registered_job_enabled}
use cron_lib.Manager.State.{Fault, answered, lost, refused}
use cron_lib.Execution.World.{Result, ok, err}
use cron_lib.Api.{
  Link, over, deleted, then_shown, delete_job, delete_job_audit_log, update_registered_job,
}
use cron_lib.Store.{TxCalls, handle_seed, seeded, seed_reference_data, seed_sample_data}
use cron_lib.Server.Views.{entry_of, registration_of}

-- After the operation the view is what it was.
abbrev pub Keeps : {S R V : Type 0} → (S → V) → (S → R × S) → S → Type 0
Keeps view f s = view (f s).1 ≡ view s

module _ (no_rows_text : String) where
  over-Keeps :
      {S A V : Type 0} (view : S → V) (link : Link) (f : S → Reply A × S) (s : S)
      → Keeps view f s
      → Keeps view (over no_rows_text link f) s
  over-Keeps view link f s h = settled_over link.fault
    where
      settled_over :
          (x : Fault) → view (cron_lib.Api.settled no_rows_text link x s (f s)).1 ≡ view s
      settled_over answered = h
      settled_over lost = h
      settled_over refused = refl

  deleted-Keeps :
      {S V : Type 0} (view : S → V) (f : S → Result ℕ × S) (s : S)
      → Keeps view f s
      → Keeps view (λ x. deleted no_rows_text (f x)) s
  deleted-Keeps view f s h = same (f s) ∙ h
    where
      same : (x : Result ℕ × _) → view (deleted no_rows_text x).1 ≡ view x.1
      same (ok id, s') = refl
      same (err text, s') = refl

  module _ (t u : String) (ne : u ≢ t) where
    pub delete_job-Keeps :
        (id : ℕ) (link : Link) (rows : Jobs)
        → Keeps (select_where (of_tenant u)) (delete_job no_rows_text (some t) id link) rows
    unfolding delete_job cron_lib.Jobs.delete_job
    delete_job-Keeps id link rows =
        deleted-Keeps (select_where (of_tenant u))
          (over no_rows_text link (cron_lib.Jobs.delete_job id t)) rows
          (over-Keeps (select_where (of_tenant u)) link (cron_lib.Jobs.delete_job id t) rows (
            select-delete_frame (of_tenant u) (cron_lib.Jobs.has_id_in id t) rows
              (λ r h. ground (arith, eq_iff r.tenant_id t, eq_iff r.tenant_id u))))

    pub delete_job_audit_log-Keeps :
        (id : ℕ) (link : Link) (rows : AuditLogs)
        → Keeps
            (select_where (entry_of u))
            (delete_job_audit_log no_rows_text (some t) id link)
            rows
    unfolding delete_job_audit_log cron_lib.Audit.delete_job_audit_log
    delete_job_audit_log-Keeps id link rows =
        deleted-Keeps (select_where (entry_of u))
          (over no_rows_text link (cron_lib.Audit.delete_job_audit_log id t)) rows
          (over-Keeps (select_where (entry_of u)) link (cron_lib.Audit.delete_job_audit_log id t)
            rows
            (select-delete_frame (entry_of u) (cron_lib.Audit.has_id_in id t) rows
              (λ r h. ground (arith, eq_iff r.tenant_id t, eq_iff r.tenant_id u))))

    abbrev switch : ℕ → ℕ → Bool → Registered → Reply (Unit {0}) × Registered
    switch now id is_enabled rows = (row tt, update_registered_job_enabled now is_enabled id t rows)

    switch-Keeps :
        (now id : ℕ) (is_enabled : Bool) (rows : Registered)
        → Keeps (select_where (registration_of u)) (switch now id is_enabled) rows
    unfolding update_registered_job_enabled
    switch-Keeps now id is_enabled rows =
        select-update_frame (registration_of u) (cron_lib.Registry.has_id_in id t)
          (enabled_row now is_enabled) rows
          (λ r h. ground (arith, eq_iff r.tenant_id t, eq_iff r.tenant_id u))
          (λ r h. ground (arith, eq_iff r.tenant_id t, eq_iff r.tenant_id u))

    then_shown-rows :
        (id : ℕ) (link : Link) (x : Result (Unit {0}) × Registered)
        → (then_shown no_rows_text t id link x).1 ≡ x.1
    then_shown-rows id link (ok v, rows) = refl
    then_shown-rows id link (err text, rows) = refl

    pub update_registered_job-Keeps :
        (id : ℕ) (body : Result (Option Bool)) (first second : Link) (rows : Registered)
        → Keeps
            (select_where (registration_of u))
            (update_registered_job no_rows_text (some t) id body first second)
            rows
    unfolding update_registered_job
    update_registered_job-Keeps id (err text) first second rows = refl
    update_registered_job-Keeps id (ok none) first second rows = refl
    update_registered_job-Keeps id (ok (some b)) first second rows =
        ap (select_where (registration_of u))
          (then_shown-rows id second (over no_rows_text first (switch first.now id b) rows))
        ∙ over-Keeps (select_where (registration_of u)) first (switch first.now id b) rows
            (switch-Keeps first.now id b rows)

-- The seeding changes nothing so far.
reference-same :
    {S : Type 0} (calls : TxCalls) (t : String) (s : S) → (seed_reference_data calls t s).1 ≡ s
unfolding seed_reference_data
reference-same calls t s = ground arith

sample-same :
    {S : Type 0} (calls : TxCalls) (t : String) (s : S) → (seed_sample_data calls t s).1 ≡ s
unfolding seed_sample_data
sample-same calls t s = ground arith

seed-same :
    {S : Type 0} (seed : String → S → Option String × S) (admin : Bool) (tenant : Option String)
    (s : S)
    → ((t : String) → (seed t s).1 ≡ s)
    → (handle_seed seed admin tenant s).1 ≡ s
unfolding handle_seed
seed-same seed false tenant s h = refl
seed-same seed true none s h = refl
seed-same {S = S} seed true (some t) s h = same (seed t s) ∙ h t
  where
    same : (x : Option String × S) → (seeded x).1 ≡ x.1
    same (none, s') = refl
    same (some text, s') = refl

pub seed_reference-same :
    {S : Type 0} (calls : TxCalls) (admin : Bool) (tenant : Option String) (s : S)
    → (handle_seed (seed_reference_data calls) admin tenant s).1 ≡ s
seed_reference-same calls admin tenant s =
    seed-same (seed_reference_data calls) admin tenant s (λ t. reference-same calls t s)

pub seed_sample-same :
    {S : Type 0} (calls : TxCalls) (admin : Bool) (tenant : Option String) (s : S)
    → (handle_seed (seed_sample_data calls) admin tenant s).1 ≡ s
seed_sample-same calls admin tenant s =
    seed-same (seed_sample_data calls) admin tenant s (λ t. sample-same calls t s)
