-- ===== src/Jobs/Constraints.antt =====
-- The unique constraints of `cron_jobs`: the primary key, and `cron_jobs_uniq` on (tenant_id, lock).
use cron_lib.Base.{
  ℕ, String, str_eq_comm, eq_iff, ◌≡◌, refl, Option-cases, find-eq-none-All, Bool, inl, inr, true,
  false, none, [], ◌∷◌, All, Distinct, Distinct-update, Distinct-delete, Distinct-snoc, find_where,
  arith, update_where, delete_where, Bool-cases,
}
use cron_lib.Schema.{CronJob, varchar}
use cron_lib.Jobs.{
  Jobs, AcquireParams, UpdateJobParams, CreateJobParams, has_key, has_id, has_id_in, clashes,
  acquire_job_lock_in_db, inserted_row, acquired_row, created_row, updated_row, create_job,
  insert_job, update_job, write_job, delete_job, cleanup_old_tasks, cleanup_stale_locks,
  force_unlock_job, release_task_lock, update_job_status_to_completed, update_job_status_to_failed,
  update_job_heartbeat, heartbeat_row, unlocked_row,
}
use cron_lib.Jobs.Statements.{Stmt, exec}

abbrev pub same_key : CronJob → CronJob → Bool
same_key r s = has_key r.tenant_id r.lock s

abbrev pub same_id : CronJob → CronJob → Bool
same_id r s = has_id r.id s

pub record IsKeyed (rows : Jobs) : Type 0 where
  pub ids : Distinct same_id rows
  pub keys : Distinct same_key rows

acquire-other_key :
    (now new_id : ℕ) (p : AcquireParams) (x : CronJob) (rows : Jobs)
    → has_key p.tenant_id p.lock x ≡ false
    → All (λ y. same_key x y ≡ false) rows
    → All (λ y. same_key x y ≡ false) (acquire_job_lock_in_db now new_id p rows).1
unfolding acquire_job_lock_in_db acquired_row inserted_row
acquire-other_key now new_id p x [] h a =
    ground (arith, str_eq_comm x.tenant_id p.tenant_id, str_eq_comm x.lock p.lock)
acquire-other_key now new_id p x (y ∷ ys) h a =
    ground (arith, acquire-other_key now new_id p x ys h a.1)

pub acquire-keys :
    (now new_id : ℕ) (p : AcquireParams) (rows : Jobs)
    → Distinct same_key rows
    → Distinct same_key (acquire_job_lock_in_db now new_id p rows).1
unfolding acquire_job_lock_in_db acquired_row
acquire-keys now new_id p [] d = (tt, tt)
acquire-keys now new_id p (r ∷ rs) d =
    ground (arith, acquire-keys now new_id p rs d.1, acquire-other_key now new_id p r rs)

-- No row has the id.
abbrev pub IsFresh : ℕ → Jobs → Type 0
IsFresh id rows = All (λ y. has_id id y ≡ false) rows

acquire-other_id :
    (now new_id : ℕ) (p : AcquireParams) (x : CronJob) (rows : Jobs)
    → has_id new_id x ≡ false
    → All (λ y. same_id x y ≡ false) rows
    → All (λ y. same_id x y ≡ false) (acquire_job_lock_in_db now new_id p rows).1
unfolding acquire_job_lock_in_db acquired_row inserted_row
acquire-other_id now new_id p x [] h a = ground arith
acquire-other_id now new_id p x (y ∷ ys) h a =
    ground (arith, acquire-other_id now new_id p x ys h a.1)

acquire-ids :
    (now new_id : ℕ) (p : AcquireParams) (rows : Jobs)
    → IsFresh new_id rows
    → Distinct same_id rows
    → Distinct same_id (acquire_job_lock_in_db now new_id p rows).1
unfolding acquire_job_lock_in_db acquired_row
acquire-ids now new_id p [] f d = (tt, tt)
acquire-ids now new_id p (r ∷ rs) f d =
    ground (arith, acquire-ids now new_id p rs f.1 d.1, acquire-other_id now new_id p r rs f.0 d.0)

no_key-All :
    (x : CronJob) (rows : Jobs)
    → find_where (has_key x.tenant_id x.lock) rows ≡ none
    → All (λ y. same_key y x ≡ false) rows
no_key-All x [] h = tt
no_key-All x (y ∷ ys) h =
    ground (arith, str_eq_comm x.tenant_id y.tenant_id, str_eq_comm x.lock y.lock, no_key-All x ys)

no_id-All : (x : CronJob) (rows : Jobs) → IsFresh x.id rows → All (λ y. same_id y x ≡ false) rows
no_id-All x [] f = tt
no_id-All x (y ∷ ys) f = ground (arith, no_id-All x ys f.1)

insert-IsKeyed :
    (now new_id : ℕ) (status : String) (p : CreateJobParams) (rows : Jobs)
    → IsFresh new_id rows
    → IsKeyed rows
    → IsKeyed (insert_job now new_id status p rows).1
unfolding insert_job
insert-IsKeyed now new_id status p rows f k =
    elim (Option-cases (find_where (has_key p.tenant_id p.lock) rows)) [
      | inl e ↦
          rw (e, insert_job)
            (record {
              ids = Distinct-snoc same_id rows x (no_id-All x rows f) k.ids;
              keys = Distinct-snoc same_key rows x (no_key-All x rows e) k.keys;
            })
      | inr (r, e) ↦ rw (e, insert_job) k
    ]
  where
    x : CronJob
    x = created_row now new_id status p

create-IsKeyed :
    (now new_id : ℕ) (p : CreateJobParams) (rows : Jobs)
    → IsFresh new_id rows
    → IsKeyed rows
    → IsKeyed (create_job now new_id p rows).1
unfolding create_job
create-IsKeyed now new_id p rows f k = elim (Option-cases (varchar 20 p.job_name)) [
  | inl e ↦ rw (e, create_job) k
  | inr (status, e) ↦ rw (e, create_job) (insert-IsKeyed now new_id status p rows f k)
]

-- An update of other columns.
update-IsKeyed :
    (p : CronJob → Bool) (f : CronJob → CronJob) (rows : Jobs)
    → ((x : CronJob) → (f x).id ≡ x.id)
    → ((x : CronJob) → (f x).tenant_id ≡ x.tenant_id)
    → ((x : CronJob) → (f x).lock ≡ x.lock)
    → IsKeyed rows
    → IsKeyed (update_where p f rows)
update-IsKeyed p f rows i t l k = record {
  ids = Distinct-update same_id p f rows (λ x y. rw (i x) refl) (λ x y. rw (i y) refl) k.ids;
  keys =
      Distinct-update same_key p f rows (λ x y. rw (t x, l x) refl) (λ x y. rw (t y, l y) refl)
        k.keys;
}

unlock-IsKeyed :
    (p : CronJob → Bool) (status : String) (now : ℕ) (rows : Jobs)
    → IsKeyed rows
    → IsKeyed (update_where p (unlocked_row status now) rows)
unlock-IsKeyed p status now rows k =
    update-IsKeyed p (unlocked_row status now) rows (λ x. refl) (λ x. refl) (λ x. refl) k

delete-IsKeyed : (p : CronJob → Bool) (rows : Jobs) → IsKeyed rows → IsKeyed (delete_where p rows)
delete-IsKeyed p rows k = record {
  ids = Distinct-delete same_id p rows k.ids;
  keys = Distinct-delete same_key p rows k.keys;
}

module _ (now : ℕ) (p : UpdateJobParams) where
  abbrev target : CronJob → Bool
  target = has_id_in p.id p.tenant_id

  renamed-other_key :
      (r : CronJob) (rows : Jobs)
      → target r ≡ false
      → clashes p r ≡ false
      → All (λ y. same_key r y ≡ false) rows
      → All (λ y. same_key r y ≡ false) (update_where target (updated_row now p) rows)
  renamed-other_key r [] t c a = tt
  renamed-other_key r (y ∷ ys) t c a = ground (
    arith,
    renamed-other_key r ys t c a.1,
    eq_iff r.tenant_id p.tenant_id,
    eq_iff y.tenant_id p.tenant_id,
    eq_iff y.tenant_id r.tenant_id,
    eq_iff p.lock r.lock,
    eq_iff r.lock p.lock,
  )

  -- Past the updated row no row is updated, since ids are distinct, and none has the new key.
  renamed-rest :
      (r : CronJob) (rows : Jobs)
      → target r ≡ true
      → All (λ y. clashes p y ≡ false) rows
      → All (λ y. same_id r y ≡ false) rows
      → All
          (λ y. same_key (updated_row now p r) y ≡ false)
          (update_where target (updated_row now p) rows)
  renamed-rest r [] t c a = tt
  renamed-rest r (y ∷ ys) t c a = ground (
    arith,
    renamed-rest r ys t c.1 a.1,
    eq_iff r.tenant_id p.tenant_id,
    eq_iff y.tenant_id p.tenant_id,
    eq_iff y.tenant_id r.tenant_id,
  )

  renamed-keys :
      (rows : Jobs)
      → All (λ y. clashes p y ≡ false) rows
      → Distinct same_id rows
      → Distinct same_key rows
      → Distinct same_key (update_where target (updated_row now p) rows)
  renamed-keys [] c i d = tt
  renamed-keys (r ∷ rs) c i d = elim (Bool-cases (target r)) [
    | inl t ↦ rw t (renamed-rest r rs t c.1 i.0, renamed-keys rs c.1 i.1 d.1)
    | inr t ↦ rw t (renamed-other_key r rs t c.0 d.0, renamed-keys rs c.1 i.1 d.1)
  ]

  write_job-IsKeyed : (rows : Jobs) → IsKeyed rows → IsKeyed (write_job now p rows).1
  unfolding write_job
  write_job-IsKeyed rows k = elim (Option-cases (find_where target rows)) [
    | inl e ↦ rw (e, write_job) k
    | inr (r, e) ↦ elim (Option-cases (find_where (clashes p) rows)) [
      | inr (s, e') ↦ rw (e, write_job, e') k
      | inl e' ↦
          rw (e, write_job, e')
            (record {
              ids =
                  Distinct-update same_id target (updated_row now p) rows (λ x y. refl)
                    (λ x y. refl) k.ids;
              keys = renamed-keys rows (find-eq-none-All (clashes p) rows e') k.ids k.keys;
            })
    ]
  ]

update_job-IsKeyed :
    (now : ℕ) (p : UpdateJobParams) (rows : Jobs) → IsKeyed rows → IsKeyed (update_job now p rows).1
unfolding update_job
update_job-IsKeyed now p rows k =
    elim (Option-cases (find_where (has_id_in p.id p.tenant_id) rows)) [
      | inl e ↦ rw (e, update_job) k
      | inr (r, e) ↦ elim (Option-cases (varchar 20 p.status)) [
        | inl long ↦ rw (e, update_job, long) k
        | inr (status, fits) ↦
            rw (e, update_job, fits) (write_job-IsKeyed now (record p { status = status }) rows k)
      ]
    ]

-- The ids that the table must not hold for the statement to insert under.
abbrev pub Supplies : Stmt → Jobs → Type 0
Supplies (Stmt.acquire new_id p) rows = IsFresh new_id rows
Supplies (Stmt.create new_id p) rows = IsFresh new_id rows
Supplies _ rows = Unit

-- Every statement of jobs.sql.go that changes the table keeps ids distinct and pairs of tenant and
-- lock distinct, where an inserted row gets an id that no row has.
pub exec-IsKeyed :
    (now : ℕ) (stmt : Stmt) (rows : Jobs)
    → Supplies stmt rows
    → IsKeyed rows
    → IsKeyed (exec now stmt rows)
unfolding exec update_job_status_to_completed update_job_status_to_failed force_unlock_job
    release_task_lock update_job_heartbeat cleanup_old_tasks cleanup_stale_locks delete_job
exec-IsKeyed now (Stmt.acquire new_id p) rows f k = record {
  ids = acquire-ids now new_id p rows f k.ids;
  keys = acquire-keys now new_id p rows k.keys;
}
exec-IsKeyed now (Stmt.create new_id p) rows f k = create-IsKeyed now new_id p rows f k
exec-IsKeyed now (Stmt.update p) rows f k = update_job-IsKeyed now p rows k
exec-IsKeyed now (Stmt.delete id t) rows f k = delete-IsKeyed _ rows k
exec-IsKeyed now (Stmt.force_unlock id t) rows f k = unlock-IsKeyed _ "failed" now rows k
exec-IsKeyed now (Stmt.release_task id t) rows f k = unlock-IsKeyed _ "completed" now rows k
exec-IsKeyed now (Stmt.set_completed id) rows f k = unlock-IsKeyed _ "completed" now rows k
exec-IsKeyed now (Stmt.set_failed id) rows f k = unlock-IsKeyed _ "failed" now rows k
exec-IsKeyed now (Stmt.heartbeat id w) rows f k =
    update-IsKeyed _ (heartbeat_row now) rows (λ x. refl) (λ x. refl) (λ x. refl) k
exec-IsKeyed now (Stmt.clean_old t) rows f k = delete-IsKeyed _ rows k
exec-IsKeyed now (Stmt.clean_stale t) rows f k = unlock-IsKeyed _ "failed" now rows k
