-- ===== src/Migrations/Laws.antt =====
-- What the migration handlers answer, and a second RegisterHandler.
use Prim.Native.Char.{code}
use Prim.Native.String.{String, ◌++◌ as append}
use text.Mathlib.TextLemmas.{nil-append, cons-append}
use cron_lib.Base.{
  ℕ, ◌≡◌, refl, ap, ◌∙◌, Bool, true, false, Option, some, List, [], ◌∷◌, ◌++◌, arith, Bool-cases,
  inl, inr,
}
use cron_lib.Manager.Keys.{codes}
use cron_lib.Manager.State.{CronApi, JobManager}
use cron_lib.Manager.Methods.{init_job_manager, start_scheduler, start_cleanup_routine}
use cron_lib.Api.{no_body, respond}
use cron_lib.Migrations.{
  starts_with, is_infix, contains, migrate, new_store, handle_migrate_down, Process,
  register_handler,
}

codes-append : (a b : String) → codes (append a b) ≡ codes a ++ codes b
codes-append String.[] b = ap codes (nil-append b)
codes-append (String.◌∷◌ c a) b =
    ap codes (cons-append c a b) ∙ ap (◌∷◌ (code c)) (codes-append a b)

starts_with-append : (ps cs : List ℕ) → starts_with ps (ps ++ cs) ≡ true
unfolding starts_with
starts_with-append [] cs = refl
starts_with-append (p ∷ ps) cs = ground (arith, starts_with-append ps cs)

-- A text that starts with the pattern has it, also the empty one.
start-is_infix : (ps cs : List ℕ) → starts_with ps cs ≡ true → is_infix ps cs ≡ true
unfolding is_infix
start-is_infix ps [] h = h
start-is_infix ps (c ∷ cs) h = rw h refl

is_infix-append : (before ps after : List ℕ) → is_infix ps (before ++ (ps ++ after)) ≡ true
unfolding is_infix
is_infix-append [] ps after = start-is_infix ps (ps ++ after) (starts_with-append ps after)
is_infix-append (c ∷ before) ps after = ground (arith, is_infix-append before ps after)

contains-append : (a p b : String) → contains (append a (append p b)) p ≡ true
unfolding contains
contains-append a p b =
    rw (codes-append a (append p b), codes-append p b)
      (is_infix-append (codes a) (codes p) (codes b))

module _ {S : Type 0} where
  -- A migration down whose error mentions TRUNCATE anywhere is answered to a super admin like one that
  -- succeeded, 204, with the database as the migration left it.
  pub handle_migrate_down-truncate :
      (down : S → Option String × S) (a b : String) (s s' : S)
      → down s ≡ (some (append a (append "TRUNCATE" b)), s')
      → handle_migrate_down down true s ≡ (respond 204 no_body, s')
  unfolding handle_migrate_down
  handle_migrate_down-truncate down a b s s' e = rw (e, contains-append a "TRUNCATE" b) refl

  migrate-migrate :
      (up : S → Option String × S) (once : Bool × S)
      → migrate up (migrate up once) ≡ migrate up once
  unfolding migrate
  migrate-migrate up (true, s) = refl
  migrate-migrate up (false, s) = refl

module _ {C S : Type 0} (api : CronApi C) (up : S → Option String × S) where
  start_running : (jm : JobManager C) → jm.is_running ≡ true → start_scheduler api jm ≡ jm
  unfolding start_scheduler
  start_running jm e = rw e refl

  is_started : (jm : JobManager C) → (start_scheduler api jm).is_running ≡ true
  unfolding start_scheduler start_cleanup_routine
  is_started jm = elim (Bool-cases jm.is_running) [ inl e ↦ ground arith | inr e ↦ ground arith ]

  start-start :
      (jm : JobManager C) → start_scheduler api (start_scheduler api jm) ≡ start_scheduler api jm
  start-start jm = start_running (start_scheduler api jm) (is_started jm)

  -- A process that registers the handlers again gets neither a second manager or scheduler nor a second
  -- migration: everything is as after the first time, whatever id the new manager would have had.
  pub register_handler-again :
      (first second : String) (p : Process C S)
      → register_handler api up second (register_handler api up first p)
        ≡ register_handler api up first p
  unfolding register_handler init_job_manager new_store
  register_handler-again first second p =
      let instance_of = some (start_scheduler api (init_job_manager api first p.instance_of)) in
      rw (start-start (init_job_manager api first p.instance_of))
        (ap (λ once. record { instance_of = instance_of; once = once }) (migrate-migrate up _))
