-- ===== src/Routines/Stop.antt =====
-- What a stop of the scheduler does to the clean-up routine.
use cron_lib.Base.{
  ℕ, ◌≡◌, refl, String, Bool, true, false, Option, none, some, arith, Bool-cases, inl, inr,
}
use cron_lib.Jobs.{Jobs}
use cron_lib.Registry.{Registered}
use cron_lib.Manager.State.{CronApi, JobManager, World}
use cron_lib.Manager.Methods.{start_scheduler, start_cleanup_routine}
use cron_lib.Manager.Lifecycle.{
  Op, register, unregister, start, stop, step, IsBare, step-IsBare, init-IsBare, step-running,
}
use cron_lib.Routines.Process.{
  Routine, absent, sweeping, returned, selecting, Process, spawned, call, ◌⟶◌, called, swept,
  ticked, told, cancelled, done, others, ◌⟶*◌, here, then, new_process,
}

-- Not in a `select` with a channel that is not nil.
abbrev pub on_nil : Routine → Bool
on_nil (selecting (some c)) = false
on_nil (selecting none) = true
on_nil absent = true
on_nil sweeping = true
on_nil returned = true

select_nil : (c : Option ℕ) → c ≡ none → on_nil (selecting c) ≡ true
select_nil none e = refl
select_nil (some c) e = ground arith

module _ {C : Type 0} (api : CronApi C) where
  pub record IsSound (p : Process C) : Type 0 where
    pub bare : IsBare api p.world.jm
    idle : p.world.jm.is_running ≡ false → p.routine ≡ absent
    nil : on_nil p.routine ≡ true
    ended : p.routine ≡ returned → p.is_done ≡ true

  is_started : (w : World C) → (step api start w).jm.is_running ≡ true
  unfolding step start_scheduler start_cleanup_routine
  is_started w = elim (Bool-cases w.jm.is_running) [ inl e ↦ ground arith | inr e ↦ ground arith ]

  -- A method call that leaves the scheduler stopped has started no routine.
  spawned_idle :
      (op : Op) (p : Process C)
      → IsSound p
      → (step api op p.world).jm.is_running ≡ false
      → spawned api op p.world.jm p.routine ≡ absent
  spawned_idle op p h e = elim (Bool-cases p.world.jm.is_running) [
    | inl r ↦ absurd (ground (arith, step-running api op p.world h.bare r))
    | inr r ↦ not_started op e r
  ]
    where
      not_started :
          (o : Op)
          → (step api o p.world).jm.is_running ≡ false
          → p.world.jm.is_running ≡ false
          → spawned api o p.world.jm p.routine ≡ absent
      not_started start e' r = absurd (ground (arith, is_started p.world))
      not_started (register job c) e' r = h.idle r
      not_started (unregister job_name tenant_id c) e' r = h.idle r
      not_started stop e' r = h.idle r

  spawned_nil :
      (op : Op) (jm : JobManager C) (routine : Routine)
      → on_nil routine ≡ true
      → on_nil (spawned api op jm routine) ≡ true
  spawned_nil start jm routine e = ground arith
  spawned_nil (register job c) jm routine e = e
  spawned_nil (unregister job_name tenant_id c) jm routine e = e
  spawned_nil stop jm routine e = e

  spawned_returned :
      (op : Op) (jm : JobManager C) (routine : Routine)
      → spawned api op jm routine ≡ returned
      → routine ≡ returned
  spawned_returned start jm routine e = ground arith
  spawned_returned (register job c) jm routine e = e
  spawned_returned (unregister job_name tenant_id c) jm routine e = e
  spawned_returned stop jm routine e = e

  call-IsSound : (op : Op) (p : Process C) → IsSound p → IsSound (call api op p)
  unfolding call
  call-IsSound op p h = record {
    bare = step-IsBare api op p.world h.bare;
    idle = spawned_idle op p h;
    nil = spawned_nil op p.world.jm p.routine h.nil;
    ended = λ e. h.ended (spawned_returned op p.world.jm p.routine e);
  }

  step-IsSound : (p q : Process C) → ◌⟶◌ api p q → IsSound p → IsSound q
  step-IsSound p q (called op) h = call-IsSound op p h
  step-IsSound p q (swept calls order e) h = record {
    bare = h.bare;
    idle = λ x. absurd (ground (arith, h.idle x));
    nil = select_nil p.world.jm.stop_cleanup h.bare.no_channel;
    ended = λ x. ground arith;
  }
  step-IsSound p q (ticked c e t) h = record {
    bare = h.bare;
    idle = λ x. absurd (ground (arith, h.idle x));
    nil = refl;
    ended = λ x. ground arith;
  }
  step-IsSound p q (told c e k) h = absurd (ground (arith, h.nil))
  step-IsSound p q (cancelled c e k) h = record {
    bare = h.bare;
    idle = λ x. absurd (ground (arith, h.idle x));
    nil = refl;
    ended = λ x. k;
  }
  step-IsSound p q done h = record { bare = h.bare; idle = h.idle; nil = h.nil; ended = λ x. refl }
  step-IsSound p q (others rows) h = record {
    bare = h.bare;
    idle = h.idle;
    nil = h.nil;
    ended = h.ended;
  }

  pub steps-IsSound : (p q : Process C) → ◌⟶*◌ api p q → IsSound p → IsSound q
  steps-IsSound p q here h = h
  steps-IsSound p q (then {q = m} s t) h = steps-IsSound m q t (step-IsSound p m s h)

  pub new-IsSound :
      (instance_id : String) (registered : Registered) (rows : Jobs)
      → IsSound (new_process api instance_id registered rows)
  new-IsSound instance_id registered rows = record {
    bare = init-IsBare api instance_id registered;
    idle = λ e. refl;
    nil = refl;
    ended = λ e. ground arith;
  }

  -- In a process with a new manager, whatever is called and in whatever order things happen, the routine
  -- is not in its `select` with a channel that could be closed, and it has returned only if the
  -- manager's context is done: no StopScheduler ends it. And there is at most one, since while the
  -- scheduler is not running none was started.
  pub routine_ends_with_context :
      (instance_id : String) (registered : Registered) (rows : Jobs) (p : Process C)
      → ◌⟶*◌ api (new_process api instance_id registered rows) p
      → (on_nil p.routine ≡ true)
        × (p.routine ≡ returned → p.is_done ≡ true)
        × (p.world.jm.is_running ≡ false → p.routine ≡ absent)
  routine_ends_with_context instance_id registered rows p steps =
      let h = steps-IsSound _ p steps (new-IsSound instance_id registered rows) in
      (h.nil, h.ended, h.idle)
