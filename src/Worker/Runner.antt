-- ===== src/Worker/Runner.antt =====
-- src/worker/runner.py, _process_job: a handler acts on a state `S` of its own, and the lock is the value
-- under the key of the job's thread. What other workers do meanwhile is in Worker.Locks. The metrics and
-- log lines are left out.
use cmo_agent.Common.{
  String, ◌≡◌, Bool, true, false, Option, none, some, str_eq, if◌then◌else◌, arith,
}
use cmo_agent.Common.Text.{str_eq_refl}
use cmo_agent.Worker.Locks.{acquire, release}

pub data JobResult : Type 0 where
  completed no_handler lock_conflict : JobResult
  handler_raised : String → JobResult

-- `if thread_id:`
abbrev pub has_thread : Option String → Bool
has_thread none = false
has_thread (some t) = if str_eq t "" then false else true

module _ (Payload S : Type 0) where
  pub record RunnerJob : Type 0 where
    pub job_type : String
    pub workspace_id : String
    pub payload : Payload
    pub thread_id : Option String

  -- `none` for a handler that returns, and the text of what it raises
  abbrev pub Handler : Type 0
  Handler = Payload → String → S → Option String × S

  abbrev pub result_of : Option String → JobResult
  result_of none = completed
  result_of (some exc) = handler_raised exc

  -- `async with thread_lock(...)`; the lock is given back when the handler raises, too
  abbrev pub run_locked :
      Handler → RunnerJob → String → Bool × Option String → S → JobResult × Option String × S
  run_locked h job token (false, lock) s = (lock_conflict, lock, s)
  run_locked h job token (true, lock) s =
      let (raised, s') = h job.payload job.workspace_id s in
      (result_of raised, (release token lock).1, s')

  abbrev pub dispatch :
      Option Handler → RunnerJob → String → Option String → S → JobResult × Option String × S
  dispatch none job token lock s = (no_handler, lock, s)
  dispatch (some h) job token lock s =
      if has_thread job.thread_id
      then run_locked h job token (acquire token lock) s
      else (let (raised, s') = h job.payload job.workspace_id s in (result_of raised, lock, s'))

  unfoldable pub process_job :
      (String → Option Handler)
      → RunnerJob
      → String
      → Option String
      → S
      → JobResult × Option String × S
  process_job handlers job token lock s = dispatch (handlers job.job_type) job token lock s

  module _ (handlers : String → Option Handler) (job : RunnerJob) (token : String) (s : S) where
    -- A job on a thread whose lock is taken fails with the conflict, without running its handler, and
    -- leaves the lock to its holder.
    pub conflict_untouched :
        (h : Handler) (holder : String)
        → handlers job.job_type ≡ some h
        → has_thread job.thread_id ≡ true
        → process_job handlers job token (some holder) s ≡ (lock_conflict, some holder, s)
    unfolding process_job acquire
    conflict_untouched h holder e t = ground arith

    -- A job that has a handler and finds the lock of its thread free, or has no thread, runs the handler
    -- once, reports what it raised, if anything, and leaves the lock free in either case.
    pub runs_once :
        (h : Handler)
        → handlers job.job_type ≡ some h
        → let (raised, s') = h job.payload job.workspace_id s in
          process_job handlers job token none s ≡ (result_of raised, none, s')
    unfolding process_job acquire release
    runs_once h e = ground (arith, str_eq_refl token)
