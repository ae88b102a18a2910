-- ===== src/WebUi/Agent.antt =====
-- internal/webui/agent.go: the agent of a receiver, with its two slots for work: a download and a
-- command. A context is known by a number; the context of a job is a child of the agent's own.
pub mod Runs
pub mod Control
pub mod Resolve
use go_silver_core.Prelude.{
  ℕ, suc, ◌+◌, Bool, true, false, not, ◌&&◌, ◌||◌, Option, none, some, List, [], ◌∷◌, ◌++◌, Str,
  codes, map, any, filter, if◌then◌else◌, ◌==◌,
}
use go_silver_core.Folders.{same}
use go_silver_core.Server.Sched.{is_empty}
use go_silver_core.WebUi.{
  Status, idle, running, seeding, completed, ended, is_running, failure, Err, context_canceled,
  busy, Result, ok, err, Progress, TaskState, Command,
}

-- A goroutine that `launch` or `launchCommand` started and that taskWG counts: it works until it
-- has written the outcome, and then it leaves.
pub record Job : Type 0 where
  pub ctx : ℕ
  pub id : Str
  pub cancelled : Bool
  pub leaving : Bool

-- The fields for one kind of work: `task`, `taskCancel`, or `commandTask`, `commandCancel`, and the
-- goroutines of this kind.
pub record Slot : Type 0 where
  pub state : TaskState
  pub cancel : Option ℕ
  pub jobs : List Job

abbrev pub idle_task : TaskState
idle_task = record { id = []; kind = []; status = idle; error = none; output = []; progress = none }

abbrev pub empty_slot : Slot
empty_slot = record { state = idle_task; cancel = none; jobs = [] }

-- How far `close` has come.
pub data Closing : Type 0 where
  open_ stopped_ waited closed : Closing

-- `agent`; `stopped` says that its context was cancelled, `dirs` are the cache directories on disk.
pub record Agent : Type 0 where
  pub root : Str
  pub token : Str
  pub sender_addr : Str
  pub allow_commands : Bool
  pub stopped : Bool
  pub next_ctx : ℕ
  pub download : Slot
  pub command : Slot
  pub cache : List Str
  pub dirs : List Str
  pub closing : Closing

-- The slot after a launch: what `launch` and `launchCommand` do under the lock.
unfoldable pub launch_in : Bool → ℕ → Str → Str → Slot → Result TaskState × Slot
launch_in stopped ctx kind id s =
    let t = record idle_task { id = id; kind = kind; status = running } in
    if stopped
    then (err context_canceled, s)
    else if is_running s.state.status
    then (err busy, s)
    else (
      ok t,
      record {
        state = t;
        cancel = some ctx;
        jobs = record { ctx = ctx; id = id; cancelled = false; leaving = false } ∷ s.jobs;
      },
    )

abbrev pub cancel_job : ℕ → Job → Job
cancel_job c j = if j.ctx == c then record j { cancelled = true } else j

-- `cancelTask` and `cancelCommand`
unfoldable pub cancel_in : Slot → Slot
cancel_in s = elim s.cancel [ none ↦ s | some c ↦ record s { jobs = map (cancel_job c) s.jobs } ]

abbrev pub outcome : Status → Option Err → TaskState → TaskState
outcome good none t = record t { status = good }
outcome good (some e) t = record t { status = failure e; error = some e }

abbrev pub depart : ℕ → Job → Job
depart c j = if j.ctx == c then record j { leaving = true } else j

-- The end of a goroutine's body: the outcome, under the lock.
unfoldable pub finish_in : Status → ℕ → Option Err → Slot → Slot
finish_in good c e s = record s { state = outcome good e s.state; jobs = map (depart c) s.jobs }

-- Its deferred `cancel` and `taskWG.Done`.
unfoldable pub leave_in : ℕ → Slot → Slot
leave_in c s = record s { jobs = filter (λ j. not (j.ctx == c && j.leaving)) s.jobs }

abbrev pub is_working : ℕ → List Job → Bool
is_working c jobs = any (λ j. j.ctx == c && not j.leaving) jobs

-- The two slots of an agent: `launch`, `launchCommand`.
unfoldable pub launch : Str → Agent → Result TaskState × Agent
unfolding launch_in
launch id a =
    let (r, s) = launch_in a.stopped a.next_ctx (codes "download") id a.download in
    (r, record a { download = s; next_ctx = a.next_ctx + 1 })

unfoldable pub launch_command : Command → Agent → Result TaskState × Agent
unfolding launch_in
launch_command c a =
    let (r, s) = launch_in a.stopped a.next_ctx (codes "command") c.id a.command in
    (r, record a { command = s; next_ctx = a.next_ctx + 1 })

unfoldable pub cancel_task : Agent → Agent
unfolding cancel_in
cancel_task a = record a { download = cancel_in a.download }

unfoldable pub cancel_command : Agent → Agent
unfolding cancel_in
cancel_command a = record a { command = cancel_in a.command }

unfoldable pub finish_download : ℕ → Option Err → Agent → Agent
unfolding finish_in
finish_download c e a = record a { download = finish_in seeding c e a.download }

unfoldable pub finish_command : ℕ → Option Err → Agent → Agent
unfolding finish_in
finish_command c e a = record a { command = finish_in completed c e a.command }

-- The callback of a download, and the output that `execute` keeps.
unfoldable pub report_progress : Progress → Agent → Agent
report_progress p a = record a {
  download = record a.download { state = record a.download.state { progress = some p } };
}

unfoldable pub keep_output : Str → Agent → Agent
keep_output text a = record a {
  command = record a.command { state = record a.command.state { output = text } };
}

-- os.RemoveAll, which is taken to succeed.
abbrev pub remove_all : Str → List Str → List Str
remove_all p dirs = filter (λ d. not (same d p)) dirs

-- The cache directory of an archive, made with a name that is not in use.
unfoldable pub make_cache : Str → Agent → Agent
make_cache p a = record a { cache = a.cache ++ p ∷ []; dirs = p ∷ a.dirs }

unfoldable pub remove_cache : Str → Agent → Agent
remove_cache p a = record a {
  cache = filter (λ q. not (same q p)) a.cache;
  dirs = remove_all p a.dirs;
}

abbrev pub remove_each : List Str → List Str → List Str
remove_each [] dirs = dirs
remove_each (p ∷ ps) dirs = remove_each ps (remove_all p dirs)

unfoldable pub prune_caches : Str → Agent → Agent
prune_caches current a = record a {
  cache = filter (λ p. same p current) a.cache;
  dirs = remove_each (filter (λ p. not (same p current)) a.cache) a.dirs;
}

-- `close`: the context is cancelled first; when all goroutines are gone, the task is marked and the
-- caches are removed.
unfoldable pub stop : Agent → Agent
stop a = record a { stopped = true; closing = stopped_ }

unfoldable pub end_task : Slot → Slot
end_task s =
    if is_empty s.state.id then s else record s { state = record s.state { status = ended } }

unfoldable pub end_all : Agent → Agent
unfolding end_task
end_all a = record a {
  download = end_task a.download;
  dirs = remove_each a.cache a.dirs;
  closing = closed;
}
