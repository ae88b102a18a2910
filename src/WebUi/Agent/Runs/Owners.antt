-- ===== src/WebUi/Agent/Runs/Owners.antt =====
-- internal/webui/agent.go: which goroutine a shown task belongs to, and what `close` leaves behind.
use go_silver_core.Prelude.{
  ℕ, ◌≤◌, ◌≡◌, refl, subst, sym, Bool, true, false, Option, none, some, List, [], ◌∷◌, Str,
  if◌then◌else◌, ◌==◌, ◌&&◌, not, any, map, ◌⊎◌, inl, inr, Bool-cases, arith,
}
use go_silver_core.WebUi.{running, Command, err, context_canceled, is_running}
use go_silver_core.WebUi.Agent.{
  Agent, Job, Slot, closed, launch, launch_in, launch_command, cancel_in, cancel_job, is_working,
}
use go_silver_core.WebUi.Agent.Runs.{new_agent, Run}
use go_silver_core.WebUi.Agent.Runs.Slots.{working, Owned, Held}
use go_silver_core.WebUi.Agent.Runs.Frame.{is_closed, IsEnded, gone-begun, closed-gone}
use go_silver_core.WebUi.Agent.Runs.Keeps.{idle_slot, new_agent-Inv, Run-Inv}

-- The task of a goroutine at work, and whether a context was cancelled.
abbrev pub worker_id : ℕ → List Job → Option Str
worker_id c [] = none
worker_id c (j ∷ js) = if j.ctx == c && not j.leaving then some j.id else worker_id c js

abbrev pub is_cancelled : ℕ → List Job → Bool
is_cancelled c jobs = any (λ j. j.ctx == c && j.cancelled) jobs

worker-owns :
    (c : ℕ) (id : Str) (cancel : Option ℕ) (js : List Job)
    → Owned id cancel js
    → is_working c js ≡ true
    → (worker_id c js ≡ some id) × (cancel ≡ some c) × (1 ≤ working js)
worker-owns c id cancel [] o w = absurd (cc)
worker-owns c id cancel (j ∷ js) o w = elim (Bool-cases (j.ctx == c && not j.leaving)) [
  | inl this ↦ ground (arith, o.0)
  | inr other ↦ ground (arith, worker-owns c id cancel js o.1)
]

works-cancelled :
    (c : ℕ) (js : List Job) → is_working c js ≡ true → is_cancelled c (map (cancel_job c) js) ≡ true
works-cancelled c [] w = cc
works-cancelled c (j ∷ js) w = ground (arith, works-cancelled c js)

running_of : (s : Slot) → Held s → 1 ≤ working s.jobs → s.state.status ≡ running
running_of s v h = elim (Bool-cases (is_running s.state.status)) [
  | inl r ↦ ground (arith, r)
  | inr n ↦ absurd (ground (arith, n, v.counted))
]

Held-owner :
    (c : ℕ) (s : Slot)
    → Held s
    → is_working c s.jobs ≡ true
    → (worker_id c s.jobs ≡ some s.state.id)
      × (s.state.status ≡ running)
      × (working s.jobs ≡ 1)
      × (is_cancelled c (cancel_in s).jobs ≡ true)
unfolding cancel_in
Held-owner c s v w =
    let (mine, reached, some_one) = worker-owns c s.state.id s.cancel s.jobs v.owned w in
    let r = running_of s v some_one in
    (mine, r, ground (arith, r, v.counted), rw reached (works-cancelled c s.jobs w))

-- Whatever happens to an agent, in any order: a goroutine that is at work on a download or a command
-- is the only one of its kind, the task that is shown is the one that it was started for and is
-- shown as running, so that its reports and its outcome go to its own task; and a cancellation of
-- this kind cancels its context.
pub Run-owner :
    (root token sender_addr : Str) (allow : Bool) (a : Agent) (s : Slot) (c : ℕ)
    → Run (new_agent root token sender_addr allow) a
    → (s ≡ a.download) ⊎ (s ≡ a.command)
    → is_working c s.jobs ≡ true
    → (worker_id c s.jobs ≡ some s.state.id)
      × (s.state.status ≡ running)
      × (working s.jobs ≡ 1)
      × (is_cancelled c (cancel_in s).jobs ≡ true)
Run-owner root token sender_addr allow a s c r which w =
    let v = Run-Inv r (new_agent-Inv root token sender_addr allow) in
    let held : Held s = elim which [
      | inl d ↦ subst Held (sym d) v.download
      | inr e ↦ subst Held (sym e) v.command
    ] in
    Held-owner c s held w

launch_in-err :
    (stopped : Bool) (ctx : ℕ) (kind id : Str) (s : Slot)
    → stopped ≡ true
    → (launch_in stopped ctx kind id s).0 ≡ err context_canceled
unfolding launch_in
launch_in-err stopped ctx kind id s h = rw h refl

-- When `close` has returned, whatever happened before, and whatever happens after: no goroutine of
-- the agent is left, neither task is shown as running, a download that was ever started is shown as
-- ended, no cache directory is on the disk, and new work is refused as cancelled.
pub Run-closed :
    (root token sender_addr : Str) (allow : Bool) (a : Agent) (id : Str) (c : Command)
    → Run (new_agent root token sender_addr allow) a
    → a.closing ≡ closed
    → (a.download.jobs ≡ [])
      × (a.command.jobs ≡ [])
      × (is_running a.download.state.status ≡ false)
      × (is_running a.command.state.status ≡ false)
      × IsEnded a.download
      × (a.dirs ≡ [])
      × ((launch id a).0 ≡ err context_canceled)
      × ((launch_command c a).0 ≡ err context_canceled)
unfolding launch launch_command
Run-closed root token sender_addr allow a id c r e =
    let v = Run-Inv r (new_agent-Inv root token sender_addr allow) in
    let h : is_closed a.closing ≡ true = subst (λ p. is_closed p ≡ true) (sym e) refl in
    let g = closed-gone a.closing h in
    let shut = v.refused (gone-begun a.closing g) in
    (
      v.no_download g,
      v.no_command g,
      idle_slot a.download (v.no_download g) v.download,
      idle_slot a.command (v.no_command g) v.command,
      v.marked h,
      v.removed h,
      launch_in-err a.stopped _ _ id a.download shut,
      launch_in-err a.stopped _ _ c.id a.command shut,
    )
