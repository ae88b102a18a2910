-- ===== src/WebUi/Agent/Control/Guards.antt =====
-- internal/webui/agent.go: what the requests that start work on the receiver share.
use go_silver_core.Prelude.{
  ℕ, suc, ◌≡◌, refl, Bool, true, false, some, Str, length, ◌⊎◌, inl, inr, Bool-cases, Option-cases,
  arith, length-map,
}
use go_silver_core.Folders.{same}
use go_silver_core.WebUi.{running, is_running, Err, Result, ok, err, TaskState}
use go_silver_core.WebUi.Agent.{idle_task, Agent, Slot, launch_in, cancel_in}
use go_silver_core.WebUi.Agent.Control.{
  ControlRequest, method_of, Json, World, task, as_task, answer, control,
}

-- How many downloads, and how many commands, an agent has going.
abbrev pub downloads : Agent → ℕ
downloads a = length a.download.jobs

abbrev pub commands : Agent → ℕ
commands a = length a.command.jobs

pub cancel_in-length : (s : Slot) → length (cancel_in s).jobs ≡ length s.jobs
unfolding cancel_in
cancel_in-length s = elim (Option-cases s.cancel) [
  | inl n ↦ rw (n, cancel_in) refl
  | inr (c, e) ↦ rw (e, cancel_in) (length-map _ s.jobs)
]

pub Result-cases : {A : Type 0} (r : Result A) → ((e : Err) × (r ≡ err e)) ⊎ ((a : A) × (r ≡ ok a))
Result-cases (err e) = inl (e, refl)
Result-cases (ok a) = inr (a, refl)

abbrev pub started : Str → Str → TaskState
started kind id = record idle_task { id = id; kind = kind; status = running }

pub launch_in-started :
    (stopped : Bool) (ctx : ℕ) (kind id : Str) (s : Slot)
    → length (launch_in stopped ctx kind id s).1.jobs ≡ suc (length s.jobs)
    → (is_running s.state.status ≡ false)
      × ((launch_in stopped ctx kind id s).0 ≡ ok (started kind id))
unfolding launch_in
launch_in-started true ctx kind id s h = absurd (omega arith)
launch_in-started false ctx kind id s h = elim (Bool-cases (is_running s.state.status)) [
  | inl b ↦ absurd (ground (arith, b))
  | inr b ↦ (b, rw (b, launch_in) refl)
]

module _ {Probe Listing : Type 0} (j : Json) (w : World Probe Listing) (before now : Agent) where
  pub as_task-snd : (r : Result TaskState × Agent) → (as_task j w r).1 ≡ r.1
  as_task-snd (ok t, a) = refl
  as_task-snd (err e, a) = refl

  pub as_task-fst :
      (r : Result TaskState × Agent) (t : TaskState) → r.0 ≡ ok t → (as_task j w r).0 ≡ ok (task t)
  as_task-fst (ok u, a) t h = cc
  as_task-fst (err e, a) t h = absurd (cc)

  -- A request that came with the agent's token.
  pub record IsAllowed (raw : Str) (req : ControlRequest) : Type 0 where
    pub read : j.request_of raw ≡ some req
    pub known : same req.token before.token ≡ true

  pub control-answer :
      (raw : Str) (f : Agent → ℕ)
      → f (control j w raw before now).1 ≡ suc (f now)
      → (req : ControlRequest) × IsAllowed raw req
        × (control j w raw before now ≡ answer j w (method_of req.method) req.payload before now)
  unfolding control
  control-answer raw f h = elim (Option-cases (j.request_of raw)) [
    | inl n ↦ absurd (ground (arith, n))
    | inr (req, e) ↦ elim (Bool-cases (same req.token before.token)) [
      | inr bad ↦ absurd (ground (arith, e, bad))
      | inl good ↦ (req, record { read = e; known = good }, ground (arith, e, good))
    ]
  ]
