-- ===== src/WebUi/Agent/Runs/Slots.antt =====
-- internal/webui/agent.go: a slot has one goroutine at work at most, and it is the one that is shown.
use go_silver_core.Prelude.{
  ℕ, ◌+◌, ◌≤◌, ◌≡◌, refl, Bool, true, false, not, ◌&&◌, Option, none, some, List, [], ◌∷◌, Str, map,
  filter, ◌==◌, if◌then◌else◌, ◌⊎◌, inl, inr, Bool-cases, Option-cases, arith,
}
use go_silver_core.WebUi.{Status, is_running, Err, is_canceled, TaskState}
use go_silver_core.WebUi.Agent.{
  Job, Slot, launch_in, cancel_job, cancel_in, depart, outcome, finish_in, leave_in, is_working,
}

abbrev pub working : List Job → ℕ
working [] = 0
working (j ∷ js) = (if j.leaving then 0 else 1) + working js

-- Whoever works, works for the task that is shown, and is the one that a cancellation reaches.
abbrev pub Owned : Str → Option ℕ → List Job → Type 0
Owned id cancel [] = Unit {0}
Owned id cancel (j ∷ js) =
    ((j.leaving ≡ true) ⊎ ((j.id ≡ id) × (cancel ≡ some j.ctx))) × Owned id cancel js

pub record Held (s : Slot) : Type 0 where
  pub owned : Owned s.state.id s.cancel s.jobs
  pub counted : working s.jobs ≡ (if is_running s.state.status then 1 else 0)

Owned_left : (id : Str) (cancel : Option ℕ) (js : List Job) → working js ≡ 0 → Owned id cancel js
Owned_left id cancel [] h = tt
Owned_left id cancel (j ∷ js) h = elim (Bool-cases j.leaving) [
  | inl gone ↦ (inl gone, Owned_left id cancel js (ground arith))
  | inr here ↦ absurd (ground arith)
]

pub launch_in-Held :
    (stopped : Bool) (ctx : ℕ) (kind id : Str) (s : Slot)
    → Held s
    → Held (launch_in stopped ctx kind id s).1
unfolding launch_in
launch_in-Held true ctx kind id s v = v
launch_in-Held false ctx kind id s v = elim (Bool-cases (is_running s.state.status)) [
  | inl busy ↦ rw busy v
  | inr free ↦
      rw (free, launch_in)
        (record {
          owned = (inr (refl, refl), Owned_left id (some ctx) s.jobs (ground (arith, v.counted)));
          counted = ground (arith, v.counted);
        })
]

cancelled_lem :
    (c : ℕ) (id : Str) (cancel : Option ℕ) (js : List Job)
    → Owned id cancel js
    → Owned id cancel (map (cancel_job c) js) × (working (map (cancel_job c) js) ≡ working js)
cancelled_lem c id cancel [] o = (tt, refl)
cancelled_lem c id cancel (j ∷ js) o = elim (Bool-cases (j.ctx == c)) [
  | inl this ↦ ground (arith, cancelled_lem c id cancel js o.1)
  | inr other ↦ ground (arith, cancelled_lem c id cancel js o.1)
]

pub cancel_in-Held : (s : Slot) → Held s → Held (cancel_in s)
unfolding cancel_in
cancel_in-Held s v = elim (Option-cases s.cancel) [
  | inl nobody ↦ rw (nobody, cancel_in) v
  | inr (c, e) ↦
      rw (e, cancel_in)
        (let (o, w) = cancelled_lem c s.state.id s.cancel s.jobs v.owned in
          record { owned = o; counted = ground (arith, w, v.counted) })
]

departed_lem :
    (c : ℕ) (id : Str) (cancel : Option ℕ) (js : List Job)
    → Owned id cancel js
    → Owned id cancel (map (depart c) js)
      × (working (map (depart c) js) ≤ working js)
      × (is_working c js ≡ true → working (map (depart c) js) + 1 ≤ working js)
departed_lem c id cancel [] o = (tt, omega arith, λ h. absurd (cc))
departed_lem c id cancel (j ∷ js) o =
    let (os, less, fewer) = departed_lem c id cancel js o.1 in
    (ground arith, ground arith, λ h. ground arith)

outcome_lem :
    (good : Status) (e : Option Err) (t : TaskState)
    → is_running good ≡ false
    → ((outcome good e t).id ≡ t.id) × (is_running (outcome good e t).status ≡ false)
outcome_lem good none t g = (refl, g)
outcome_lem good (some e) t g = elim (Bool-cases (is_canceled e)) [
  | inl yes_ ↦ (refl, ground (arith, yes_))
  | inr no_ ↦ (refl, ground (arith, no_))
]

pub finish_in-Held :
    (good : Status) (c : ℕ) (e : Option Err) (s : Slot)
    → is_running good ≡ false
    → is_working c s.jobs ≡ true
    → Held s
    → Held (finish_in good c e s)
unfolding finish_in
finish_in-Held good c e s g h v =
    let (o, _, fewer) = departed_lem c s.state.id s.cancel s.jobs v.owned in
    let (same_id, over) = outcome_lem good e s.state g in
    record { owned = rw same_id o; counted = rw over (ground (arith, fewer h, v.counted)) }

leave_lem :
    (c : ℕ) (id : Str) (cancel : Option ℕ) (js : List Job)
    → Owned id cancel js
    → let rest = filter (λ j. not (j.ctx == c && j.leaving)) js in
      Owned id cancel rest × (working rest ≡ working js)
leave_lem c id cancel [] o = (tt, refl)
leave_lem c id cancel (j ∷ js) o = ground (arith, leave_lem c id cancel js o.1)

pub leave_in-Held : (c : ℕ) (s : Slot) → Held s → Held (leave_in c s)
unfolding leave_in
leave_in-Held c s v =
    let (o, w) = leave_lem c s.state.id s.cancel s.jobs v.owned in
    record { owned = o; counted = ground (arith, w, v.counted) }
