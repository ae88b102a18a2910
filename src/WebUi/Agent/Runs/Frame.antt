-- ===== src/WebUi/Agent/Runs/Frame.antt =====
-- internal/webui/agent.go: the invariant of an agent, and steps that leave parts of it alone.
use go_silver_core.Prelude.{ℕ, ◌≡◌, ◌≢◌, refl, Bool, true, false, List, [], ◌∷◌, Str, ◌⊎◌, arith}
use go_silver_core.Server.Sched.{is_empty}
use go_silver_core.WebUi.{ended}
use go_silver_core.WebUi.Agent.{
  Agent, Closing, Job, Slot, open_, stopped_, waited, closed, launch_in, cancel_in, leave_in,
  is_working,
}
use go_silver_core.WebUi.Agent.Runs.Slots.{Held}
use go_silver_core.WebUi.Agent.Runs.Caches.{AreListed}

abbrev pub begun : Closing → Bool
begun open_ = false
begun _ = true

abbrev pub all_gone : Closing → Bool
all_gone waited = true
all_gone closed = true
all_gone _ = false

abbrev pub is_closed : Closing → Bool
is_closed closed = true
is_closed _ = false

-- A task that was ever started is marked as ended.
abbrev pub IsEnded : Slot → Type 0
IsEnded s = (is_empty s.state.id ≡ true) ⊎ (s.state.status ≡ ended)

pub record Inv (a : Agent) : Type 0 where
  pub download : Held a.download
  pub command : Held a.command
  pub caches : AreListed a.cache a.dirs
  pub refused : begun a.closing ≡ true → a.stopped ≡ true
  pub no_download : all_gone a.closing ≡ true → a.download.jobs ≡ []
  pub no_command : all_gone a.closing ≡ true → a.command.jobs ≡ []
  pub removed : is_closed a.closing ≡ true → a.dirs ≡ []
  pub marked : is_closed a.closing ≡ true → IsEnded a.download

pub gone-begun : (p : Closing) → all_gone p ≡ true → begun p ≡ true
gone-begun open_ h = h
gone-begun stopped_ h = refl
gone-begun waited h = refl
gone-begun closed h = refl

pub closed-gone : (p : Closing) → is_closed p ≡ true → all_gone p ≡ true
closed-gone open_ h = h
closed-gone stopped_ h = h
closed-gone waited h = refl
closed-gone closed h = refl

pub launch_refused :
    (stopped : Bool) (ctx : ℕ) (kind id : Str) (s : Slot)
    → stopped ≡ true
    → s ≡ (launch_in stopped ctx kind id s).1
unfolding launch_in
launch_refused true ctx kind id s h = refl
launch_refused false ctx kind id s h = absurd (cc)

pub cancel_quiet :
    (s : Slot) → (s.jobs ≡ [] → (cancel_in s).jobs ≡ []) × ((cancel_in s).state ≡ s.state)
unfolding cancel_in
cancel_quiet s = (λ h. ground arith, ground arith)

pub leave_quiet : (c : ℕ) (s : Slot) → s.jobs ≡ [] → (leave_in c s).jobs ≡ []
unfolding leave_in
leave_quiet c s h = rw h refl

nobody_works : (c : ℕ) (js : List Job) → is_working c js ≡ true → js ≢ []
nobody_works c [] h e = cc
nobody_works c (j ∷ js) h e = cc

-- A step that changes one slot.
module _ (a : Agent) (v : Inv a) (s : Slot) (n : ℕ) (held : Held s) where
  pub with_download :
      (all_gone a.closing ≡ true → s.jobs ≡ [])
      → (is_closed a.closing ≡ true → IsEnded s)
      → Inv (record a { download = s; next_ctx = n })
  with_download gone marked = record {
    download = held;
    command = v.command;
    caches = v.caches;
    refused = v.refused;
    no_download = gone;
    no_command = v.no_command;
    removed = v.removed;
    marked = marked;
  }

  pub with_command :
      (all_gone a.closing ≡ true → s.jobs ≡ []) → Inv (record a { command = s; next_ctx = n })
  with_command gone = record {
    download = v.download;
    command = held;
    caches = v.caches;
    refused = v.refused;
    no_download = v.no_download;
    no_command = gone;
    removed = v.removed;
    marked = v.marked;
  }

-- A step of a goroutine that works, so that nobody has waited for all of them yet.
module _ (a : Agent) (v : Inv a) (c : ℕ) where
  pub download-busy : is_working c a.download.jobs ≡ true → all_gone a.closing ≢ true
  download-busy h g = nobody_works c a.download.jobs h (v.no_download g)

  pub command-busy : is_working c a.command.jobs ≡ true → all_gone a.closing ≢ true
  command-busy h g = nobody_works c a.command.jobs h (v.no_command g)

  pub with_caches :
      (cache dirs : List Str)
      → is_working c a.download.jobs ≡ true
      → AreListed cache dirs
      → Inv (record a { cache = cache; dirs = dirs })
  with_caches cache dirs h listed = record {
    download = v.download;
    command = v.command;
    caches = listed;
    refused = v.refused;
    no_download = v.no_download;
    no_command = v.no_command;
    removed = λ g. absurd (download-busy h (closed-gone a.closing g));
    marked = v.marked;
  }
