-- ===== src/WebUi/Agent/Runs.antt =====
-- internal/webui/agent.go: everything that can happen to an agent, as a step relation. Each step
-- holds the agent's lock, or is the part of `close` between two of its waits.
pub mod Slots
pub mod Caches
pub mod Frame
pub mod Keeps
pub mod Owners
use go_silver_core.Prelude.{ℕ, ◌+◌, ◌≡◌, Bool, true, false, Option, List, [], Str}
use go_silver_core.WebUi.{Err, Progress, Command}
use go_silver_core.WebUi.Agent.{
  Agent, open_, stopped_, waited, empty_slot, launch, launch_command, cancel_task, cancel_command,
  finish_download, finish_command, leave_in, is_working, report_progress, keep_output, make_cache,
  remove_cache, prune_caches, stop, end_all,
}

-- The agent as `startAgent` makes it.
unfoldable pub new_agent : Str → Str → Str → Bool → Agent
new_agent root token sender_addr allow_commands = record {
  root = root;
  token = token;
  sender_addr = sender_addr;
  allow_commands = allow_commands;
  stopped = false;
  next_ctx = 0;
  download = empty_slot;
  command = empty_slot;
  cache = [];
  dirs = [];
  closing = open_;
}

-- A goroutine reports, keeps its output and finishes while it works; the caches are a download's.
pub data Step (a b : Agent) : Type 0 where
  launches : (id : Str) → b ≡ (launch id a).1 → Step a b
  launches_command : (c : Command) → b ≡ (launch_command c a).1 → Step a b
  cancels : b ≡ cancel_task a → Step a b
  cancels_command : b ≡ cancel_command a → Step a b
  reports :
      (c : ℕ) (p : Progress)
      → is_working c a.download.jobs ≡ true
      → b ≡ report_progress p a
      → Step a b
  outputs :
      (c : ℕ) (text : Str) → is_working c a.command.jobs ≡ true → b ≡ keep_output text a → Step a b
  makes_cache :
      (c : ℕ) (p : Str) → is_working c a.download.jobs ≡ true → b ≡ make_cache p a → Step a b
  removes_cache :
      (c : ℕ) (p : Str) → is_working c a.download.jobs ≡ true → b ≡ remove_cache p a → Step a b
  prunes : (c : ℕ) (p : Str) → is_working c a.download.jobs ≡ true → b ≡ prune_caches p a → Step a b
  finishes :
      (c : ℕ) (e : Option Err)
      → is_working c a.download.jobs ≡ true
      → b ≡ finish_download c e a
      → Step a b
  finishes_command :
      (c : ℕ) (e : Option Err)
      → is_working c a.command.jobs ≡ true
      → b ≡ finish_command c e a
      → Step a b
  leaves : (c : ℕ) → b ≡ record a { download = leave_in c a.download } → Step a b
  leaves_command : (c : ℕ) → b ≡ record a { command = leave_in c a.command } → Step a b
  stops : a.closing ≡ open_ → b ≡ stop a → Step a b
  waits :
      a.closing ≡ stopped_
      → a.download.jobs ≡ []
      → a.command.jobs ≡ []
      → b ≡ record a { closing = waited }
      → Step a b
  ends : a.closing ≡ waited → b ≡ end_all a → Step a b

pub data Run (a : Agent) : Agent → Type 0 where
  here : Run a a
  next : {b c : Agent} → Run a b → Step b c → Run a c
