-- ===== src/WebUi/Peers.antt =====
-- internal/webui: what the sender knows of its receivers, from tasks.go and app.go: the table of
-- peers, and the loop that follows their tasks to the end.
pub mod Ends
pub mod Stored
use go_silver_core.Prelude.Maps.{get, put}
use go_silver_core.Prelude.{
  ℕ, suc, ◌+◌, Bool, true, false, not, ◌&&◌, ◌||◌, Option, none, some, List, [], ◌∷◌, Str, str_dec,
  if◌then◌else◌, ◌==◌,
}
use go_silver_core.Folders.{same}
use go_silver_core.Server.Sched.{is_empty}
use go_silver_core.WebUi.{
  Status, failed, cancelled, is_running, Err, passed_on, TaskState, PeerState,
}
use go_silver_core.WebUi.Agent.{idle_task}

abbrev pub Peers : Type 0
Peers = List (Str × PeerState)

-- The zero value of a map.
abbrev pub no_peer : PeerState
no_peer = record {
  addr = [];
  ready = false;
  probe = [];
  warnings = [];
  task = none;
  command = none;
}

abbrev pub or_no_peer : Option PeerState → PeerState
or_no_peer none = no_peer
or_no_peer (some p) = p

-- `storePeer`
abbrev pub merged : Bool → PeerState → PeerState → PeerState
merged true p old = record old { addr = p.addr; command = p.command }
merged false p old = record old {
  addr = p.addr;
  task = p.task;
  ready = p.ready;
  probe = p.probe;
  warnings = p.warnings;
}

unfoldable pub store_peer : Bool → Str → PeerState → Peers → Peers
store_peer command id p probes =
    put str_dec id (merged command p (or_no_peer (get str_dec id probes))) probes

abbrev pub task_of : Bool → PeerState → Option TaskState
task_of true p = p.command
task_of false p = p.task

abbrev pub with_task : Bool → TaskState → PeerState → PeerState
with_task true t p = record p { command = some t }
with_task false t p = record p { task = some t }

-- What a call of "status" or "command.status" comes to; it is skipped if the context ends before
-- it has a place among the eight that run at a time.
pub data Reply : Type 0 where
  skipped : Reply
  refused : Err → Reply
  answered : TaskState → Reply

-- "设备已切换到其他任务"
abbrev pub switched : Err
switched = passed_on false []

abbrev pub broken : Err → TaskState → TaskState
broken e t = record idle_task { id = t.id; kind = t.kind; status = failed; error = some e }

abbrev pub replied : Bool → TaskState → Reply → PeerState → PeerState
replied command t skipped p = p
replied command t (refused e) p = with_task command (broken e t) p
replied command t (answered s) p =
    with_task command (if same s.id t.id then s else broken switched t) p

abbrev pub running_task : Option TaskState → Bool
running_task none = false
running_task (some t) = is_running t.status

-- A peer whose task is not running is not asked.
abbrev pub poll_peer : Bool → Option TaskState → Reply → PeerState → PeerState
poll_peer command none r p = p
poll_peer command (some t) r p = if is_running t.status then replied command t r p else p

abbrev pub poll_all : Bool → (Str → Reply) → Peers → Peers
poll_all command replies [] = []
poll_all command replies ((id, p) ∷ ps) =
    (id, poll_peer command (task_of command p) (replies id) p) ∷ poll_all command replies ps

abbrev pub all_done : Bool → Peers → Bool
all_done command [] = true
all_done command ((id, p) ∷ ps) = not (running_task (task_of command p)) && all_done command ps

abbrev pub store_all : Bool → Peers → Peers → Peers
store_all command [] probes = probes
store_all command ((id, p) ∷ ps) probes = store_all command ps (store_peer command id p probes)

abbrev pub is_failure : Status → Bool
is_failure failed = true
is_failure cancelled = true
is_failure _ = false

abbrev pub failed_task : Option TaskState → Bool
failed_task none = false
failed_task (some t) = is_failure t.status

abbrev pub failures : Bool → Peers → ℕ
failures command [] = 0
failures command ((id, p) ∷ ps) =
    (if failed_task (task_of command p) then 1 else 0) + failures command ps

-- The tasks that `cancelRemoteKind` asks to cancel: the address of the peer and the task's id.
abbrev pub cancel_calls : Bool → Peers → List (Str × Str)
cancel_calls command [] = []
cancel_calls command ((id, p) ∷ ps) =
    let rest = cancel_calls command ps in
    elim (task_of command p) [
      | none ↦ rest
      | some t ↦ if is_empty t.id then rest else (p.addr, t.id) ∷ rest
    ]

-- One round of `monitor`: whether the context has ended at its start, the replies, and whether it
-- ends during the pause.
pub record Round : Type 0 where
  pub ended_before : Bool
  pub replies : Str → Reply
  pub ended_after : Bool

pub data Verdict : Type 0 where
  out_of_rounds completed : Verdict
  peers_failed : ℕ → Verdict
  interrupted : List (Str × Str) → Verdict

pub record Monitored : Type 0 where
  pub verdict : Verdict
  pub peers : Peers
  pub probes : Peers

abbrev pub judge : Bool → Peers → Verdict
judge command peers =
    if failures command peers == 0 then completed else peers_failed (failures command peers)

-- The loop of `monitor`, over the rounds that the world provides.
unfoldable pub monitor : Bool → List Round → Peers → Peers → Monitored
monitor command [] peers probes = record { verdict = out_of_rounds; peers = peers; probes = probes }
monitor command (r ∷ rs) peers probes =
    let polled = poll_all command r.replies peers in
    let stored = store_all command polled probes in
    let rest = monitor command rs polled stored in
    if r.ended_before
    then record {
      verdict = interrupted (cancel_calls command peers);
      peers = peers;
      probes = probes;
    }
    else if all_done command peers
    then record { verdict = judge command polled; peers = polled; probes = stored }
    else if r.ended_after
    then record {
      verdict = interrupted (cancel_calls command polled);
      peers = polled;
      probes = stored;
    }
    else rest
