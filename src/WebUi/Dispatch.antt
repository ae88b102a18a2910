-- ===== src/WebUi/Dispatch.antt =====
-- internal/webui/app.go: the probe of the selected receivers, and the dispatch to those that passed.
pub mod Starts
use go_silver_core.Prelude.Maps.{get, put}
use go_silver_core.Prelude.{
  ℕ, suc, ◌+◌, Bool, true, false, not, ◌&&◌, ◌||◌, Option, none, some, List, [], ◌∷◌, Str, str_dec,
  codes, any, if◌then◌else◌, ◌==◌,
}
use go_silver_core.Folders.{same}
use go_silver_core.Server.Sched.{is_empty}
use go_silver_core.WebUi.{failed, Err, context_canceled, passed_on, TaskState, TaskSpec, PeerState}
use go_silver_core.WebUi.Agent.{idle_task}
use go_silver_core.WebUi.Peers.{Peers, no_peer, or_no_peer, cancel_calls, Round, Monitored, monitor}

pub record Dispatch : Type 0 where
  pub ids : List Str
  pub target : Str
  pub token : Str
  pub overwrite : Bool

-- A row of the hub's `Snapshot`, as far as it is used.
pub record Known : Type 0 where
  pub uuid : Str
  pub addr : Str
  pub self : Bool

-- The answer to "probe": an error's text, or whether the target is fit, its path and the warnings.
pub data ProbeReply : Type 0 where
  unfit : Str → ProbeReply
  probed : Bool → Str → List Str → ProbeReply

abbrev pub selected : List Str → Str → Bool
selected ids id = any (λ v. same id v) ids

abbrev pub reply_state : Known → ProbeReply → PeerState
reply_state k (unfit e) = record no_peer { addr = k.addr; probe = e }
reply_state k (probed ready target warnings) = record no_peer {
  addr = k.addr;
  ready = ready;
  probe = target;
  warnings = warnings;
}

-- The peers that are asked, with their answers.
abbrev pub results : Dispatch → (Str → ProbeReply) → List Known → Peers
results d replies [] = []
results d replies (k ∷ ks) =
    let rest = results d replies ks in
    if k.self || not (selected d.ids k.uuid)
    then rest
    else (k.uuid, reply_state k (replies k.uuid)) ∷ rest

-- The tasks that the table shows are kept.
abbrev pub keep_tasks : PeerState → PeerState → PeerState
keep_tasks old p = record p { command = old.command; task = old.task }

abbrev pub store_results : Peers → Peers → Peers
store_results [] probes = probes
store_results ((id, p) ∷ ps) probes =
    store_results ps (put str_dec id (keep_tasks (or_no_peer (get str_dec id probes)) p) probes)

-- `probes` and `probeKey`
pub record Table : Type 0 where
  pub probes : Peers
  pub probe_key : Str

abbrev pub unprepared : Err
unprepared = passed_on false []

abbrev pub nobody_selected : List Str → Bool
nobody_selected [] = true
nobody_selected (x ∷ xs) = false

-- `probe`, of the spec of the file that is prepared, if there is one. The fingerprint is JSON text of the
-- spec and the dispatch with its ids in order.
unfoldable pub probe :
    (TaskSpec → Dispatch → Str)
    → Option TaskSpec
    → Dispatch
    → Bool
    → (Str → ProbeReply)
    → List Known
    → Table
    → Option Err × Table
probe fingerprint none d ended replies snapshot t = (some unprepared, t)
probe fingerprint (some spec) d ended replies snapshot t =
    if nobody_selected d.ids
    then (some unprepared, t)
    else if ended
    then (some context_canceled, t)
    else (
      none,
      record {
        probes = store_results (results d replies snapshot) t.probes;
        probe_key = fingerprint spec d;
      },
    )

-- The peers that `dispatch` asks to start, with their addresses.
abbrev pub starts : Dispatch → Peers → List (Str × Str)
starts d [] = []
starts d ((id, p) ∷ ps) =
    let rest = starts d ps in
    if not p.ready || not (selected d.ids id) then rest else (id, p.addr) ∷ rest

-- The first half of `dispatch`: the calls that it makes.
unfoldable pub dispatch_calls :
    (TaskSpec → Dispatch → Str)
    → Option TaskSpec
    → Bool
    → Dispatch
    → Table
    → Option (List (Str × Str))
dispatch_calls fingerprint none distributing d t = none
dispatch_calls fingerprint (some spec) distributing d t =
    if distributing || not (same t.probe_key (fingerprint spec d))
    then none
    else some (starts d t.probes)

-- The answer to "start", or none if the context ended before the call.
pub data StartReply : Type 0 where
  uncalled : StartReply
  failed_call : Err → Str → StartReply
  started : TaskState → StartReply

abbrev pub start_state : Str → StartReply → PeerState → PeerState
start_state key uncalled p = p
start_state key (failed_call e text) p = record p {
  ready = false;
  probe = text;
  task = some (record idle_task { id = key; status = failed; error = some e });
}
start_state key (started t) p = record p { task = some t }

abbrev pub start_all : Dispatch → Str → (Str → StartReply) → Peers → Peers
start_all d key replies [] = []
start_all d key replies ((id, p) ∷ ps) =
    let rest = start_all d key replies ps in
    if not p.ready || not (selected d.ids id)
    then (id, p) ∷ rest
    else (id, start_state key (replies id) p) ∷ rest

abbrev pub is_started : StartReply → Bool
is_started (started t) = true
is_started _ = false

abbrev pub sent : Dispatch → (Str → StartReply) → Peers → ℕ
sent d replies [] = 0
sent d replies ((id, p) ∷ ps) =
    (if p.ready && selected d.ids id && is_started (replies id) then 1 else 0) + sent d replies ps

-- What was found is stored, but for the command, which the table of the moment keeps.
abbrev pub store_started : Peers → Peers → Peers
store_started [] probes = probes
store_started ((id, p) ∷ ps) probes =
    store_started ps
      (put str_dec id (record p { command = (or_no_peer (get str_dec id probes)).command }) probes)

pub data Dispatched : Type 0 where
  refused : Dispatched
  cancelled_calls : List (Str × Str) → Dispatched
  nobody : Table → Dispatched
  followed : Monitored → Dispatched

-- `dispatch`: `key` is the id of the new task, `ended` whether the context ended meanwhile, `now` the
-- table when the answers are stored, and `rounds` those of `monitor`.
unfoldable pub dispatch :
    (TaskSpec → Dispatch → Str)
    → Option TaskSpec
    → Bool
    → Dispatch
    → Str
    → (Str → StartReply)
    → Bool
    → List Round
    → Table
    → Table
    → Dispatched
unfolding dispatch_calls monitor
dispatch fingerprint spec distributing d key replies ended rounds t now =
    let probes = start_all d key replies t.probes in
    let stored = store_started probes now.probes in
    elim (dispatch_calls fingerprint spec distributing d t) [
      | none ↦ refused
      | some calls ↦
          if ended
          then cancelled_calls (cancel_calls false probes)
          else if sent d replies t.probes == 0
          then nobody (record { probes = stored; probe_key = [] })
          else followed (monitor false rounds probes stored)
    ]
