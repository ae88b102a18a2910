-- ===== src/Examples/Webs.antt =====
-- The application of a sender: its role, the peers that it follows, a dispatch and a distribution.
use go_silver_core.Prelude.Text.{str_dec}
use go_silver_core.Prelude.Maps.{get, Unique, Every}
use native.Mathlib.Decide.{ℕ_discrete}
use go_silver_core.Prelude.{
  Str, ◌≤◌, ◌≡◌, refl, true, false, not, ◌||◌, none, some, List, [], ◌∷◌, codes, if◌then◌else◌,
}
use go_silver_core.WebUi.{Config, PeerState, TaskState, TaskSpec, running, seeding}
use go_silver_core.WebUi.Agent.{idle_task}
use go_silver_core.WebUi.Roles.{App, unset, Outcome, start_sender, begin, advance}
use go_silver_core.WebUi.Roles.Steps.{new_app}
use go_silver_core.WebUi.Peers.{Peers, no_peer, skipped, answered, Round, completed, monitor}
use go_silver_core.WebUi.Peers.Ends.{is_out, monitor-ends}
use go_silver_core.WebUi.Peers.Stored.{EndedWell, Shows, followed, monitor-completed}
use go_silver_core.WebUi.Dispatch.{Dispatch, Known, probed, probe, dispatch_calls}
use go_silver_core.WebUi.Dispatch.Starts.{named, is_ready, probe-dispatch}
use go_silver_core.WebUi.Distribution
use go_silver_core.WebUi.Distribution.{Distributed, distribute}
use go_silver_core.WebUi.Distribution.Once.{times_named, known, distribute-once}
use go_silver_core.Prelude.Lists.{any}
use go_silver_core.Examples.Requests.{one_spec}

abbrev plain_config : Config
plain_config = record {
  discover = false;
  file = [];
  sender_addr = [];
  listen = codes ":0";
  work_dir = codes "/home";
  token = [];
  allow_commands = false;
}

abbrev fine : Outcome
fine = record { good = true; found = []; root = codes "/home" }

abbrev app0 : App
app0 = new_app unset plain_config

abbrev app1 : App
app1 = begin (start_sender (codes ":0")) app0

abbrev app2 : App
app2 = advance app1.stage fine app1

abbrev serving : App
serving = advance app2.stage fine app2

abbrev task_at : TaskState
task_at = record idle_task { id = codes "t"; kind = codes "download"; status = running }

abbrev one_peer : Peers
one_peer =
    (codes "p", record no_peer { addr = codes "10.0.0.2:9"; ready = true; task = some task_at })
    ∷ []

abbrev quiet : Round
quiet = record { ended_before = false; replies = λ id. skipped; ended_after = false }

abbrev done_round : Round
done_round = record {
  ended_before = false;
  replies = λ id. answered (record task_at { status = seeding });
  ended_after = false;
}

abbrev three_rounds : List Round
three_rounds = quiet ∷ done_round ∷ quiet ∷ []

monitor-ends_example :
    is_out (monitor false (quiet ∷ done_round ∷ quiet ∷ []) one_peer []).verdict ≡ false
monitor-ends_example = monitor-ends false (quiet ∷ done_round ∷ []) quiet one_peer [] (refl, tt)

completes : (monitor false three_rounds one_peer []).verdict ≡ completed
unfolding monitor str_dec ℕ_discrete
completes = refl

one_peer-Unique : Unique str_dec one_peer
unfolding get
one_peer-Unique = (refl, tt)

monitor-completed_example :
    Every
      (λ id p. EndedWell false p × Shows false (monitor false three_rounds one_peer []).probes id p)
      (monitor false three_rounds one_peer []).peers
    × (followed false (monitor false three_rounds one_peer []).peers ≡ followed false one_peer)
monitor-completed_example =
    monitor-completed false three_rounds one_peer [] one_peer-Unique completes

abbrev to_p : Dispatch
to_p = record { ids = codes "p" ∷ []; target = codes "in"; token = []; overwrite = false }

-- The peer "p" has gone, but it had passed an earlier probe.
went_through :
    (probe
      (λ spec d. d.target)
      (some one_spec)
      to_p
      false
      (λ id. probed false [] [])
      []
      (record { probes = one_peer; probe_key = [] })).0
    ≡ none
unfolding probe
went_through = refl

p_selected : go_silver_core.WebUi.Dispatch.selected to_p.ids (codes "p") ≡ true
unfolding str_dec ℕ_discrete
p_selected = refl

probe-dispatch_example :
    (calls : List (Str × Str)) × (dispatch_calls
        (λ spec d. d.target)
        (some one_spec)
        false
        to_p
        (probe
          (λ spec d. d.target)
          (some one_spec)
          to_p
          false
          (λ id. probed false [] [])
          []
          (record { probes = one_peer; probe_key = [] })).1
      ≡ some calls)
    × (named (codes "p") calls ≡ is_ready (get str_dec (codes "p") one_peer))
probe-dispatch_example =
    probe-dispatch (λ spec d. d.target) one_spec to_p (λ id. probed false [] []) []
      (record { probes = one_peer; probe_key = [] }) (codes "p") one_peer-Unique went_through
      p_selected

abbrev joining : Distribution.Round
joining = record {
  accepting = true;
  snapshot = record { uuid = codes "p"; addr = codes "10.0.0.2:9"; self = false } ∷ [];
  joins = λ id. Distribution.joined true [] [] task_at;
  polls = λ id. Distribution.told task_at;
  ended = none;
}

distribute-once_example :
    times_named
      (codes "p")
      (distribute (codes "t") (joining ∷ joining ∷ []) (record { members = []; probes = [] })).0
    ≤ (if known (codes "p") [] || not (any (λ r. r.accepting) (joining ∷ joining ∷ []))
        then 0
        else 1)
distribute-once_example =
    distribute-once (codes "t") (codes "p") (joining ∷ joining ∷ [])
      (record { members = []; probes = [] }) ((refl, tt), ((refl, tt), tt))
