-- ===== src/WebUi/Peers/Ends.antt =====
-- internal/webui/tasks.go: `monitor` ends.
use go_silver_core.Prelude.Maps.{Every}
use go_silver_core.Prelude.{
  ◌≡◌, refl, Bool, true, false, not, ◌||◌, List, [], ◌∷◌, ◌++◌, any, arith,
}
use go_silver_core.WebUi.{is_running, PeerState}
use go_silver_core.WebUi.Peers.{
  Peers, task_of, Reply, skipped, refused, answered, running_task, poll_peer, poll_all, all_done,
  store_all, Round, Verdict, out_of_rounds, judge, monitor,
}

-- A reply after which the peer is not asked again.
abbrev pub is_final : Reply → Bool
is_final skipped = false
is_final (refused e) = true
is_final (answered t) = not (is_running t.status)

-- Every peer whose task is running gives a final reply in one of the rounds.
abbrev pub Settles : Bool → List Round → Peers → Type 0
Settles command rounds peers =
    Every
      (λ id p.
        (not (running_task (task_of command p)) || any (λ r. is_final (r.replies id)) rounds)
        ≡ true)
      peers

poll_peer-Settles :
    (command : Bool) (r : Reply) (later : Bool) (p : PeerState)
    → (not (running_task (task_of command p)) || (is_final r || later)) ≡ true
    → (not (running_task (task_of command (poll_peer command (task_of command p) r p))) || later)
      ≡ true
poll_peer-Settles true skipped later p h = ground arith
poll_peer-Settles true (refused e) later p h = ground arith
poll_peer-Settles true (answered t) later p h = ground arith
poll_peer-Settles false skipped later p h = ground arith
poll_peer-Settles false (refused e) later p h = ground arith
poll_peer-Settles false (answered t) later p h = ground arith

poll_all-Settles :
    (command : Bool) (r : Round) (rs : List Round) (peers : Peers)
    → Settles command (r ∷ rs) peers
    → Settles command rs (poll_all command r.replies peers)
poll_all-Settles command r rs [] s = tt
poll_all-Settles command r rs ((id, p) ∷ ps) s = (
  poll_peer-Settles command (r.replies id) (any (λ q. is_final (q.replies id)) rs) p s.0,
  poll_all-Settles command r rs ps s.1,
)

Settles-done :
    (command : Bool) (peers : Peers) → Settles command [] peers → all_done command peers ≡ true
Settles-done command [] s = refl
Settles-done command ((id, p) ∷ ps) s = ground (arith, Settles-done command ps s.1, s.0)

abbrev pub is_out : Verdict → Bool
is_out out_of_rounds = true
is_out _ = false

judge-is_out : (command : Bool) (peers : Peers) → is_out (judge command peers) ≡ false
judge-is_out command peers = ground arith

-- `monitor` always comes to a verdict: when every peer whose task is running has answered with
-- another status, or failed to answer, in one of the rounds, then it returns in the round behind
-- them at the latest, whether or not its context ends.
pub monitor-ends :
    (command : Bool) (rounds : List Round) (last : Round) (peers probes : Peers)
    → Settles command rounds peers
    → is_out (monitor command (rounds ++ last ∷ []) peers probes).verdict ≡ false
unfolding monitor
monitor-ends command [] last peers probes s =
    rw (Settles-done command peers s)
      (ground (arith, judge-is_out command (poll_all command last.replies peers)))
monitor-ends command (r ∷ rs) last peers probes s =
    let polled = poll_all command r.replies peers in
    ground (
      arith,
      judge-is_out command polled,
      monitor-ends command rs last polled (store_all command polled probes)
          (poll_all-Settles command r rs peers s),
    )
