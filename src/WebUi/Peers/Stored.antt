-- ===== src/WebUi/Peers/Stored.antt =====
-- internal/webui/tasks.go: what `monitor` has found out and stored when it returns without an error.
use go_silver_core.Prelude.Maps.{get, get-put, Every, Unique}
use go_silver_core.Prelude.Text.{str_dec}
use go_silver_core.Prelude.{
  ◌≡◌, inl, inr, refl, sym, ap, subst, ◌∙◌, Bool, true, false, Option, none, some, List, [], ◌∷◌,
  Str, if_pos, Bool-cases, arith,
}
use go_silver_core.Folders.{same}
use go_silver_core.WebUi.{TaskState, PeerState}
use go_silver_core.WebUi.Peers.{
  Peers, or_no_peer, merged, store_peer, task_of, Reply, skipped, refused, answered, running_task,
  failed_task, poll_peer, poll_all, all_done, store_all, failures, Round, completed, judge, monitor,
  Monitored,
}

-- The id of the task that a peer is followed for.
abbrev pub task_id : Option TaskState → Option Str
task_id none = none
task_id (some t) = some t.id

abbrev pub followed : Bool → Peers → List (Str × Option Str)
followed command [] = []
followed command ((id, p) ∷ ps) = (id, task_id (task_of command p)) ∷ followed command ps

same-eq : (a b : Str) → same a b ≡ true → a ≡ b
same-eq a b h = ground arith

poll_peer-id :
    (command : Bool) (r : Reply) (p : PeerState)
    → task_id (task_of command (poll_peer command (task_of command p) r p))
      ≡ task_id (task_of command p)
poll_peer-id true skipped p = ground arith
poll_peer-id true (refused e) p = ground arith
poll_peer-id true (answered t) p = ground arith
poll_peer-id false skipped p = ground arith
poll_peer-id false (refused e) p = ground arith
poll_peer-id false (answered t) p = ground arith

followed-poll_all :
    (command : Bool) (replies : Str → Reply) (peers : Peers)
    → followed command (poll_all command replies peers) ≡ followed command peers
followed-poll_all command replies [] = refl
followed-poll_all command replies ((id, p) ∷ ps) =
    cc (poll_peer-id command (replies id) p, followed-poll_all command replies ps)

poll_all-absent :
    (command : Bool) (replies : Str → Reply) (j : Str) (peers : Peers)
    → get str_dec j peers ≡ none
    → get str_dec j (poll_all command replies peers) ≡ none
unfolding get
poll_all-absent command replies j [] h = refl
poll_all-absent command replies j ((id, p) ∷ ps) h =
    ground (arith, poll_all-absent command replies j ps)

poll_all-Unique :
    (command : Bool) (replies : Str → Reply) (peers : Peers)
    → Unique str_dec peers
    → Unique str_dec (poll_all command replies peers)
poll_all-Unique command replies [] u = tt
poll_all-Unique command replies ((id, p) ∷ ps) u =
    (poll_all-absent command replies id ps u.0, poll_all-Unique command replies ps u.1)

-- A peer that is done is not asked.
poll_peer-done :
    (command : Bool) (r : Reply) (o : Option TaskState) (p : PeerState)
    → running_task o ≡ false
    → poll_peer command o r p ≡ p
poll_peer-done command r none p h = refl
poll_peer-done command r (some t) p h = rw h refl

poll_all-done :
    (command : Bool) (replies : Str → Reply) (peers : Peers)
    → all_done command peers ≡ true
    → poll_all command replies peers ≡ peers
poll_all-done command replies [] h = refl
poll_all-done command replies ((id, p) ∷ ps) h = cc (
  poll_peer-done command (replies id) (task_of command p) p (ground arith),
  poll_all-done command replies ps (ground arith),
)

task_of-merged :
    (command : Bool) (p old : PeerState)
    → task_of command (merged command p old) ≡ task_of command p
task_of-merged true p old = refl
task_of-merged false p old = refl

-- The table shows for a peer the task that it is followed for.
abbrev pub Shows : Bool → Peers → Str → PeerState → Type 0
Shows command probes id p = task_of command (or_no_peer (get str_dec id probes)) ≡ task_of command p

store_peer-Shows :
    (command : Bool) (id : Str) (p : PeerState) (probes : Peers)
    → Shows command (store_peer command id p probes) id p
unfolding store_peer
store_peer-Shows command id p probes =
    let new = merged command p (or_no_peer (get str_dec id probes)) in
    ap (λ o. task_of command (or_no_peer o))
      (get-put str_dec id id new probes ∙ if_pos (str_dec id id) refl _ _)
    ∙ task_of-merged command p (or_no_peer (get str_dec id probes))

store_all-other :
    (command : Bool) (j : Str) (peers probes : Peers)
    → get str_dec j peers ≡ none
    → get str_dec j (store_all command peers probes) ≡ get str_dec j probes
unfolding get store_peer
store_all-other command j [] probes h = refl
store_all-other command j ((id, p) ∷ ps) probes h = ground (
  arith,
  store_all-other command j ps (store_peer command id p probes),
  get-put str_dec id j (merged command p (or_no_peer (get str_dec id probes))) probes,
)

store_all-Shows :
    (command : Bool) (peers probes : Peers)
    → Unique str_dec peers
    → Every (Shows command (store_all command peers probes)) peers
store_all-Shows command [] probes u = tt
store_all-Shows command ((id, p) ∷ ps) probes u = (
  ap (λ o. task_of command (or_no_peer o))
        (store_all-other command id ps (store_peer command id p probes) u.0)
      ∙ store_peer-Shows command id p probes,
  store_all-Shows command ps (store_peer command id p probes) u.1,
)

-- A peer whose task has ended, and well.
abbrev pub EndedWell : Bool → PeerState → Type 0
EndedWell command p =
    (running_task (task_of command p) ≡ false) × (failed_task (task_of command p) ≡ false)

done-EndedWell :
    (command : Bool) (probes peers : Peers)
    → all_done command peers ≡ true
    → failures command peers ≡ 0
    → Every (Shows command probes) peers
    → Every (λ id p. EndedWell command p × Shows command probes id p) peers
done-EndedWell command probes [] d n s = tt
done-EndedWell command probes ((id, p) ∷ ps) d n s = (
  ((ground arith, ground arith), s.0),
  done-EndedWell command probes ps (ground arith) (ground arith) s.1,
)

-- What holds of the tables in the end.
abbrev Good : Bool → Peers → Monitored → Type 0
Good command peers m =
    Every (λ id p. EndedWell command p × Shows command m.probes id p) m.peers
    × (followed command m.peers ≡ followed command peers)

judge-completed :
    (command : Bool) (peers : Peers) → judge command peers ≡ completed → failures command peers ≡ 0
judge-completed command peers h = ground arith

module _ (command : Bool) (r : Round) (peers probes : Peers) (u : Unique str_dec peers) where
  polled-Good :
      all_done command peers ≡ true
      → judge command (poll_all command r.replies peers) ≡ completed
      → Good command peers (record {
        verdict = judge command (poll_all command r.replies peers);
        peers = poll_all command r.replies peers;
        probes = store_all command (poll_all command r.replies peers) probes;
      })
  polled-Good done h =
      let polled = poll_all command r.replies peers in
      (
        done-EndedWell command (store_all command polled probes) polled
            (ap (all_done command) (poll_all-done command r.replies peers done) ∙ done)
            (judge-completed command polled h)
            (store_all-Shows command polled probes (poll_all-Unique command r.replies peers u)),
        followed-poll_all command r.replies peers,
      )

-- When `monitor` returns without an error, every peer that it followed has ended its task, without a
-- failure or cancellation, and is shown with it in the table; and each is still followed for the task
-- that it had at the start, whatever it answered in between.
pub monitor-completed :
    (command : Bool) (rounds : List Round) (peers probes : Peers)
    → Unique str_dec peers
    → (monitor command rounds peers probes).verdict ≡ completed
    → Every
        (λ id p.
          EndedWell command p × Shows command (monitor command rounds peers probes).probes id p)
        (monitor command rounds peers probes).peers
      × (followed command (monitor command rounds peers probes).peers ≡ followed command peers)
unfolding monitor
monitor-completed command [] peers probes u h = absurd (cc)
monitor-completed command (r ∷ rs) peers probes u h =
    let polled = poll_all command r.replies peers in
    let stored = store_all command polled probes in
    elim (Bool-cases r.ended_before) [
      | inl ended ↦ absurd (ground (arith, ended))
      | inr on ↦ elim (Bool-cases (all_done command peers)) [
        | inl done ↦
            let e : monitor command (r ∷ rs) peers probes
                ≡ record { verdict = judge command polled; peers = polled; probes = stored } =
              ground (arith, on, done) in
            subst (Good command peers) (sym e)
              (polled-Good command r peers probes u done (sym (ap (λ m. m.verdict) e) ∙ h))
        | inr busy ↦ elim (Bool-cases r.ended_after) [
          | inl ended ↦ absurd (ground (arith, on, busy, ended))
          | inr still ↦
              let e : monitor command (r ∷ rs) peers probes ≡ monitor command rs polled stored =
                ground (arith, on, busy, still) in
              let (well, tasks) =
                monitor-completed command rs polled stored
                  (poll_all-Unique command r.replies peers u) (sym (ap (λ m. m.verdict) e) ∙ h) in
              subst (Good command peers) (sym e)
                (well, tasks ∙ followed-poll_all command r.replies peers)
        ]
      ]
    ]
