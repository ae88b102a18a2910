-- ===== src/WebUi/Distribution.antt =====
-- internal/webui/distribution.go: the distribution that goes on taking in receivers as they appear.
pub mod Once
use go_silver_core.Prelude.Maps.{get, put}
use go_silver_core.Prelude.{
  ℕ, suc, ◌+◌, Bool, true, false, not, ◌&&◌, ◌||◌, Option, none, some, List, [], ◌∷◌, ◌++◌, Str,
  str_dec, codes, if◌then◌else◌,
}
use go_silver_core.Folders.{same}
use go_silver_core.WebUi.{failed, Err, TaskState, PeerState}
use go_silver_core.WebUi.Agent.{idle_task}
use go_silver_core.WebUi.Peers.{Peers, no_peer, store_peer, running_task}
use go_silver_core.WebUi.Dispatch.{Known}

-- What a new receiver answers: to "probe", and then to "start".
pub data Joining : Type 0 where
  unfit : Str → Joining
  not_started : Str → List Str → Err → Str → Joining
  joined : Bool → Str → List Str → TaskState → Joining

-- What one that was taken in answers to "status".
pub data Poll : Type 0 where
  lost : Err → Poll
  told : TaskState → Poll

abbrev pub broken : Str → Err → TaskState
broken id e = record idle_task { id = id; kind = codes "download"; status = failed; error = some e }

abbrev pub taken_in : Str → Str → Joining → PeerState
taken_in spec_id addr (unfit text) = record no_peer { addr = addr; probe = text }
taken_in spec_id addr (not_started target warnings e text) = record no_peer {
  addr = addr;
  probe = text;
  warnings = warnings;
  task = some (broken spec_id e);
}
taken_in spec_id addr (joined ready target warnings t) = record no_peer {
  addr = addr;
  ready = ready;
  probe = target;
  warnings = warnings;
  task = some t;
}

abbrev pub polled : Str → Str → Poll → PeerState → PeerState
polled spec_id addr (lost e) p = record p { addr = addr; task = some (broken spec_id e) }
polled spec_id addr (told t) p =
    if same t.id spec_id then record p { addr = addr; task = some t } else record p { addr = addr }

-- A round: whether new receivers are accepted, the receivers that are there, what they answer, and,
-- if the context ends in the round, which of the goroutines came to store their result before.
pub record Round : Type 0 where
  pub accepting : Bool
  pub snapshot : List Known
  pub joins : Str → Joining
  pub polls : Str → Poll
  pub ended : Option (Str → Bool)

abbrev pub stored : Option (Str → Bool) → Str → Bool
stored none id = true
stored (some f) id = f id

-- The receiver's new state, if it is contacted in this round; `previous` are the members before it.
abbrev pub contact : Str → Round → Known → Option PeerState → Option PeerState
contact spec_id r k none =
    if r.accepting then some (taken_in spec_id k.addr (r.joins k.uuid)) else none
contact spec_id r k (some p) =
    if running_task p.task then some (polled spec_id k.addr (r.polls k.uuid) p) else none

abbrev pub contacted : Str → Round → Known → Peers → Option PeerState
contacted spec_id r k previous =
    if k.self then none else contact spec_id r k (get str_dec k.uuid previous)

pub record Distributed : Type 0 where
  pub members : Peers
  pub probes : Peers

abbrev pub store_contact : Round → Str → Option PeerState → Distributed → Distributed
store_contact r id none s = s
store_contact r id (some p) s =
    if stored r.ended id
    then record { members = put str_dec id p s.members; probes = store_peer false id p s.probes }
    else s

-- The goroutines of a round, which all see the members as they were before it.
abbrev pub contact_all : Str → Round → Peers → List Known → Distributed → Distributed
contact_all spec_id r previous [] s = s
contact_all spec_id r previous (k ∷ ks) s =
    contact_all spec_id r previous ks (store_contact r k.uuid (contacted spec_id r k previous) s)

-- Does the receiver come to be asked to start? It must be new, and fit.
abbrev pub is_fit : Joining → Bool
is_fit (unfit text) = false
is_fit _ = true

abbrev pub asks_start : Round → Known → Peers → Bool
asks_start r k previous =
    not k.self
    && r.accepting
    && is_fit (r.joins k.uuid)
    && elim (get str_dec k.uuid previous) [ none ↦ true | some p ↦ false ]

abbrev pub starts_of : Round → Peers → List Known → List Str
starts_of r previous [] = []
starts_of r previous (k ∷ ks) =
    let rest = starts_of r previous ks in if asks_start r k previous then k.uuid ∷ rest else rest

-- `distributionLoop`: the receivers that are asked to start, in all rounds (in one that is broken off
-- these at most), and what is known in the end.
unfoldable pub distribute : Str → List Round → Distributed → List Str × Distributed
distribute spec_id [] s = ([], s)
distribute spec_id (r ∷ rs) s =
    let now = starts_of r s.members r.snapshot in
    let t = contact_all spec_id r s.members r.snapshot s in
    let rest = distribute spec_id rs t in
    elim r.ended [ some f ↦ (now, t) | none ↦ (now ++ rest.0, rest.1) ]

-- The numbers that are shown: the members that were fit, and the others.
unfoldable pub admitted : Peers → ℕ
admitted [] = 0
admitted ((id, p) ∷ ps) = (if p.ready then 1 else 0) + admitted ps

unfoldable pub excluded : Peers → ℕ
excluded [] = 0
excluded ((id, p) ∷ ps) = (if p.ready then 0 else 1) + excluded ps
