-- ===== src/WebUi/Dispatch/Starts.antt =====
-- internal/webui/app.go: whom a dispatch starts after a probe.
use go_silver_core.Prelude.Maps.{get, put, get-put, Unique, put-Unique}
use go_silver_core.Prelude.Text.{str_dec}
use go_silver_core.Prelude.{
  ◌≡◌, refl, ap, ◌∙◌, Bool, true, false, not, ◌&&◌, ◌||◌, Option, none, some, List, [], ◌∷◌, Str,
  if◌then◌else◌, Bool-cases, inl, inr, arith,
}
use go_silver_core.Folders.{same}
use go_silver_core.WebUi.{TaskSpec, PeerState}
use go_silver_core.WebUi.Peers.{Peers, or_no_peer}
use go_silver_core.WebUi.Dispatch.{
  Dispatch, Known, ProbeReply, unfit, probed, selected, reply_state, results, keep_tasks,
  store_results, Table, nobody_selected, probe, starts, dispatch_calls,
}

-- Is a peer among those that are asked to start?
abbrev pub named : Str → List (Str × Str) → Bool
named id [] = false
named id ((j, addr) ∷ xs) = same j id || named id xs

abbrev pub is_ready : Option PeerState → Bool
is_ready none = false
is_ready (some p) = p.ready

named-starts_absent :
    (d : Dispatch) (id : Str) (ps : Peers)
    → get str_dec id ps ≡ none
    → named id (starts d ps) ≡ false
unfolding get
named-starts_absent d id [] h = refl
named-starts_absent d id ((j, p) ∷ ps) h = ground (arith, named-starts_absent d id ps)

named-starts :
    (d : Dispatch) (id : Str) (ps : Peers)
    → Unique str_dec ps
    → named id (starts d ps) ≡ (is_ready (get str_dec id ps) && selected d.ids id)
unfolding get
named-starts d id [] u = refl
named-starts d id ((j, p) ∷ ps) u = elim (str_dec j id) [
  | yes e ↦ ground (arith, e, named-starts_absent d id ps, ap (λ x. get str_dec x ps) e, u.0)
  | no n ↦ ground (arith, n, named-starts d id ps u.1)
]

-- The answer of a probe.
abbrev pub reply_ready : ProbeReply → Bool
reply_ready (unfit e) = false
reply_ready (probed ready target warnings) = ready

-- Is the peer in the snapshot, and not this node itself?
abbrev pub reached : Str → List Known → Bool
reached id [] = false
reached id (k ∷ ks) = not k.self && same k.uuid id || reached id ks

reply_state-ready : (k : Known) (r : ProbeReply) → (reply_state k r).ready ≡ reply_ready r
reply_state-ready k (unfit e) = refl
reply_state-ready k (probed ready target warnings) = refl

module _ (d : Dispatch) (replies : Str → ProbeReply) (id : Str)
    (sel : selected d.ids id ≡ true) where
  put-ready :
      (k : Known) (probes : Peers)
      → is_ready (
          get str_dec id (
            put str_dec k.uuid
              (keep_tasks (or_no_peer (get str_dec k.uuid probes)) (reply_state k (replies k.uuid)))
              probes))
        ≡ (if same k.uuid id then reply_ready (replies id) else is_ready (get str_dec id probes))
  put-ready k probes =
      let p =
        keep_tasks (or_no_peer (get str_dec k.uuid probes)) (reply_state k (replies k.uuid)) in
      ap is_ready (get-put str_dec k.uuid id p probes) ∙ (elim (str_dec k.uuid id) [
        | yes e ↦
            ground
              (arith, e, reply_state-ready k (replies k.uuid), ap (λ x. reply_ready (replies x)) e)
        | no n ↦ ground (arith, n)
      ])

  same-selected : (x : Str) → same x id ≡ true → selected d.ids x ≡ true
  same-selected x h = let e : x ≡ id = ground (arith, h) in ap (selected d.ids) e ∙ sel

  store_results-ready :
      (ks : List Known) (probes : Peers)
      → is_ready (get str_dec id (store_results (results d replies ks) probes))
        ≡ (if reached id ks then reply_ready (replies id) else is_ready (get str_dec id probes))
  store_results-ready [] probes = refl
  store_results-ready (k ∷ ks) probes = elim (Bool-cases (k.self || not (selected d.ids k.uuid))) [
    | inl skip ↦ ground (arith, skip, store_results-ready ks probes, same-selected k.uuid)
    | inr ask ↦ ground (
      arith,
      ask,
      put-ready k probes,
      store_results-ready ks (
          put str_dec k.uuid
            (keep_tasks (or_no_peer (get str_dec k.uuid probes)) (reply_state k (replies k.uuid)))
            probes),
    )
  ]

store_results-Unique :
    (rs probes : Peers) → Unique str_dec probes → Unique str_dec (store_results rs probes)
store_results-Unique [] probes u = u
store_results-Unique ((id, p) ∷ rs) probes u =
    store_results-Unique rs _
      (put-Unique str_dec id (keep_tasks (or_no_peer (get str_dec id probes)) p) probes u)

same_refl : (x : Str) → same x x ≡ true
same_refl x = ground arith

-- Right after a probe that went through, a dispatch with the same file, selection and target is not
-- refused while no distribution is active, and it asks a selected peer to start if and only if the
-- peer was reached by the probe and found fit, or was not reached and had been fit before.
pub probe-dispatch :
    (fingerprint : TaskSpec → Dispatch → Str) (spec : TaskSpec) (d : Dispatch)
    (replies : Str → ProbeReply) (snapshot : List Known) (t : Table) (id : Str)
    → Unique str_dec t.probes
    → (probe fingerprint (some spec) d false replies snapshot t).0 ≡ none
    → selected d.ids id ≡ true
    → (calls : List (Str × Str)) × (dispatch_calls fingerprint
          (some spec)
          false
          d
          (probe fingerprint (some spec) d false replies snapshot t).1
        ≡ some calls)
      × (named id calls ≡ (
          if reached id snapshot
          then reply_ready (replies id)
          else is_ready (get str_dec id t.probes)))
unfolding probe dispatch_calls
probe-dispatch fingerprint spec d replies snapshot t id u h sel =
    let probes = store_results (results d replies snapshot) t.probes in
    let unique = store_results-Unique (results d replies snapshot) t.probes u in
    elim (Bool-cases (nobody_selected d.ids)) [
      | inl nobody ↦ absurd (ground (arith, nobody))
      | inr somebody ↦ (
        starts d probes,
        ground (arith, somebody, same_refl (fingerprint spec d)),
        named-starts d id probes unique
            ∙ ground (arith, sel, store_results-ready d replies id sel snapshot t.probes),
      )
    ]
