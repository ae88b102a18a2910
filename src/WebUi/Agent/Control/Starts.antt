-- ===== src/WebUi/Agent/Control/Starts.antt =====
-- internal/webui/agent.go: what a request must be to start a download.
use go_silver_core.Prelude.{
  suc, ◌≡◌, refl, sym, ap, ◌∙◌, Bool, true, false, ◌&&◌, ◌||◌, Option, none, some, Str, codes,
  length, inl, inr, Bool-cases, Option-cases, arith, if_pos,
}
use go_silver_core.Folders.{same}
use go_silver_core.WebUi.{is_running, is_seeding, Result, ok, err, TaskSpec, Meta}
use go_silver_core.WebUi.Agent.{Agent, launch, launch_command, cancel_task, cancel_command}
use go_silver_core.WebUi.Agent.Control.{
  ControlRequest, Method, probe, start, browse, status, command_status, command_cancel, cancel,
  command, other, method_of, Json, World, task, validate_spec, meta_dec, wanted_id, extra_bytes,
  as_task, start_checked, prepare, run_command, with_spec, answer, control,
}
use go_silver_core.WebUi.Agent.Control.Guards.{
  downloads, cancel_in-length, Result-cases, started, launch_in-started, as_task-snd, as_task-fst,
  IsAllowed, control-answer,
}

-- What "start" was asked for, and what it passed.
pub record IsStart (Probe Listing : Type 0) (j : Json) (w : World Probe Listing) (payload : Str)
    (before now : Agent) (spec : TaskSpec) : Type 0 where
  pub asked : j.spec_of payload ≡ some spec
  pub free : is_running before.download.state.status ≡ false
  pub still_free : is_running now.download.state.status ≡ false
  pub valid : validate_spec spec ≡ true
  pub fits : (p : Probe) × (w.probes spec (extra_bytes j w spec) ≡ ok p)
  pub current : w.file_status ≡ ok spec.meta

module _ {Probe Listing : Type 0} (j : Json) (w : World Probe Listing) (before now : Agent) where
  start_checked-starts :
      (r : Result Meta) (spec : TaskSpec)
      → downloads (start_checked j w r spec now).1 ≡ suc (downloads now)
      → (is_running now.download.state.status ≡ false)
        × (r ≡ ok spec.meta)
        × ((start_checked j w r spec now).0 ≡ ok (task (started (codes "download") spec.id)))
  unfolding start_checked launch
  start_checked-starts (err e) spec h = absurd (omega (arith, h))
  start_checked-starts (ok meta) spec h = elim (meta_dec meta spec.meta) [
    | no changed ↦ absurd (ground (arith, changed))
    | yes same_meta ↦
        let e : start_checked j w (ok meta) spec now ≡ as_task j w (launch spec.id now) =
          if_pos (meta_dec meta spec.meta) same_meta _ _ in
        let grown =
          sym (
            ap (λ x. length x.download.jobs)
              (ap (λ x. x.1) e ∙ as_task-snd j w before now (launch spec.id now)))
          ∙ h in
        let (free, result) =
          launch_in-started now.stopped now.next_ctx (codes "download") spec.id now.download
            grown in
        (
          free,
          ap ok same_meta,
          ap (λ x. x.0) e ∙ as_task-fst j w before now (launch spec.id now) _ result,
        )
  ]

  prepare-starts :
      (starting : Bool) (payload : Str) (spec : TaskSpec)
      → j.spec_of payload ≡ some spec
      → downloads (prepare j w starting spec before now).1 ≡ suc (downloads now)
      → (starting ≡ true)
        × IsStart Probe Listing j w payload before now spec
        × ((prepare j w starting spec before now).0
            ≡ ok (task (started (codes "download") spec.id)))
  unfolding prepare
  prepare-starts starting payload spec asked h =
      elim (Bool-cases (
        starting
        && same before.download.state.id spec.id
        && (is_running before.download.state.status || is_seeding before.download.state.status))) [
          | inl again ↦ absurd (ground (arith, again))
          | inr fresh ↦ elim (Bool-cases (is_running before.download.state.status)) [
            | inl b ↦ absurd (ground (arith, fresh, b))
            | inr free ↦ elim (Bool-cases (validate_spec spec)) [
              | inr bad ↦ absurd (ground (arith, fresh, free, bad))
              | inl valid ↦ elim (Result-cases (w.probes spec (extra_bytes j w spec))) [
                | inl (e, bad) ↦ absurd (ground (arith, fresh, free, valid, bad))
                | inr (p, fits) ↦ elim (Bool-cases starting) [
                  | inr n ↦ absurd (ground (arith, fresh, free, valid, fits, n))
                  | inl s ↦
                      let e : prepare j w starting spec before now
                          ≡ start_checked j w w.file_status spec now =
                        ground (arith, fresh, free, valid, fits, s) in
                      let (still, current, result) =
                        start_checked-starts w.file_status spec
                          (sym (ap (λ x. downloads x.1) e) ∙ h) in
                      (
                        s,
                        record {
                          asked = asked;
                          free = free;
                          still_free = still;
                          valid = valid;
                          fits = (p, fits);
                          current = current;
                        },
                        ap (λ x. x.0) e ∙ result,
                      )
                ]
              ]
            ]
          ]
        ]

  module _ (payload : Str) where
    prepared :
        (starting : Bool) (o : Option TaskSpec)
        → j.spec_of payload ≡ o
        → downloads (with_spec j w starting o before now).1 ≡ suc (downloads now)
        → (spec : TaskSpec) × (starting ≡ true)
          × IsStart Probe Listing j w payload before now spec
          × ((with_spec j w starting o before now).0
              ≡ ok (task (started (codes "download") spec.id)))
    prepared starting none asked h = absurd (omega (arith, h))
    prepared starting (some spec) asked h =
        let (s, is_start, result) = prepare-starts starting payload spec asked h in
        (spec, s, is_start, result)

    -- A request other than "start" begins no download.
    answer-downloads :
        (m : Method)
        → downloads (answer j w m payload before now).1 ≡ suc (downloads now)
        → (spec : TaskSpec) × (m ≡ start)
          × IsStart Probe Listing j w payload before now spec
          × ((answer j w m payload before now).0 ≡ ok (task (started (codes "download") spec.id)))
    unfolding answer run_command launch_command cancel_command cancel_task
    answer-downloads start h =
        let (spec, _, is_start, result) = prepared true (j.spec_of payload) refl h in
        (spec, refl, is_start, result)
    answer-downloads probe h =
        let (spec, never, _, _) = prepared false (j.spec_of payload) refl h in absurd (cc)
    answer-downloads browse h = absurd (ground arith)
    answer-downloads status h = absurd (omega (arith, h))
    answer-downloads command_status h = absurd (omega (arith, h))
    answer-downloads command_cancel h = elim (Option-cases (wanted_id j payload)) [
      | inl n ↦ absurd (ground (arith, n))
      | inr (id, e) ↦ absurd (ground (arith, e))
    ]
    answer-downloads cancel h = elim (Option-cases (wanted_id j payload)) [
      | inl n ↦ absurd (ground (arith, n))
      | inr (id, e) ↦ absurd (ground (arith, e, cancel_in-length now.download))
    ]
    answer-downloads command h = absurd (ground arith)
    answer-downloads other h = absurd (omega (arith, h))

  -- A request begins a download only if it is a "start" with the agent's token, no download was going
  -- on, neither when it came nor at the launch, its manifest and metadata are valid, the target passed
  -- the probe and the sender's metadata are those of the request at the launch; the answer is then
  -- the new task.
  pub control-downloads :
      (raw : Str)
      → downloads (control j w raw before now).1 ≡ suc (downloads now)
      → (req : ControlRequest) × (spec : TaskSpec) × IsAllowed j w before now raw req
        × (method_of req.method ≡ start)
        × IsStart Probe Listing j w req.payload before now spec
        × ((control j w raw before now).0 ≡ ok (task (started (codes "download") spec.id)))
  control-downloads raw h =
      let (req, allowed, e) = control-answer j w before now raw downloads h in
      let (spec, m, is_start, result) =
        answer-downloads req.payload (method_of req.method) (sym (ap (λ x. downloads x.1) e) ∙ h) in
      (req, spec, allowed, m, is_start, ap (λ x. x.0) e ∙ result)
