-- ===== src/WebUi/Agent/Control/Commands.antt =====
-- internal/webui/agent.go: what a request must be to start a command.
use go_silver_core.Prelude.{
  suc, ◌≡◌, refl, sym, ap, ◌∙◌, Bool, true, false, some, Str, codes, length, if◌then◌else◌, inl,
  inr, Bool-cases, Option-cases, arith,
}
use go_silver_core.Server.Sched.{is_empty}
use go_silver_core.WebUi.{is_running, ok, Command, TaskSpec}
use go_silver_core.WebUi.Agent.{Agent, launch, launch_command, cancel_task, cancel_command}
use go_silver_core.WebUi.Agent.Control.{
  ControlRequest, Method, probe, start, browse, status, command_status, command_cancel, cancel,
  command, other, method_of, Json, World, task, is_blank, wanted_id, as_task, start_checked,
  prepare, run_command, answer, control,
}
use go_silver_core.WebUi.Agent.Control.Guards.{
  commands, cancel_in-length, Result-cases, started, launch_in-started, as_task-snd, as_task-fst,
  IsAllowed, control-answer,
}

-- What "command" was asked for, and what it passed.
pub record IsCommand (Probe Listing : Type 0) (j : Json) (w : World Probe Listing) (payload : Str)
    (before now : Agent) (c : Command) : Type 0 where
  pub asked : j.command_of payload ≡ some c
  pub allowed : before.allow_commands ≡ true
  pub free : is_running now.command.state.status ≡ false
  pub not_blank : is_blank c.text ≡ false
  pub placed : (dir : Str) × (w.resolves c.directory ≡ ok dir)

module _ {Probe Listing : Type 0} (j : Json) (w : World Probe Listing) (before now : Agent) where
  run_command-starts :
      (payload : Str)
      → commands (run_command j w payload before now).1 ≡ suc (commands now)
      → (c : Command) × IsCommand Probe Listing j w payload before now c
        × ((run_command j w payload before now).0
            ≡ ok (task (started (codes "command") (if is_empty c.id then w.new_key else c.id))))
  unfolding run_command launch_command
  run_command-starts payload h = elim (Bool-cases before.allow_commands) [
    | inr n ↦ absurd (ground (arith, n))
    | inl allowed ↦ elim (Option-cases (j.command_of payload)) [
      | inl bad ↦ absurd (ground (arith, allowed, bad))
      | inr (c, asked) ↦ elim (Bool-cases (is_blank c.text)) [
        | inl b ↦ absurd (ground (arith, allowed, asked, b))
        | inr text ↦ elim (Result-cases (w.resolves c.directory)) [
          | inl (e, bad) ↦ absurd (ground (arith, allowed, asked, text, bad))
          | inr (dir, placed) ↦
              let id = if is_empty c.id then w.new_key else c.id in
              let l = launch_command (record c { directory = dir; id = id }) now in
              let e : run_command j w payload before now ≡ as_task j w l =
                ground (arith, allowed, asked, text, placed) in
              let grown =
                sym
                  (ap (λ x. length x.command.jobs) (ap (λ x. x.1) e ∙ as_task-snd j w before now l))
                ∙ h in
              let (free, result) =
                launch_in-started now.stopped now.next_ctx (codes "command") id now.command grown in
              (
                c,
                record {
                  asked = asked;
                  allowed = allowed;
                  free = free;
                  not_blank = text;
                  placed = (dir, placed);
                },
                ap (λ x. x.0) e ∙ as_task-fst j w before now l _ result,
              )
        ]
      ]
    ]
  ]

  prepare-command :
      (starting : Bool) (spec : TaskSpec)
      → (prepare j w starting spec before now).1.command ≡ now.command
  unfolding prepare start_checked launch
  prepare-command starting spec = ground arith

  module _ (payload : Str) where
    -- A request other than "command" begins no command.
    answer-commands :
        (m : Method)
        → commands (answer j w m payload before now).1 ≡ suc (commands now)
        → (c : Command) × (m ≡ command)
          × IsCommand Probe Listing j w payload before now c
          × ((answer j w m payload before now).0
              ≡ ok (task (started (codes "command") (if is_empty c.id then w.new_key else c.id))))
    unfolding answer cancel_command cancel_task
    answer-commands command h =
        let (c, is_command, result) = run_command-starts payload h in (c, refl, is_command, result)
    answer-commands start h = elim (Option-cases (j.spec_of payload)) [
      | inl n ↦ absurd (ground (arith, n))
      | inr (spec, e) ↦ absurd (ground (arith, e, prepare-command true spec))
    ]
    answer-commands probe h = elim (Option-cases (j.spec_of payload)) [
      | inl n ↦ absurd (ground (arith, n))
      | inr (spec, e) ↦ absurd (ground (arith, e, prepare-command false spec))
    ]
    answer-commands browse h = absurd (ground arith)
    answer-commands status h = absurd (omega (arith, h))
    answer-commands command_status h = absurd (omega (arith, h))
    answer-commands command_cancel h = elim (Option-cases (wanted_id j payload)) [
      | inl n ↦ absurd (ground (arith, n))
      | inr (id, e) ↦ absurd (ground (arith, e, cancel_in-length now.command))
    ]
    answer-commands cancel h = elim (Option-cases (wanted_id j payload)) [
      | inl n ↦ absurd (ground (arith, n))
      | inr (id, e) ↦ absurd (ground (arith, e))
    ]
    answer-commands other h = absurd (omega (arith, h))

  -- A request begins a command only if it is a "command" with the agent's token, the receiver was
  -- started with commands allowed, none was going on, the text is not blank and the directory could
  -- be resolved; the answer is then the new task.
  pub control-commands :
      (raw : Str)
      → commands (control j w raw before now).1 ≡ suc (commands now)
      → (req : ControlRequest) × (c : Command) × IsAllowed j w before now raw req
        × (method_of req.method ≡ command)
        × IsCommand Probe Listing j w req.payload before now c
        × ((control j w raw before now).0
            ≡ ok (task (started (codes "command") (if is_empty c.id then w.new_key else c.id))))
  control-commands raw h =
      let (req, allowed, e) = control-answer j w before now raw commands h in
      let (c, m, is_command, result) =
        answer-commands req.payload (method_of req.method) (sym (ap (λ x. commands x.1) e) ∙ h) in
      (req, c, allowed, m, is_command, ap (λ x. x.0) e ∙ result)
