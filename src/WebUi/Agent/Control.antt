-- ===== src/WebUi/Agent/Control.antt =====
-- internal/webui/agent.go: the requests that a receiver's agent answers, and the download that one
-- of them starts.
pub mod Guards
pub mod Starts
pub mod Commands
pub mod Download
use go_silver_core.Prelude.Int.{ℤ, pos, int_dec}
use go_silver_core.Prelude.{
  ℕ, Bool, true, false, not, ◌&&◌, ◌||◌, Option, none, some, List, [], ◌∷◌, ◌++◌, Str, codes,
  if◌then◌else◌, ◌==◌, ite, leb, length,
}
use go_silver_core.Prelude.Text.{str_dec}
use go_silver_core.Folders.{Entry, same, validate_entries}
use go_silver_core.Client.{is_base}
use go_silver_core.Server.Sched.{is_empty}
use go_silver_core.WebUi.{
  is_running, is_seeding, Err, busy, bad_token, malformed, bad_spec, source_changed, no_commands,
  empty_command, unknown_operation, Result, ok, err, TaskState, Command, Meta, TaskSpec,
}
use go_silver_core.WebUi.Agent.{Agent, launch, launch_command, cancel_task, cancel_command}

-- `model.ControlRequest`; the payload is JSON text, empty if there is none.
pub record ControlRequest : Type 0 where
  pub method : Str
  pub token : Str
  pub payload : Str

pub data Method : Type 0 where
  probe start browse status command_status command_cancel cancel command : Method
  other : Method

unfoldable pub method_of : Str → Method
method_of m =
    if same m (codes "probe")
    then probe
    else if same m (codes "start")
    then start
    else if same m (codes "browse")
    then browse
    else if same m (codes "status")
    then status
    else if same m (codes "command.status")
    then command_status
    else if same m (codes "command.cancel")
    then command_cancel
    else if same m (codes "cancel")
    then cancel
    else if same m (codes "command")
    then command
    else other

-- Reading JSON: nothing for text that does not have the form.
pub record Json : Type 0 where
  pub request_of : Str → Option ControlRequest
  pub spec_of : Str → Option TaskSpec
  pub path_of : Str → Option Str
  pub id_of : Str → Option Str
  pub command_of : Str → Option Command

-- What the agent asks the file system and the sender: `resolve`, `probe` with the extra bytes,
-- `listDirectory`, `GetFileStatus`, and a new key.
pub record World (Probe Listing : Type 0) : Type 0 where
  pub resolves : Str → Result Str
  pub probes : TaskSpec → ℤ → Result Probe
  pub lists : Str → Result Listing
  pub file_status : Result Meta
  pub new_key : Str

pub data Answer (Probe Listing : Type 0) : Type 0 where
  task : TaskState → Answer Probe Listing
  probed : Probe → Answer Probe Listing
  listing : Listing → Answer Probe Listing
  accepted : Answer Probe Listing

-- `validateSpec`
abbrev pub is_single : ℤ → List Entry → Bool
is_single size (e ∷ []) = not e.dir && ite (int_dec e.size size) true false
is_single size _ = false

unfoldable pub validate_spec : TaskSpec → Bool
validate_spec s =
    not (is_empty s.id)
    && validate_entries s.entries
    && is_base s.meta.file_name
    && (s.archive || is_single s.meta.file_size s.entries)

-- strings.TrimSpace(text) == "", on UTF-8: the state is the part of a long space that was read.
abbrev pub space_step : ℕ → ℕ → Option ℕ
space_step state c =
    if state == 0
    then if c == 32 || leb 9 c && leb c 13
      then some 0
      else if c == 0xC2
      then some 1
      else if c == 0xE1
      then some 2
      else if c == 0xE2
      then some 4
      else if c == 0xE3
      then some 7
      else none
    else if state == 1
    then if c == 0x85 || c == 0xA0 then some 0 else none
    else if state == 2
    then if c == 0x9A then some 3 else none
    else if state == 3
    then if c == 0x80 then some 0 else none
    else if state == 4
    then if c == 0x80 then some 5 else if c == 0x81 then some 6 else none
    else if state == 5
    then if leb 0x80 c && leb c 0x8A || c == 0xA8 || c == 0xA9 || c == 0xAF then some 0 else none
    else if state == 6
    then if c == 0x9F then some 0 else none
    else if state == 7
    then if c == 0x80 then some 8 else none
    else if c == 0x80
    then some 0
    else none

unfoldable pub blank_from : ℕ → Str → Bool
blank_from state [] = state == 0
blank_from state (c ∷ cs) = elim (space_step state c) [
  | none ↦ false
  | some next ↦ blank_from next cs
]

unfoldable pub is_blank : Str → Bool
unfolding blank_from
is_blank text = blank_from 0 text

unfoldable pub meta_dec : Discrete Meta
unfolding int_dec str_dec
meta_dec = hlevel (int_dec, str_dec)

-- The id of a payload that may be missing or null.
unfoldable pub wanted_id : Json → Str → Option Str
wanted_id j payload =
    if is_empty payload || same payload (codes "null") then some [] else j.id_of payload

module _ {Probe Listing : Type 0} (j : Json) (w : World Probe Listing) where
  abbrev pub as_task : Result TaskState × Agent → Result (Answer Probe Listing) × Agent
  as_task (ok t, a) = (ok (task t), a)
  as_task (err e, a) = (err e, a)

  abbrev pub extra_bytes : TaskSpec → ℤ
  extra_bytes spec = if spec.archive then spec.meta.file_size else pos 0

  -- The rest of "start" behind the probe, with the metadata that were read again.
  unfoldable pub start_checked :
      Result Meta → TaskSpec → Agent → Result (Answer Probe Listing) × Agent
  start_checked (err e) spec now = (err e, now)
  start_checked (ok meta) spec now =
      ite (meta_dec meta spec.meta) (as_task (launch spec.id now)) (err source_changed, now)

  -- "probe" and "start"; the agent's lock is given up between the look at the task and the launch.
  unfoldable pub prepare : Bool → TaskSpec → Agent → Agent → Result (Answer Probe Listing) × Agent
  unfolding start_checked
  prepare starting spec before now =
      let t = before.download.state in
      if starting && same t.id spec.id && (is_running t.status || is_seeding t.status)
      then (ok (task t), now)
      else if is_running t.status
      then (err busy, now)
      else if not (validate_spec spec)
      then (err bad_spec, now)
      else elim (w.probes spec (extra_bytes spec)) [
        | err e ↦ (err e, now)
        | ok p ↦ if starting then start_checked w.file_status spec now else (ok (probed p), now)
      ]

  unfoldable pub run_command : Str → Agent → Agent → Result (Answer Probe Listing) × Agent
  run_command payload before now =
      if not before.allow_commands then (err no_commands, now) else elim (j.command_of payload) [
        | none ↦ (err malformed, now)
        | some c ↦
            if is_blank c.text then (err empty_command, now) else elim (w.resolves c.directory) [
              | err e ↦ (err e, now)
              | ok dir ↦ as_task (
                  launch_command
                    (record c { directory = dir; id = if is_empty c.id then w.new_key else c.id })
                    now)
            ]
      ]

  abbrev pub with_spec :
      Bool → Option TaskSpec → Agent → Agent → Result (Answer Probe Listing) × Agent
  with_spec starting none before now = (err malformed, now)
  with_spec starting (some spec) before now = prepare starting spec before now

  -- Whether a cancellation is meant for the task with this id.
  abbrev pub is_meant : Str → Str → Bool
  is_meant wanted id = is_empty wanted || same wanted id

  -- `before` is the agent when the request comes, `now` when the request changes it.
  unfoldable pub answer : Method → Str → Agent → Agent → Result (Answer Probe Listing) × Agent
  unfolding prepare run_command
  answer probe payload before now = with_spec false (j.spec_of payload) before now
  answer start payload before now = with_spec true (j.spec_of payload) before now
  answer browse payload before now = elim (j.path_of payload) [
    | none ↦ (err malformed, now)
    | some path ↦ elim (w.resolves path) [
      | err e ↦ (err e, now)
      | ok dir ↦ elim (w.lists dir) [ err e ↦ (err e, now) | ok found ↦ (ok (listing found), now) ]
    ]
  ]
  answer status payload before now = (ok (task now.download.state), now)
  answer command_status payload before now = (ok (task now.command.state), now)
  answer command_cancel payload before now = elim (wanted_id j payload) [
    | none ↦ (err malformed, now)
    | some id ↦ (ok accepted, if is_meant id now.command.state.id then cancel_command now else now)
  ]
  answer cancel payload before now = elim (wanted_id j payload) [
    | none ↦ (err malformed, now)
    | some id ↦ (ok accepted, if is_meant id now.download.state.id then cancel_task now else now)
  ]
  answer command payload before now = run_command payload before now
  answer other payload before now = (err unknown_operation, now)

  unfoldable pub control : Str → Agent → Agent → Result (Answer Probe Listing) × Agent
  unfolding answer
  control raw before now = elim (j.request_of raw) [
    | none ↦ (err malformed, now)
    | some req ↦
        if not (same req.token before.token)
        then (err bad_token, now)
        else answer (method_of req.method) req.payload before now
  ]
