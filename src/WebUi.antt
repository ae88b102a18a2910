-- ===== src/WebUi.antt =====
-- internal/webui: what the parts of the web interface share, from agent.go and app.go. A status is
-- its text in the source; the texts that are only shown to the user (`Message`) are left out.
pub mod Output
pub mod Agent
pub mod Roles
pub mod Peers
pub mod Dispatch
pub mod Distribution
pub mod Upload
pub mod Listing
use go_silver_core.Prelude.Int.{ℤ}
use go_silver_core.Prelude.{ℕ, Bool, true, false, ◌||◌, Option, none, some, List, Str}
use go_silver_core.Folders.{Entry}

-- The texts of `TaskState.Status` and `Operation.Status`; a peer may answer with any other.
pub data Status : Type 0 where
  idle running seeding completed failed cancelled ended : Status
  unknown : Str → Status

abbrev pub is_running : Status → Bool
is_running running = true
is_running _ = false

abbrev pub is_seeding : Status → Bool
is_seeding seeding = true
is_seeding _ = false

-- The errors that the web interface tells apart or makes itself. `passed_on` is an error of a call:
-- whether it wraps context.Canceled, and its text.
pub data Err : Type 0 where
  context_canceled net_closed : Err
  busy bad_token malformed bad_spec source_changed no_commands empty_command : Err
  unknown_operation : Err
  passed_on : Bool → Str → Err

-- errors.Is(err, context.Canceled)
abbrev pub is_canceled : Err → Bool
is_canceled context_canceled = true
is_canceled (passed_on canceled text) = canceled
is_canceled _ = false

-- What a failed task or operation is called.
abbrev pub failure : Err → Status
failure e = elim (is_canceled e) [ true ↦ cancelled | false ↦ failed ]

pub data Result (A : Type 0) : Type 0 where
  ok : A → Result A
  err : Err → Result A

-- `receiver.Progress`, as far as a task shows it.
pub record Progress : Type 0 where
  pub total : ℕ
  pub done_chunks : ℕ
  pub bytes : ℕ
  pub speed : ℕ
  pub finished : Bool

-- `TaskState`; `error` is the error whose text the source keeps, if there is one.
pub record TaskState : Type 0 where
  pub id : Str
  pub kind : Str
  pub status : Status
  pub error : Option Err
  pub output : Str
  pub progress : Option Progress

pub record Command : Type 0 where
  pub id : Str
  pub text : Str
  pub directory : Str
  pub timeout : ℤ

-- `model.GetFileStatusResp` as it came over the network.
pub record Meta : Type 0 where
  pub error : Str
  pub file_name : Str
  pub file_size : ℤ
  pub chunk_size : ℤ
  pub chunk_num : ℤ

pub record TaskSpec : Type 0 where
  pub id : Str
  pub target : Str
  pub overwrite : Bool
  pub archive : Bool
  pub entries : List Entry
  pub meta : Meta

-- `PeerState`, with what the sender's table says of the peer as far as the web interface uses it.
pub record PeerState : Type 0 where
  pub addr : Str
  pub ready : Bool
  pub probe : Str
  pub warnings : List Str
  pub task : Option TaskState
  pub command : Option TaskState

pub record Config : Type 0 where
  pub discover : Bool
  pub file : Str
  pub sender_addr : Str
  pub listen : Str
  pub work_dir : Str
  pub token : Str
  pub allow_commands : Bool
