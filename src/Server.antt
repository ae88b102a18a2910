-- ===== src/Server.antt =====
-- internal/gsp_sdk/server: the session that every node runs (session.go), and its parts.
-- `F` is float64; its operations come with the functions that compute with it.
-- Times are nanoseconds, 0 the zero time; connections are numbers. The maps' values are never nil.
pub mod Peers
pub mod Leases
pub mod Sched
pub mod Coordinator
pub mod Content
pub mod Upload
pub mod Handle
pub mod History
pub mod Listener
use go_silver_core.Prelude.Int.{ℤ}
use go_silver_core.Prelude.{ℕ, Bool, Option, List, Str}
use go_silver_core.Chunk.{FileChunk}

-- float64 and the operations that the scheduler uses. `lit m e` is the literal m * 10^-e,
-- `pow_half x` is math.Pow(0.5, x), `seconds d` is Duration.Seconds.
pub record Floats (F : Type 0) : Type 0 where
  pub lit : ℕ → ℕ → F
  pub of_int : ℤ → F
  pub seconds : ℕ → F
  pub add : F → F → F
  pub mul : F → F → F
  pub div : F → F → F
  pub pow_half : F → F
  pub lt : F → F → Bool
  pub le : F → F → Bool
  pub eq : F → F → Bool

pub record Peer (F : Type 0) : Type 0 where
  pub conn_addr : Str
  pub conn : Option ℕ
  pub conn_num : ℕ
  pub speed_ewma : F
  pub zone : Str
  pub last_failure : ℕ
  pub fail_streak : ℕ
  pub cooldown_til : ℕ
  pub leases : List (Str × ℕ)

-- A set is a map to the unit type.
abbrev pub SetOf : Type 0 → Type 0
SetOf K = List (K × Unit {0})

pub record Session (F : Type 0) : Type 0 where
  pub uuid : Str
  pub peers : List (Str × Peer F)
  pub chunk_owners : List (ℤ × SetOf Str)
  pub peer_owners : List (Str × SetOf ℤ)
  pub chunk_hash : List (ℤ × ℕ)
  pub chunk_provider : FileChunk
  pub is_main : Bool
  pub stopped : Bool  -- the channel done is closed
  pub upload_used : ℕ  -- the fill of uploadSem, whose capacity is 8
  pub upload_limit : ℤ
  pub backoff_until : ℕ
