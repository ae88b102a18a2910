-- ===== src/Server/Upload.antt =====
-- internal/gsp_sdk/server: upload slots (tool.go) and the control messages of a peer (control.go).

pub mod Slots
use go_silver_core.Prelude.Int.{ℤ, pos, negsuc, pos_part, ltb_ℤ}
use go_silver_core.Prelude.{
  ℕ, ◌+◌, ◌-◌, ◌*◌, ◌≤◌, min, max, Bool, true, false, not, ◌||◌, Option, none, some, List, [], ◌∷◌,
  if◌then◌else◌, ltb, ◌==◌,
}
use go_silver_core.Server.{Session}
use go_silver_core.Server.Leases.{second}
use go_silver_core.Server.Coordinator.{ControlMsg, prefetch, backoff}

-- cap(s.uploadSem)
abbrev pub upload_cap : ℕ
upload_cap = 8

abbrev pub upload_concurrency_hdd : ℕ
upload_concurrency_hdd = 2

pub data Attempt (F : Type 0) : Type 0 where
  acquired : Session F → Attempt F
  stopped : Attempt F
  full : Attempt F

module _ {F : Type 0} where
  -- The number of slots that may be taken at `now`.
  unfoldable pub upload_slots : ℕ → Session F → ℕ
  upload_slots now s =
      let n =
        if not (ltb_ℤ (pos 0) s.upload_limit) || ltb_ℤ (pos upload_cap) s.upload_limit
        then upload_cap
        else pos_part s.upload_limit in
      if ltb now s.backoff_until then min n upload_concurrency_hdd else n

  -- One round of the loop of `acquireUpload`.
  unfoldable pub try_acquire : ℕ → Session F → Attempt F
  unfolding upload_slots
  try_acquire now s =
      if s.stopped
      then stopped
      else if ltb s.upload_used (upload_slots now s)
      then (if ltb s.upload_used upload_cap
          then acquired (record s { upload_used = s.upload_used + 1 })
          else full)
      else full

  -- `ReleaseUploadSlot`: on an empty channel it does nothing.
  unfoldable pub release_upload_slot : Session F → Session F
  release_upload_slot s =
      if s.upload_used == 0 then s else record s { upload_used = s.upload_used - 1 }

  unfoldable pub set_upload_max : ℤ → Session F → Session F
  set_upload_max n s = record s {
    upload_limit = pos (max 1 (if ltb_ℤ (pos upload_cap) n then upload_cap else pos_part n));
  }

  -- `ApplyControl`: a backoff only moves the end of the back-off later; a prefetch goes to the
  -- handler, whose argument is returned.
  unfoldable pub apply_control : ControlMsg → Session F → Session F × Option ℤ
  apply_control (prefetch i) s = (s, some i)
  apply_control (backoff until) s = (
    if ltb s.backoff_until (until * second) then record s { backoff_until = until * second } else s,
    none,
  )
