-- ===== src/Receiver/Attempts.antt =====
-- internal/receiver/download.go: how a worker gets one chunk. `tracker a` is what WantChunk
-- returns in attempt `a`, and `fetch a addr` what FetchChunk does: the length and the checksum.
pub mod Central
use go_silver_core.Prelude.{
  ℕ, zero, suc, ◌+◌, Bool, true, false, ◌||◌, not, Option, none, some, List, [], ◌∷◌, ◌++◌, Str,
  if◌then◌else◌, any, is_none, length, ◌==◌,
}
use go_silver_core.Server.Leases.{status_is}
use go_silver_core.Server.Sched.{SourceCandidate, WantChunkResp, is_empty}

-- The candidate that succeeded, with the length and the checksum.
pub record Fetched : Type 0 where
  pub provider : Str
  pub size : ℕ
  pub checksum : ℕ

-- An outcome, and the UUIDs of the candidates that are reported as failed, in order.
pub record Outcome : Type 0 where
  pub result : Option Fetched
  pub reports : List Str

module _ (addr : Str) where
  -- Where a candidate is: the sender itself for an empty address.
  abbrev pub provider_of : SourceCandidate → Str
  provider_of c = if is_empty c.addr then addr else c.addr

  abbrev pub is_central : SourceCandidate → Bool
  is_central c = is_empty c.addr || status_is c.addr addr

  abbrev pub candidates_of : WantChunkResp → List SourceCandidate
  candidates_of location =
      if length location.sources == 0
      then record { addr = location.addr; uuid = location.uuid } ∷ []
      else location.sources

  abbrev pub no_candidate : SourceCandidate
  no_candidate = record { addr = []; uuid = [] }

  -- The sender is asked last, if it is not a candidate already.
  abbrev pub with_central : List SourceCandidate → List SourceCandidate
  with_central cs = if any is_central cs then cs else cs ++ no_candidate ∷ []

module _ (addr : Str) (tracker : ℕ → Option WantChunkResp) (fetch : ℕ → Str → Option (ℕ × ℕ)) where
  unfoldable pub try_candidates : ℕ → List SourceCandidate → Outcome
  try_candidates attempt [] = record { result = none; reports = [] }
  try_candidates attempt (c ∷ cs) =
      let rest = try_candidates attempt cs in
      elim (fetch attempt (provider_of addr c)) [
        | some r ↦ record {
          result = some (record { provider = c.uuid; size = r.0; checksum = r.1 });
          reports = [];
        }
        | none ↦ record { result = rest.result; reports = c.uuid ∷ rest.reports }
      ]

  -- The loop over the attempts: `left` are left, the next is `attempt`.
  unfoldable pub attempts : ℕ → ℕ → Outcome
  attempts zero attempt = record { result = none; reports = [] }
  attempts (suc left) attempt =
      let rest = attempts left (attempt + 1) in
      elim (tracker attempt) [
        | none ↦ rest
        | some location ↦
            let tried = try_candidates attempt (with_central addr (candidates_of addr location)) in
            elim tried.result [
              | some r ↦ tried
              | none ↦ record { result = rest.result; reports = tried.reports ++ rest.reports }
            ]
      ]

  abbrev pub get_one : Outcome
  get_one = attempts 3 0
