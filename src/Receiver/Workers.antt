-- ===== src/Receiver/Workers.antt =====
-- internal/receiver/download.go: the workers of `RunTo`, the feeding loop and what they share.
-- A state is what stands between two critical sections; every interleaving is a run of steps.
pub mod Invariant
pub mod Complete
use go_silver_core.Prelude.{
  ℕ, zero, suc, ◌+◌, ◌≤◌, ◌<◌, ◌≡◌, ◌⊎◌, min, Bool, true, false, ◌||◌, not, List, [], ◌∷◌, length,
  if◌then◌else◌, ◌==◌, leb, ltb,
}
use go_silver_core.Receiver.{times, without}

pub record Download : Type 0 where
  pub count : ℕ
  pub todo : List ℕ  -- what the feeding loop has not sent yet
  pub claimed : List ℕ  -- the map of that name
  pub fetching : List ℕ  -- the chunks on which a worker is busy
  pub stored : List ℕ  -- those whose checksum is in the session, but that are not counted yet
  pub has : List ℕ  -- the chunks for which HasChunk holds
  pub done : ℕ
  pub failure : Bool
  pub cancelled : Bool  -- workCtx

-- `skip := claimed[i] || s.HasChunk(i)`, and the claim.
unfoldable pub take_job : ℕ → Download → Download
take_job i d =
    if not (times i d.claimed == 0) || not (times i d.has == 0)
    then d
    else record d { claimed = i ∷ d.claimed; fetching = i ∷ d.fetching }

-- `s.AddChunk`
unfoldable pub store_chunk : ℕ → Download → Download
store_chunk i d = record d {
  fetching = without i d.fetching;
  stored = i ∷ d.stored;
  has = i ∷ d.has;
}

-- The claim is given back and the chunk is counted.
unfoldable pub count_chunk : ℕ → Download → Download
count_chunk i d = record d {
  claimed = without i d.claimed;
  stored = without i d.stored;
  done = d.done + 1;
}

-- The first failure stops all workers.
unfoldable pub fail_chunk : ℕ → Download → Download
fail_chunk i d = record d { fetching = without i d.fetching; failure = true; cancelled = true }

-- A worker that sees the cancelled context returns.
unfoldable pub abandon : ℕ → Download → Download
abandon i d = record d { fetching = without i d.fetching }

abbrev pub workers : Download → ℕ
workers d = min 5 d.count

abbrev pub busy : Download → ℕ
busy d = length d.fetching + length d.stored

pub data Step : Download → Download → Type 0 where
  -- the feeding loop hands the next chunk to a free worker
  feeds :
      (d : Download) (i : ℕ) (is : List ℕ)
      → d.todo ≡ i ∷ is
      → busy d < workers d
      → Step d (take_job i (record d { todo = is }))
  -- a prefetch command puts a chunk in front
  urgent : (d : Download) (i : ℕ) → i < d.count → busy d < workers d → Step d (take_job i d)
  stores : (d : Download) (i : ℕ) → 1 ≤ times i d.fetching → Step d (store_chunk i d)
  counts : (d : Download) (i : ℕ) → 1 ≤ times i d.stored → Step d (count_chunk i d)
  fails : (d : Download) (i : ℕ) → 1 ≤ times i d.fetching → Step d (fail_chunk i d)
  abandons :
      (d : Download) (i : ℕ) → 1 ≤ times i d.fetching → d.cancelled ≡ true → Step d (abandon i d)
  cancels : (d : Download) → Step d (record d { cancelled = true })

pub data Run : Download → Download → Type 0 where
  here : (d : Download) → Run d d
  step : (d e f : Download) → Step d e → Run e f → Run d f

abbrev pub start : ℕ → List ℕ → Download
start count todo = record {
  count = count;
  todo = todo;
  claimed = [];
  fetching = [];
  stored = [];
  has = [];
  done = 0;
  failure = false;
  cancelled = false;
}
