-- ===== src/Server/Upload/Slots.antt =====
-- internal/gsp_sdk/server/tool.go: how many uploads run at a time.
use go_silver_core.Prelude.Int.{ℤ, pos, negsuc}
use go_silver_core.Server.Content.{new_session}
use go_silver_core.Prelude.{
  Bool, true, not, ◌&&◌, ◌*◌, Option, none, some, Str, subst, sym, refl, max, min, ℕ, suc, ◌+◌, ◌≤◌,
  ◌<◌, ◌≡◌, ap, ◌∙◌, if◌then◌else◌, false, arith, Bool-cases, inl, inr, ltb,
}
use go_silver_core.Server.{Session}
use go_silver_core.Server.Leases.{second}
use go_silver_core.Server.Upload.{
  upload_cap, upload_concurrency_hdd, upload_slots, try_acquire, release_upload_slot,
  set_upload_max, apply_control, acquired, stopped, full, Attempt,
}
use go_silver_core.Server.Coordinator.{ControlMsg, prefetch, backoff}

-- A session, with the number of handlers that hold a slot, and what was asked of it: the last limit that
-- the user set, the latest end of a backoff, and whether it was stopped.
pub record Uploads (F : Type 0) : Type 0 where
  pub session : Session F
  pub holders : ℕ
  pub asked : Option ℤ
  pub until_at : ℕ
  pub ended : Bool

-- The slots that a limit stands for: between one and eight, and eight if none was set.
abbrev pub allowed : Option ℤ → ℕ
allowed none = 8
allowed (some (pos n)) = max 1 (min n 8)
allowed (some (negsuc n)) = 1

-- Those that may be taken: two at most during a backoff.
abbrev pub room : ℕ → ℕ → Option ℤ → ℕ
room now until_at asked = if ltb now until_at then min (allowed asked) 2 else allowed asked

room_few : (now until_at : ℕ) (asked : Option ℤ) → room now until_at asked ≤ upload_cap
room_few now until_at none = ground arith
room_few now until_at (some (pos n)) = ground arith
room_few now until_at (some (negsuc n)) = ground arith

abbrev pub later : ControlMsg → ℕ → ℕ
later (prefetch i) until_at = until_at
later (backoff t) until_at = max until_at (t * second)

abbrev pub is_acquired : {F : Type 0} → Attempt F → Bool
is_acquired (acquired s) = true
is_acquired stopped = false
is_acquired full = false

-- The limit that a session has for what the user asked.
abbrev pub IsLimit : ℤ → Option ℤ → Type 0
IsLimit limit none = limit ≡ pos 0
IsLimit limit (some n) = limit ≡ pos (allowed (some n))

module _ {F : Type 0} where
  abbrev pub new_uploads : Str → Uploads F
  new_uploads uuid = record {
    session = new_session uuid;
    holders = 0;
    asked = none;
    until_at = 0;
    ended = false;
  }

  -- A handler gives back the slot that it got, and no other (`GetChunk` defers it).
  pub data SlotStep : Uploads F → Uploads F → Type 0 where
    takes :
        (now : ℕ) (u : Uploads F) (s : Session F)
        → try_acquire now u.session ≡ acquired s
        → SlotStep u (record u { session = s; holders = suc u.holders })
    gives :
        (u : Uploads F) (h : ℕ)
        → u.holders ≡ suc h
        → SlotStep u (record u { session = release_upload_slot u.session; holders = h })
    limits :
        (n : ℤ) (u : Uploads F)
        → SlotStep u (record u { session = set_upload_max n u.session; asked = some n })
    controls :
        (msg : ControlMsg) (u : Uploads F)
        → SlotStep u (record u {
          session = (apply_control msg u.session).0;
          until_at = later msg u.until_at;
        })
    stops :
        (u : Uploads F)
        → SlotStep u (record u { session = record u.session { stopped = true }; ended = true })

  pub data SlotRun : Uploads F → Uploads F → Type 0 where
    here : (u : Uploads F) → SlotRun u u
    step : (u v w : Uploads F) → SlotStep u v → SlotRun v w → SlotRun u w

  pub record SlotsHold (u : Uploads F) : Type 0 where
    pub counted : u.session.upload_used ≡ u.holders
    pub capped : u.holders ≤ upload_cap
    pub limited : IsLimit u.session.upload_limit u.asked
    pub backed_off : u.session.backoff_until ≡ u.until_at
    pub closed : u.session.stopped ≡ u.ended

  -- What a wait that ends says of the session.
  pub try_acquire_lem :
      (now : ℕ) (s s' : Session F)
      → try_acquire now s ≡ acquired s'
      → (s.stopped ≡ false)
        × (s.upload_used < upload_slots now s)
        × (s.upload_used < upload_cap)
        × (s' ≡ record s { upload_used = s.upload_used + 1 })
  unfolding try_acquire
  try_acquire_lem now s s' e = elim (Bool-cases s.stopped) [
    | inl t ↦ absurd (ground arith)
    | inr t ↦ ground arith
  ]

  set_upload_max-allowed :
      (n : ℤ) (s : Session F) → (set_upload_max n s).upload_limit ≡ pos (allowed (some n))
  unfolding set_upload_max
  set_upload_max-allowed (pos n) s = ap pos (ground arith)
  set_upload_max-allowed (negsuc n) s = ap pos (ground arith)

  step-SlotsHold : (u v : Uploads F) → SlotStep u v → SlotsHold u → SlotsHold v
  unfolding release_upload_slot set_upload_max apply_control
  step-SlotsHold u _ (takes now _ s e) k =
      let (_, _, below, same) = try_acquire_lem now u.session s e in
      record {
        counted = ap (λ x. x.upload_used) same ∙ omega (arith, k.counted);
        capped = omega (arith, k.counted, below);
        limited = subst (λ x. IsLimit x.upload_limit u.asked) (sym same) k.limited;
        backed_off = ap (λ x. x.backoff_until) same ∙ k.backed_off;
        closed = ap (λ x. x.stopped) same ∙ k.closed;
      }
  step-SlotsHold u _ (gives _ h e) k = record {
    counted = ground (arith, e, k.counted);
    capped = omega (arith, e, k.capped);
    limited = subst (λ x. IsLimit x u.asked) (ground arith) k.limited;
    backed_off = ground (arith, k.backed_off);
    closed = ground (arith, k.closed);
  }
  step-SlotsHold u _ (limits n _) k = record {
    counted = k.counted;
    capped = k.capped;
    limited = set_upload_max-allowed n u.session;
    backed_off = k.backed_off;
    closed = k.closed;
  }
  step-SlotsHold u _ (controls (prefetch i) _) k = record {
    counted = k.counted;
    capped = k.capped;
    limited = k.limited;
    backed_off = k.backed_off;
    closed = k.closed;
  }
  step-SlotsHold u _ (controls (backoff t) _) k = record {
    counted = ground (arith, k.counted);
    capped = k.capped;
    limited = subst (λ x. IsLimit x u.asked) (ground arith) k.limited;
    backed_off = ground (arith, k.backed_off);
    closed = ground (arith, k.closed);
  }
  step-SlotsHold u _ (stops _) k = record {
    counted = k.counted;
    capped = k.capped;
    limited = k.limited;
    backed_off = k.backed_off;
    closed = refl;
  }

  steps-SlotsHold : (u v : Uploads F) → SlotRun u v → SlotsHold u → SlotsHold v
  steps-SlotsHold u _ (here _) k = k
  steps-SlotsHold u w (step _ v _ x r) k = steps-SlotsHold v w r (step-SlotsHold u v x k)

  -- How many slots may be taken, for what was asked.
  upload_slots-room :
      (now : ℕ) (s : Session F) (asked : Option ℤ) (until_at : ℕ)
      → IsLimit s.upload_limit asked
      → s.backoff_until ≡ until_at
      → upload_slots now s ≡ room now until_at asked
  unfolding upload_slots
  upload_slots-room now s none until_at l b = ground (arith, l, b)
  upload_slots-room now s (some (pos n)) until_at l b = ground (arith, l, b)
  upload_slots-room now s (some (negsuc n)) until_at l b = ground (arith, l, b)

  -- From a new session on, in every interleaving of handlers that take and give back slots, while the
  -- user sets limits, the coordinator sends control messages and the session is stopped: the
  -- semaphore's fill is the number of handlers that hold a slot, eight at most; and the next one gets
  -- a slot if and only if the session was not stopped and fewer hold one than the last limit allows,
  -- which is taken to be between one and eight, and two at most until the latest backoff ends.
  pub run-SlotsHold :
      (uuid : Str) (v : Uploads F) (now : ℕ)
      → SlotRun (new_uploads uuid) v
      → (v.session.upload_used ≡ v.holders)
        × (v.holders ≤ 8)
        × (is_acquired (try_acquire now v.session)
            ≡ (not v.ended && ltb v.holders (room now v.until_at v.asked)))
  unfolding try_acquire
  run-SlotsHold uuid v now r =
      let k = steps-SlotsHold (new_uploads uuid) v r (record {
        counted = refl;
        capped = omega arith;
        limited = refl;
        backed_off = refl;
        closed = refl;
      }) in
      (
        k.counted,
        k.capped,
        ground (
          arith,
          k.closed,
          k.counted,
          k.capped,
          upload_slots-room now v.session v.asked v.until_at k.limited k.backed_off,
          room_few now v.until_at v.asked,
        ),
      )

  -- A slot is only given on an open session, and then the slots that are taken are at most the
  -- limit that the user set, if it is positive, and at most two during a backoff, eight otherwise.
  pub try_acquire-limited :
      (now n : ℕ) (s s' : Session F)
      → s.upload_limit ≡ pos n
      → 1 ≤ n
      → try_acquire now s ≡ acquired s'
      → (s.stopped ≡ false)
        × (s'.upload_used ≤ n)
        × (s'.upload_used
            ≤ (if ltb now s.backoff_until then upload_concurrency_hdd else upload_cap))
  unfolding upload_slots
  try_acquire-limited now n s s' l p e =
      let (open_session, room, below, same) = try_acquire_lem now s s' e in
      let used : s'.upload_used ≡ s.upload_used + 1 = ap (λ x. x.upload_used) same in
      (open_session, ground (arith, room, below, used, l), ground (arith, room, below, used))
