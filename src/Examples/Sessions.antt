-- ===== src/Examples/Sessions.antt =====
-- A session with a file of three bytes, a peer, and a receiver of its only chunk.
use go_silver_core.Prelude.{
  false, ◌≤◌, ℕ, ◌≡◌, ◌≤◌, refl, arith, List, [], ◌∷◌, none, some, true, not, ◌||◌, ◌&&◌, Str,
  codes, length, All, ℕ_discrete,
}
use go_silver_core.Prelude.Text.{str_dec}
use go_silver_core.Prelude.Int.{pos}
use go_silver_core.Prelude.Slices.{slice}
use go_silver_core.Prelude.Maps.{get}
use go_silver_core.Crc32.{checksum_ieee}
use go_silver_core.Chunk.{new_file_chunk, unchanged, get_chunk_num, get_chunk_size, read_chunk}
use go_silver_core.Server.{Session, Peer}
use go_silver_core.Server.Content.{new_session, has_chunk, as_now, session_read_chunk}
use go_silver_core.Server.Peers.{new_peer}
use go_silver_core.Server.Leases.Count.{AreBounded, IsCounted}
use go_silver_core.Server.Sched.{WantChunkReq, WantChunkResp, want_request}
use go_silver_core.Server.Sched.Requests.{IsAnswer, want_request-IsAnswer}
use go_silver_core.Server.Coordinator.{coordinate_once}
use go_silver_core.Server.Coordinator.Commands.{IsPrefetch, coordinate_once-IsPrefetch}
use go_silver_core.Server.Upload.{try_acquire, set_upload_max}
use go_silver_core.Server.Upload.Slots.{
  Uploads, new_uploads, is_acquired, SlotRun, takes, limits, here, step, run-SlotsHold,
}
use go_silver_core.Server.Handle.{registers, zones, wants, unsends, reports_chunk, get_chunk, sends}
use go_silver_core.Server.Handle.Keeps.{IsValid}
use go_silver_core.Server.Upload.{acquired}
use go_silver_core.Chunk
use go_silver_core.Server.Handle.Replies.{get_chunk-sends}
use go_silver_core.Server.History.{Event, asks, sends_main, history}
use go_silver_core.Server.History.Keeps.{history-IsValid}
use go_silver_core.Examples.{nat_floats, three_bytes}

abbrev me : Str
me = codes "m"

abbrev peer : Str
peer = codes "p"

abbrev request : WantChunkReq
request = record { zone = []; want = pos 2; uuid = codes "q"; index = pos 0 }

abbrev events : List Event
events =
    sends_main three_bytes true
    ∷ asks (registers (some (codes "h")) true 1 peer (codes "80"))
    ∷ asks (zones peer [])
    ∷ asks (reports_chunk (pos 0) peer)
    ∷ asks (wants request [] 5)
    ∷ asks (unsends peer (pos 0) (codes "q"))
    ∷ []

abbrev zone_of : Str → Str → Str
zone_of addr zone = zone

history-IsValid_example : IsValid (history nat_floats zone_of events (new_session me))
history-IsValid_example = history-IsValid nat_floats zone_of me events

-- A main source that knows one other peer with the chunk.
abbrev pub serving : Session ℕ
serving = record (new_session me) {
  peers = (peer, record (new_peer nat_floats (codes "h:80") (some 1)) { zone = codes "z" }) ∷ [];
  chunk_owners = (pos 0, (peer, tt) ∷ []) ∷ [];
  peer_owners = (peer, (pos 0, tt) ∷ []) ∷ [];
  chunk_provider = new_file_chunk three_bytes;
  is_main = true;
  upload_limit = pos 3;
}

serving-AreBounded : AreBounded serving
serving-AreBounded = ground arith

want_request-IsAnswer_example :
    (r : Session ℕ × WantChunkResp) × (want_request nat_floats serving request [] 5 ≡ some r)
    × IsAnswer nat_floats request 5 r.0 r.1
want_request-IsAnswer_example =
    want_request-IsAnswer nat_floats serving request [] 5 serving-AreBounded

coordinate_once-IsPrefetch_example :
    All (IsPrefetch serving) (coordinate_once nat_floats 5 serving)
    × (length (coordinate_once nat_floats 5 serving) ≤ 4)
coordinate_once-IsPrefetch_example =
    coordinate_once-IsPrefetch nat_floats serving 5 serving-AreBounded

abbrev leased : Peer ℕ
leased = record (new_peer nat_floats [] none) {
  conn_num = 2;
  leases = (codes "q:0", 10) ∷ (codes "q:1", 90) ∷ [];
}

leased-IsCounted : IsCounted leased
unfolding get str_dec ℕ_discrete
leased-IsCounted = record { unique = ground arith; counted = refl }

-- A new session with the limit one, one of whose slots is taken.
abbrev fresh_uploads : Uploads ℕ
fresh_uploads = new_uploads me

abbrev one_allowed : Uploads ℕ
one_allowed = record fresh_uploads {
  session = record fresh_uploads.session { upload_limit = pos 1 };
  asked = some (pos 1);
}

abbrev one_taken : Uploads ℕ
one_taken = record one_allowed {
  session = record one_allowed.session { upload_used = 1 };
  holders = 1;
}

to_one_taken : SlotRun fresh_uploads one_taken
unfolding try_acquire set_upload_max
to_one_taken =
    step _ one_allowed _ (limits (pos 1) fresh_uploads)
      (step _ one_taken _ (takes 5 one_allowed one_taken.session refl) (here one_taken))

run-SlotsHold_example :
    (one_taken.session.upload_used ≡ one_taken.holders)
    × (one_taken.holders ≤ 8)
    × (is_acquired (try_acquire 5 one_taken.session) ≡ false)
run-SlotsHold_example = run-SlotsHold me one_taken 5 to_one_taken

-- The session with a slot taken.
abbrev pub one_slot : Session ℕ
one_slot = record serving { upload_used = 1 }

pub served :
    (get_chunk three_bytes three_bytes three_bytes (pos 0) (acquired one_slot) serving).1
    ≡ sends (pos 0) (checksum_ieee (1 ∷ 2 ∷ 3 ∷ [])) (1 ∷ 2 ∷ 3 ∷ [])
unfolding get_chunk try_acquire has_chunk session_read_chunk unchanged new_file_chunk get_chunk_num
    get_chunk_size read_chunk slice
served = refl

get_chunk-sends_example :
    (has_chunk (pos 0) serving ≡ true)
    × (pos 0 ≡ pos 0)
    × (checksum_ieee (1 ∷ 2 ∷ 3 ∷ []) ≡ checksum_ieee (1 ∷ 2 ∷ 3 ∷ []))
    × ((s' : Session ℕ) × (acquired one_slot ≡ acquired s')
        × (read_chunk
              (as_now three_bytes s'.chunk_provider)
              (pos 0)
              (get_chunk_size serving.chunk_provider)
            ≡ Chunk.Result.ok (1 ∷ 2 ∷ 3 ∷ []))
        × ((not s'.is_main
              || (unchanged (as_now three_bytes s'.chunk_provider)
                  && unchanged (as_now three_bytes s'.chunk_provider)))
            ≡ true))
get_chunk-sends_example =
    get_chunk-sends three_bytes three_bytes three_bytes (pos 0) (acquired one_slot) serving (pos 0)
      (checksum_ieee (1 ∷ 2 ∷ 3 ∷ [])) (1 ∷ 2 ∷ 3 ∷ []) served
