-- ===== src/Client.antt =====
-- internal/gsp_sdk/client/receiver.go: the answers that a receiver accepts. JSON is a parameter:
-- `unmarshal` reads a payload. A connection is the list of the bytes that it will deliver.
pub mod Fetch
pub mod Transfer
pub mod Exchange
use go_silver_core.Prelude.Int.{ℤ, int_dec, pos, pos_part, ltb_ℤ, is_neg}
use go_silver_core.Prelude.{
  ℕ, ◌+◌, ◌-◌, ◌/◌, ◌^◌, any, Bool, true, false, not, ◌||◌, Option, none, some, List, [], ◌∷◌, ◌++◌,
  Str, if◌then◌else◌, ite, ◌==◌,
}
use go_silver_core.Crc32.{checksum_ieee}
use go_silver_core.Gsp.{Packet, decode, encode_to, type_json, type_file_chunk}
use go_silver_core.Gsp
use go_silver_core.Chunk.{FileChunk, save, chunk_size, int64, quot}
use go_silver_core.Chunk
use go_silver_core.Server.Sched.{is_empty}
use go_silver_core.Server.Handle.{ChunkReply, refused, sends, Refusal}

-- model.GetChunkResp
pub record GetChunkResp : Type 0 where
  pub error : Str
  pub index : ℤ
  pub status : Bool
  pub check_sum : ℕ

pub data FetchError : Type 0 where
  broken : Gsp.Error → FetchError
  invalid_type bad_json different_chunk crc_mismatch : FetchError
  peer_error : Str → FetchError
  not_saved : Chunk.Error → FetchError

-- The file with the chunk, the payload and its checksum.
pub data FetchResult : Type 0 where
  fetched : FileChunk → List ℕ → ℕ → FetchResult
  failed : FetchError → FetchResult

-- The header in front of a chunk.
abbrev pub accepted : ℤ → ℕ → GetChunkResp
accepted i checksum = record { error = []; index = i; status = true; check_sum = checksum }

-- What `GetChunk` of the server writes: one frame, or two.
module _ (marshal : GetChunkResp → List ℕ) (text : Refusal → Str) where
  unfoldable pub reply_frames : ChunkReply → List ℕ
  reply_frames (refused i why) =
      encode_to type_json
        (marshal (record { error = text why; index = i; status = false; check_sum = 0 }))
  reply_frames (sends i checksum bytes) =
      encode_to type_json (marshal (accepted i checksum)) ++ encode_to type_file_chunk bytes

abbrev pub saved_as : List ℕ → ℕ → Chunk.Result FileChunk → FetchResult
saved_as payload checksum (Chunk.Result.ok ck) = fetched ck payload checksum
saved_as payload checksum (Chunk.Result.err e) = failed (not_saved e)

-- The second frame: the bytes, which are checked before they are saved.
abbrev pub fetch_payload :
    ℕ → ℤ → FileChunk → GetChunkResp → Gsp.Result Packet × List ℕ → FetchResult
fetch_payload now i ck info (Gsp.Result.err e, rest) = failed (broken e)
fetch_payload now i ck info (Gsp.Result.ok p, rest) =
    if not (p.typ == type_file_chunk)
    then failed invalid_type
    else if not (checksum_ieee p.payload == info.check_sum)
    then failed crc_mismatch
    else saved_as p.payload (checksum_ieee p.payload) (save ck now i p.payload)

abbrev pub fetch_info : ℕ → ℤ → FileChunk → List ℕ → Option GetChunkResp → FetchResult
fetch_info now i ck rest none = failed bad_json
fetch_info now i ck rest (some info) =
    if not (is_empty info.error)
    then failed (peer_error info.error)
    else if not info.status || ite (int_dec info.index i) false true
    then failed different_chunk
    else fetch_payload now i ck info (decode chunk_size rest)

module _ (unmarshal : List ℕ → Option GetChunkResp) where
  abbrev pub fetch_header : ℕ → ℤ → FileChunk → Gsp.Result Packet × List ℕ → FetchResult
  fetch_header now i ck (Gsp.Result.err e, rest) = failed (broken e)
  fetch_header now i ck (Gsp.Result.ok p, rest) =
      if not (p.typ == type_json)
      then failed invalid_type
      else fetch_info now i ck rest (unmarshal p.payload)

  -- `fetch`, behind the request: the header fits 4096 bytes, the chunk a pooled buffer.
  unfoldable pub fetch : ℕ → ℤ → FileChunk → List ℕ → FetchResult
  fetch now i ck stream = fetch_header now i ck (decode 4096 stream)

-- model.GetFileStatusResp, as it arrives.
pub record FileMeta : Type 0 where
  pub file_name : Str
  pub file_size : ℤ
  pub chunk_size : ℤ
  pub chunk_num : ℤ

abbrev same_ℤ : ℤ → ℤ → Bool
same_ℤ a b = ite (int_dec a b) true false

-- The checks of `GetFileStatus` on an answer without an error.
unfoldable pub valid_status : FileMeta → Bool
valid_status r = not (
    is_empty r.file_name
    || is_neg r.file_size
    || not (same_ℤ r.chunk_size (pos Chunk.chunk_size))
    || not (
        same_ℤ r.chunk_num
          (quot (int64 (pos_part r.file_size + Chunk.chunk_size - 1)) Chunk.chunk_size)))

-- filepath.Base(name) == name
abbrev pub is_base : Str → Bool
is_base [] = false
is_base (c ∷ []) = true
is_base (c ∷ d ∷ cs) = not (any (λ x. x == b'/') (c ∷ d ∷ cs))

-- The checks at the start of `RunTo`.
unfoldable pub valid_target : FileMeta → Bool
valid_target r = not (
    is_empty r.file_name
    || not (is_base r.file_name)
    || is_neg r.file_size
    || ltb_ℤ (pos (2 ^ 50)) r.file_size
    || not (same_ℤ r.chunk_size (pos Chunk.chunk_size))
    || not (
        same_ℤ r.chunk_num
          (quot (int64 (pos_part r.file_size + Chunk.chunk_size - 1)) Chunk.chunk_size)))
