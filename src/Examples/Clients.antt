-- ===== src/Examples/Clients.antt =====
-- One chunk on its way from a session to a receiver.
use go_silver_core.Prelude.{
  ℕ, ◌≡◌, ◌*◌, ◌%◌, refl, arith, List, [], ◌∷◌, Option, none, some, Str, codes,
}
use go_silver_core.Prelude.Int.{pos, pos_part}
use go_silver_core.Prelude.Slices.{slice}
use go_silver_core.Gsp.{put_uint32, uint32}
use go_silver_core.Crc32.{checksum_ieee}
use go_silver_core.Chunk.{FileChunk, get_chunk_size, new_file_chunk, chunk_size}
use go_silver_core.Chunk.Bounds.{IsCut, written}
use go_silver_core.Server.Content.{as_now}
use go_silver_core.Server.Upload.{acquired}
use go_silver_core.Server.Handle.{get_chunk, sends, Refusal, GetFileStatusResp}
use go_silver_core.Client.{GetChunkResp, accepted, fetch, fetched, reply_frames}
use go_silver_core.Client.Transfer.{ReadsBack, fetch-sends, fetch-get_chunk}
use go_silver_core.Examples.{three_bytes, three_zeros, three_info}
use go_silver_core.Examples.Sessions.{serving, one_slot, served}

abbrev text : Refusal → Str
text r = codes "refused"

-- A short form of the header of a chunk, in the place of JSON: the lowest byte of the index, and the
-- four bytes of the checksum.
abbrev marshal : GetChunkResp → List ℕ
marshal r = (pos_part r.index % 256) ∷ put_uint32 r.check_sum

abbrev unmarshal : List ℕ → Option GetChunkResp
unmarshal (n ∷ a ∷ b ∷ c ∷ d ∷ []) = some (accepted (pos n) (uint32 (a ∷ b ∷ c ∷ d ∷ [])))
unmarshal _ = none

abbrev three_sum : ℕ
three_sum = checksum_ieee (1 ∷ 2 ∷ 3 ∷ [])

header_back : ReadsBack marshal unmarshal text (accepted (pos 0) three_sum)
unfolding checksum_ieee
header_back = (refl, omega arith)

source_unit : get_chunk_size serving.chunk_provider ≡ chunk_size
unfolding get_chunk_size new_file_chunk
source_unit = refl

source_IsCut : IsCut (as_now three_bytes one_slot.chunk_provider) three_info
unfolding new_file_chunk
source_IsCut = record {
  unit = refl;
  recorded = refl;
  whole = refl;
  fits = omega arith;
  opened = refl;
}

target_IsCut : IsCut (new_file_chunk three_zeros) three_info
unfolding new_file_chunk
target_IsCut = record {
  unit = refl;
  recorded = refl;
  whole = refl;
  fits = omega arith;
  opened = refl;
}

fetch-get_chunk_example :
    (g : FileChunk) × (fetch unmarshal 9 (pos 0) (new_file_chunk three_zeros) (
        reply_frames marshal text
          (get_chunk three_bytes three_bytes three_bytes (pos 0) (acquired one_slot) serving).1)
      ≡ fetched g (1 ∷ 2 ∷ 3 ∷ []) (checksum_ieee (1 ∷ 2 ∷ 3 ∷ [])))
    × (slice (0 * chunk_size) chunk_size g.file.content
        ≡ slice (0 * chunk_size) chunk_size (1 ∷ 2 ∷ 3 ∷ []))
fetch-get_chunk_example =
    fetch-get_chunk marshal unmarshal text three_bytes three_bytes three_bytes 9 0 0 serving
      one_slot three_info three_info (new_file_chunk three_zeros) (pos 0)
      (checksum_ieee (1 ∷ 2 ∷ 3 ∷ [])) (1 ∷ 2 ∷ 3 ∷ []) source_unit source_IsCut target_IsCut refl
      (omega arith) (omega arith) served header_back

abbrev stream : List ℕ
stream = reply_frames marshal text (sends (pos 0) (checksum_ieee (1 ∷ 2 ∷ 3 ∷ [])) (1 ∷ 2 ∷ 3 ∷ []))

fetched_stream :
    fetch unmarshal 9 (pos 0) (new_file_chunk three_zeros) stream
    ≡ fetched
        (written (new_file_chunk three_zeros) 9 0 (1 ∷ 2 ∷ 3 ∷ []))
        (1 ∷ 2 ∷ 3 ∷ [])
        (checksum_ieee (1 ∷ 2 ∷ 3 ∷ []))
fetched_stream =
    fetch-sends marshal unmarshal text 9 0 (new_file_chunk three_zeros) three_info (1 ∷ 2 ∷ 3 ∷ [])
      target_IsCut (omega arith) refl header_back

abbrev status : GetFileStatusResp
status = record {
  file_name = codes "f.bin";
  file_size = 3;
  chunk_size = chunk_size;
  chunk_num = pos 1;
}
