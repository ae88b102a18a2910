-- ===== src/Client/Fetch.antt =====
-- internal/gsp_sdk/client/receiver.go: what a fetched chunk is.
use go_silver_core.Prelude.Int.{ℤ}
use go_silver_core.Prelude.{ℕ, ◌≡◌, true, Option, none, some, List, arith}
use go_silver_core.Crc32.{checksum_ieee}
use go_silver_core.Gsp.{Packet, decode, encode_to, type_json, type_file_chunk}
use go_silver_core.Gsp
use go_silver_core.Chunk.{FileChunk, FileInfo, OsFile, save, chunk_size}
use go_silver_core.Chunk
use go_silver_core.Server.Sched.{is_empty}
use go_silver_core.Client.{
  GetChunkResp, fetched, saved_as, fetch_payload, fetch_info, fetch_header, fetch,
}

saved_as-fetched :
    (payload : List ℕ) (checksum : ℕ) (r : Chunk.Result FileChunk) (g : FileChunk) (bytes : List ℕ)
    (c : ℕ)
    → saved_as payload checksum r ≡ fetched g bytes c
    → (r ≡ Chunk.Result.ok g) × (bytes ≡ payload) × (c ≡ checksum)
saved_as-fetched payload checksum (Chunk.Result.ok ck) g bytes c e = ground arith
saved_as-fetched payload checksum (Chunk.Result.err x) g bytes c e = absurd (cc)

-- What a chunk that was fetched has passed.
pub record IsVerified (now : ℕ) (i : ℤ) (ck g : FileChunk) (bytes : List ℕ) (c : ℕ)
    (info : GetChunkResp) : Type 0 where
  pub no_error : is_empty info.error ≡ true
  pub ready : info.status ≡ true
  pub same_index : info.index ≡ i
  pub same_sum : info.check_sum ≡ c
  pub checked : checksum_ieee bytes ≡ c
  pub saved : save ck now i bytes ≡ Chunk.Result.ok g

fetch_payload-fetched :
    (now : ℕ) (i : ℤ) (ck g : FileChunk) (info : GetChunkResp) (d : Gsp.Result Packet × List ℕ)
    (bytes : List ℕ) (c : ℕ)
    → fetch_payload now i ck info d ≡ fetched g bytes c
    → (info.check_sum ≡ c) × (checksum_ieee bytes ≡ c) × (save ck now i bytes ≡ Chunk.Result.ok g)
fetch_payload-fetched now i ck g info (Gsp.Result.err e, rest) bytes c h = absurd (cc)
fetch_payload-fetched now i ck g info (Gsp.Result.ok p, rest) bytes c h = ground (
  arith,
  saved_as-fetched p.payload (checksum_ieee p.payload) (save ck now i p.payload) g bytes c,
)

fetch_info-fetched :
    (now : ℕ) (i : ℤ) (ck g : FileChunk) (rest : List ℕ) (o : Option GetChunkResp) (bytes : List ℕ)
    (c : ℕ)
    → fetch_info now i ck rest o ≡ fetched g bytes c
    → (info : GetChunkResp) × IsVerified now i ck g bytes c info
fetch_info-fetched now i ck g rest none bytes c h = absurd (cc)
fetch_info-fetched now i ck g rest (some info) bytes c h = (
  info,
  record {
    no_error = ground arith;
    ready = ground arith;
    same_index = ground arith;
    same_sum = p.0;
    checked = p.1;
    saved = p.2;
  },
)
  where
    p : (info.check_sum ≡ c) × (checksum_ieee bytes ≡ c) × (save ck now i bytes ≡ Chunk.Result.ok g)
    p = ground (arith, fetch_payload-fetched now i ck g info (decode chunk_size rest) bytes c)

module _ (unmarshal : List ℕ → Option GetChunkResp) where
  -- `fetch` succeeds only if the answer was without an error and for the chunk that was asked for,
  -- and the checksum of the bytes is the one in the answer; exactly these bytes were saved then.
  pub fetch-IsVerified :
      (now : ℕ) (i : ℤ) (ck g : FileChunk) (stream bytes : List ℕ) (c : ℕ)
      → fetch unmarshal now i ck stream ≡ fetched g bytes c
      → (info : GetChunkResp) × IsVerified now i ck g bytes c info
  unfolding fetch
  fetch-IsVerified now i ck g stream bytes c h = fetch_header-fetched (decode 4096 stream) h
    where
      fetch_header-fetched :
          (d : Gsp.Result Packet × List ℕ)
          → fetch_header unmarshal now i ck d ≡ fetched g bytes c
          → (info : GetChunkResp) × IsVerified now i ck g bytes c info
      fetch_header-fetched (Gsp.Result.err e, rest) h' = absurd (cc)
      fetch_header-fetched (Gsp.Result.ok p, rest) h' =
          fetch_info-fetched now i ck g rest (unmarshal p.payload) bytes c (ground arith)
