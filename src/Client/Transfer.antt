-- ===== src/Client/Transfer.antt =====
-- internal/gsp_sdk: a chunk on its way from the session that has it to the receiver's file.
use mathlib.Core.List.{append-nil}
use go_silver_core.Prelude.Int.{ℤ, pos}
use go_silver_core.Prelude.Slices.{slice, length-slice}
use go_silver_core.Prelude.{
  ℕ, ◌*◌, ◌≤◌, ◌<◌, ◌≡◌, refl, ap, sym, subst, ◌∙◌, ℕ_discrete, true, false, not, ◌&&◌, Option,
  some, List, [], Str, if◌then◌else◌, ◌==◌, length, arith, Bool-cases, inl, inr,
}
use go_silver_core.Crc32.{checksum_ieee}
use go_silver_core.Gsp.{decode, encode_to, type_json, type_file_chunk}
use go_silver_core.Gsp.RoundTrip.{decode-encode_to}
use go_silver_core.Chunk.{FileChunk, FileInfo, OsFile, chunk_size, get_chunk_size, unchanged}
use go_silver_core.Chunk.Bounds.{
  IsCut, count, want, written, save-splice, save-IsSaved, IsSaved, get_chunk_num-count,
}
use go_silver_core.Server.{Session}
use go_silver_core.Server.Content.{as_now}
use go_silver_core.Server.Sched.{is_empty}
use go_silver_core.Server.Upload.{acquired}
use go_silver_core.Server.Handle.{
  sends, Refusal, get_chunk, get_file_status, GetFileStatusResp, ready,
}
use go_silver_core.Server.Handle.Replies.{IsServed, read-exact, get_chunk-IsServed}
use go_silver_core.Client.{
  accepted, GetChunkResp, fetched, reply_frames, fetch, fetch_header, fetch_info, valid_status,
}

module _ (marshal : GetChunkResp → List ℕ) (unmarshal : List ℕ → Option GetChunkResp)
    (text : Refusal → Str) where
  -- JSON reads a header as it was written, in at most 4096 bytes.
  abbrev pub ReadsBack : GetChunkResp → Type 0
  ReadsBack r = (unmarshal (marshal r) ≡ some r) × (length (marshal r) ≤ 4096)

  pub fetch-sends :
      (now k : ℕ) (ck : FileChunk) (st : FileInfo) (bytes : List ℕ)
      → IsCut ck st
      → k < count st
      → length bytes ≡ want st k
      → ReadsBack (accepted (pos k) (checksum_ieee bytes))
      → fetch unmarshal now
          (pos k)
          ck
          (reply_frames marshal text (sends (pos k) (checksum_ieee bytes) bytes))
        ≡ fetched (written ck now k bytes) bytes (checksum_ieee bytes)
  unfolding fetch reply_frames
  fetch-sends now k ck st bytes c h full back =
      let info = accepted (pos k) (checksum_ieee bytes) in
      let small = back.1 in
      let e1 =
        decode-encode_to 4096 type_json (marshal info) (encode_to type_file_chunk bytes) refl
          (omega (arith, small)) small in
      let e2 =
        decode-encode_to chunk_size type_file_chunk bytes [] refl (omega arith) (omega arith) in
      ap (fetch_header unmarshal now (pos k) ck) e1
      ∙ ap (fetch_info now (pos k) ck (encode_to type_file_chunk bytes)) back.0
      ∙ ground (
        arith,
        ap (decode chunk_size) (sym (append-nil (encode_to type_file_chunk bytes))) ∙ e2,
        save-splice ck st now k bytes c h full,
      )

  -- When a session answers a request for a chunk with bytes, a receiver accepts the answer, and
  -- afterwards its file has the chunk that the session's file had at the read, all other chunks
  -- being as they were. `s` is the session when the handler checked, and `s'` the one that it read after
  -- it had got a slot. Both files are open with the size that was recorded, which is the same, and
  -- the header of the answer reads back from its JSON, of at most 4096 bytes.
  pub fetch-get_chunk :
      {F : Type 0} (before at after : OsFile) (clock k i : ℕ) (s s' : Session F) (ss st : FileInfo)
      (dst : FileChunk) (j : ℤ) (checksum : ℕ) (bytes : List ℕ)
      → get_chunk_size s.chunk_provider ≡ chunk_size
      → IsCut (as_now at s'.chunk_provider) ss
      → IsCut dst st
      → st.size ≡ ss.size
      → k < count st
      → i < count st
      → (get_chunk before at after (pos k) (acquired s') s).1 ≡ sends j checksum bytes
      → ReadsBack (accepted j checksum)
      → (g : FileChunk) × (fetch unmarshal clock
            (pos k)
            dst
            (reply_frames marshal text (get_chunk before at after (pos k) (acquired s') s).1)
          ≡ fetched g bytes checksum)
        × (slice (i * chunk_size) chunk_size g.file.content ≡ (
            if i == k
            then slice (k * chunk_size) chunk_size at.content
            else slice (i * chunk_size) chunk_size dst.file.content))
  fetch-get_chunk before at after clock k i s s' ss st dst j checksum bytes unit cs cd size h hi
        sent back =
      let (_, (s1, slot, seen)) =
        get_chunk-IsServed before at after (pos k) (acquired s') s j checksum bytes sent in
      let same_session : s1 ≡ s' = cc slot in
      let served =
        subst
          (λ x.
            IsServed before at after (pos k) (get_chunk_size s.chunk_provider) x j checksum bytes)
          same_session seen in
      let exact =
        read-exact at (get_chunk_size s.chunk_provider) s' bytes ss k unit served.got cs
          (omega arith) in
      let full : length bytes ≡ want st k =
        ap length exact
        ∙ length-slice (k * chunk_size) chunk_size at.content
        ∙ omega (arith, cs.whole) in
      let same_header : accepted j checksum ≡ accepted (pos k) (checksum_ieee bytes) =
        cc (served.same_index, served.checked) in
      let run = fetch-sends clock k dst st bytes cd h full (subst ReadsBack same_header back) in
      (
        written dst clock k bytes,
        ap (λ r. fetch unmarshal clock (pos k) dst (reply_frames marshal text r))
              (sent ∙ cc (served.same_index, served.checked))
            ∙ run
            ∙ ap (fetched (written dst clock k bytes) bytes) (sym served.checked),
        after_save bytes exact (
            save-IsSaved dst (written dst clock k bytes) st clock k bytes cd
              (save-splice dst st clock k bytes cd h full)),
      )
    where
      after_save :
          (b : List ℕ)
          → b ≡ slice (k * chunk_size) chunk_size at.content
          → IsSaved dst (written dst clock k b) st k b
          → slice (i * chunk_size) chunk_size (written dst clock k b).file.content ≡ (
              if i == k
              then slice (k * chunk_size) chunk_size at.content
              else slice (i * chunk_size) chunk_size dst.file.content)
      after_save b e v = elim (ℕ_discrete i k) [
        | yes p ↦ rw (let t : (i == k) ≡ true = ground arith in t) (
            ap (λ x. slice (x * chunk_size) chunk_size (written dst clock k b).file.content) p
            ∙ v.here
            ∙ e)
        | no p ↦ rw (let t : (i == k) ≡ false = ground arith in t) (v.elsewhere i p hi)
      ]

-- The answer of a session whose file has a name passes the checks of a receiver.
pub get_file_status-valid_status :
    {F : Type 0} (s : Session F) (st : FileInfo) (r : GetFileStatusResp)
    → IsCut s.chunk_provider st
    → is_empty st.name ≡ false
    → get_file_status s ≡ ready r
    → valid_status (record {
      file_name = r.file_name;
      file_size = pos r.file_size;
      chunk_size = pos r.chunk_size;
      chunk_num = r.chunk_num;
    })
      ≡ true
unfolding get_file_status valid_status get_chunk_size
get_file_status-valid_status s st r c n e =
    elim (Bool-cases (s.is_main && not (unchanged s.chunk_provider))) [
      | inl t ↦ absurd (ground (arith, c.recorded))
      | inr t ↦
          ground (arith, c.recorded, c.unit, c.fits, get_chunk_num-count s.chunk_provider st c)
    ]
