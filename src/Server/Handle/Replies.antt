-- ===== src/Server/Handle/Replies.antt =====
-- internal/gsp_sdk/server/handle/handle.go: what `GetChunk` answers, and that it keeps no slot.
use go_silver_core.Prelude.Int.{ℤ, pos}
use go_silver_core.Prelude.{
  ℕ, ◌*◌, ◌<◌, ◌≡◌, refl, not, ◌&&◌, ◌||◌, true, List, arith, Bool-cases, inl, inr,
}
use go_silver_core.Prelude.Slices.{slice}
use go_silver_core.Crc32.{checksum_ieee}
use go_silver_core.Chunk.{FileInfo, OsFile, chunk_size, get_chunk_size, unchanged, read_chunk}
use go_silver_core.Chunk
use go_silver_core.Chunk.Bounds.{IsCut, count, read_chunk-slice}
use go_silver_core.Server.{Session}
use go_silver_core.Server.Content.{
  has_chunk, session_read_chunk, rechecked, as_now, bytes_of, changed, failed_read, ReadResult,
}
use go_silver_core.Server.Upload.{
  Attempt, acquired, stopped, full, try_acquire, release_upload_slot,
}
use go_silver_core.Server.Handle.{sends, chunk_reply, with_slot, get_chunk}

chunk_reply-sends :
    (i j : ℤ) (r : ReadResult) (checksum : ℕ) (bytes : List ℕ)
    → chunk_reply i r ≡ sends j checksum bytes
    → (j ≡ i) × (checksum ≡ checksum_ieee bytes) × (r ≡ bytes_of bytes)
chunk_reply-sends i j (bytes_of b) checksum bytes e = ground arith
chunk_reply-sends i j changed checksum bytes e = absurd (cc)
chunk_reply-sends i j (failed_read x) checksum bytes e = absurd (cc)

module _ {F : Type 0} where
  with_slot-session :
      (before at after : OsFile) (i : ℤ) (room now : ℕ) (s : Session F)
      → (with_slot before at after i room s (try_acquire now s)).0 ≡ s
  unfolding try_acquire release_upload_slot
  with_slot-session before at after i room now s = ground arith

  -- `GetChunk` leaves the session as it was, whatever it answers: a slot that it took it gives back.
  pub get_chunk-session :
      (before at after : OsFile) (i : ℤ) (now : ℕ) (s : Session F)
      → (get_chunk before at after i (try_acquire now s) s).0 ≡ s
  unfolding get_chunk
  get_chunk-session before at after i now s = elim (Bool-cases (has_chunk i s)) [
    | inl has ↦
        rw (has, get_chunk)
          (with_slot-session before at after i (get_chunk_size s.chunk_provider) now s)
    | inr hasnt ↦ rw (hasnt, get_chunk) refl
  ]

  rechecked-bytes :
      (after : OsFile) (s : Session F) (r : Chunk.Result (List ℕ)) (bytes : List ℕ)
      → rechecked s after r ≡ bytes_of bytes
      → (r ≡ Chunk.Result.ok bytes)
        × (s.is_main ≡ true → unchanged (as_now after s.chunk_provider) ≡ true)
  rechecked-bytes after s (Chunk.Result.ok got) bytes e = ground arith
  rechecked-bytes after s (Chunk.Result.err x) bytes e = absurd (cc)

  -- What a read that brings bytes says of the file, before and after.
  read-bytes :
      (before at after : OsFile) (i : ℤ) (room : ℕ) (s : Session F) (bytes : List ℕ)
      → session_read_chunk before at after i room s ≡ bytes_of bytes
      → (read_chunk (as_now at s.chunk_provider) i room ≡ Chunk.Result.ok bytes)
        × (s.is_main ≡ true
            → (unchanged (as_now before s.chunk_provider) ≡ true)
              × (unchanged (as_now after s.chunk_provider) ≡ true))
  unfolding session_read_chunk
  read-bytes before at after i room s bytes e =
      elim (Bool-cases (s.is_main && not (unchanged (as_now before s.chunk_provider)))) [
        | inl bad ↦ absurd (ground arith)
        | inr good ↦
            let r =
              rechecked-bytes after s (read_chunk (as_now at s.chunk_provider) i room) bytes
                (ground arith) in
            (r.0, λ m. (ground arith, r.1 m))
      ]

  -- What a chunk that is sent is: `s` is the session at the read and `room` the buffer's length; `at`
  -- is the file that the read met, `before` and `after` those of the two checks.
  pub record IsServed (before at after : OsFile) (i : ℤ) (room : ℕ) (s : Session F) (j : ℤ)
      (checksum : ℕ) (bytes : List ℕ) : Type 0 where
    pub same_index : j ≡ i
    pub checked : checksum ≡ checksum_ieee bytes
    pub stable :
        s.is_main ≡ true
        → (unchanged (as_now before s.chunk_provider) ≡ true)
          × (unchanged (as_now after s.chunk_provider) ≡ true)
    pub got : read_chunk (as_now at s.chunk_provider) i room ≡ Chunk.Result.ok bytes

  pub read-exact :
      (at : OsFile) (room : ℕ) (s : Session F) (bytes : List ℕ) (st : FileInfo) (k : ℕ)
      → room ≡ chunk_size
      → read_chunk (as_now at s.chunk_provider) (pos k) room ≡ Chunk.Result.ok bytes
      → IsCut (as_now at s.chunk_provider) st
      → k < count st
      → bytes ≡ slice (k * chunk_size) chunk_size at.content
  read-exact at room s bytes st k unit e c h =
      ground (arith, unit, read_chunk-slice (as_now at s.chunk_provider) st k room c h)

  with_slot-IsServed :
      (before at after : OsFile) (i : ℤ) (room : ℕ) (s : Session F) (a : Attempt F) (j : ℤ)
      (checksum : ℕ) (bytes : List ℕ)
      → (with_slot before at after i room s a).1 ≡ sends j checksum bytes
      → (s' : Session F) × (a ≡ acquired s') × IsServed before at after i room s' j checksum bytes
  with_slot-IsServed before at after i room s stopped j checksum bytes e = absurd (cc)
  with_slot-IsServed before at after i room s full j checksum bytes e = absurd (cc)
  with_slot-IsServed before at after i room s (acquired s') j checksum bytes e =
      let (same, sum_ok, got) = chunk_reply-sends i j _ checksum bytes e in
      let r = read-bytes before at after i room s' bytes got in
      (s', refl, record { same_index = same; checked = sum_ok; stable = r.1; got = r.0 })

  pub get_chunk-IsServed :
      (before at after : OsFile) (i : ℤ) (a : Attempt F) (s : Session F) (j : ℤ) (checksum : ℕ)
      (bytes : List ℕ)
      → (get_chunk before at after i a s).1 ≡ sends j checksum bytes
      → (has_chunk i s ≡ true)
        × ((s' : Session F) × (a ≡ acquired s')
            × IsServed before at after i (get_chunk_size s.chunk_provider) s' j checksum bytes)
  unfolding get_chunk
  get_chunk-IsServed before at after i a s j checksum bytes e = elim (Bool-cases (has_chunk i s)) [
    | inl has ↦ (
      has,
      with_slot-IsServed before at after i (get_chunk_size s.chunk_provider) s a j checksum bytes
          (ground arith),
    )
    | inr hasnt ↦ absurd (ground arith)
  ]

  -- A chunk that `GetChunk` sends is one that the node had when the handler looked, before it waited
  -- for a slot. It goes out under the index that was asked for and with its checksum, and its bytes
  -- are those that a read of the session gave after the wait, whatever became of the session
  -- meanwhile; a session that is a main source then sends them only if the file's metadata were
  -- those recorded, both before the read and after it.
  pub get_chunk-sends :
      (before at after : OsFile) (i : ℤ) (a : Attempt F) (s : Session F) (j : ℤ) (checksum : ℕ)
      (bytes : List ℕ)
      → (get_chunk before at after i a s).1 ≡ sends j checksum bytes
      → (has_chunk i s ≡ true)
        × (j ≡ i)
        × (checksum ≡ checksum_ieee bytes)
        × ((s' : Session F) × (a ≡ acquired s')
            × (read_chunk (as_now at s'.chunk_provider) i (get_chunk_size s.chunk_provider)
                ≡ Chunk.Result.ok bytes)
            × ((not s'.is_main
                  || (unchanged (as_now before s'.chunk_provider)
                      && unchanged (as_now after s'.chunk_provider)))
                ≡ true))
  get_chunk-sends before at after i a s j checksum bytes e =
      let (has, (s', slot, v)) = get_chunk-IsServed before at after i a s j checksum bytes e in
      (
        has,
        v.same_index,
        v.checked,
        (
          s',
          slot,
          v.got,
          elim (Bool-cases s'.is_main) [ inl m ↦ ground (arith, v.stable m) | inr m ↦ rw m refl ],
        ),
      )
