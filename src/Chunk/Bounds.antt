-- ===== src/Chunk/Bounds.antt =====
-- internal/chunk: which bytes a chunk is, and what a write changes.
use go_silver_core.Prelude.Int.{ℤ, pos}
use go_silver_core.Prelude.Slices.{
  slice, splice, slice-splice_self, slice-splice_before, slice-splice_after, length-splice,
  slice_cut, length-slice,
}
use go_silver_core.Prelude.{
  ℕ, ◌+◌, ◌-◌, ◌*◌, ◌/◌, ◌^◌, ◌≤◌, ◌<◌, ◌≡◌, ◌≢◌, ap, sym, ◌∙◌, subst, ℕ_discrete, ◌==◌,
  if◌then◌else◌, min, true, false, some, arith, length, List,
}
use go_silver_core.Chunk.{
  FileInfo, FileChunk, OsFile, ok, err, bad_index, chunk_size, get_chunk_num, read_chunk, save,
  out_of_range, read_at, write_at,
}

-- The file has the size that was recorded when it was cut, and is open. No file has 2^62 bytes.
pub record IsCut (f : FileChunk) (st : FileInfo) : Type 0 where
  pub unit : f.chunk_len ≡ chunk_size
  pub recorded : f.file_stat ≡ some st
  pub whole : length f.file.content ≡ st.size
  pub fits : st.size < 2 ^ 62
  pub opened : f.file.open_fd ≡ true

abbrev pub count : FileInfo → ℕ
count st = (st.size + chunk_size - 1) / chunk_size

pub get_chunk_num-count :
    (f : FileChunk) (st : FileInfo) → IsCut f st → get_chunk_num f ≡ pos (count st)
unfolding get_chunk_num
get_chunk_num-count f st c = ground arith

read_at-slice :
    (f : OsFile) (off n : ℕ)
    → f.open_fd ≡ true
    → off + n ≤ length f.content
    → read_at f n off ≡ ok (slice off n f.content)
unfolding read_at
read_at-slice f off n o h = ground (arith, length-slice off n f.content)

pub in_range :
    (f : FileChunk) (st : FileInfo) (i : ℕ)
    → IsCut f st
    → i < count st
    → out_of_range f (pos i) ≡ false
in_range f st i c h = rw (get_chunk_num-count f st c) (ground arith)

-- On a file as it was cut, `ReadChunk` with a buffer that is large enough returns the bytes of the
-- chunk: those from its offset on, up to the chunk size or the end of the file.
pub read_chunk-slice :
    (f : FileChunk) (st : FileInfo) (i room : ℕ)
    → IsCut f st
    → i < count st
    → min chunk_size (st.size - i * chunk_size) ≤ room
    → read_chunk f (pos i) room ≡ ok (slice (i * chunk_size) chunk_size f.file.content)
unfolding read_chunk
read_chunk-slice f st i room c h r = rw (in_range f st i c h) (
    ground (
      arith,
      read_at-slice f.file (i * chunk_size) chunk_size,
      read_at-slice f.file (i * chunk_size) (st.size - i * chunk_size),
      slice_cut (i * chunk_size) chunk_size f.file.content,
    ))

-- No chunk stands outside 0 .. GetChunkNum() - 1: `ReadChunk` and `Save` refuse the index and
-- touch nothing.
pub outside_refused :
    (f : FileChunk) (now room : ℕ) (i : ℤ) (bytes : List ℕ)
    → out_of_range f i ≡ true
    → (read_chunk f i room ≡ err bad_index) × (save f now i bytes ≡ err bad_index)
unfolding read_chunk save
outside_refused f now room i bytes h = (rw h, rw h)

-- The number of bytes in chunk `i`.
abbrev pub want : FileInfo → ℕ → ℕ
want st i = min chunk_size (st.size - i * chunk_size)

abbrev pub written : FileChunk → ℕ → ℕ → List ℕ → FileChunk
written f now i bytes = record f {
  file = record (f.file) { content = splice (i * chunk_size) bytes f.file.content; mod_time = now };
}

pub save-splice :
    (f : FileChunk) (st : FileInfo) (now i : ℕ) (bytes : List ℕ)
    → IsCut f st
    → i < count st
    → length bytes ≡ want st i
    → save f now (pos i) bytes ≡ ok (written f now i bytes)
unfolding save write_at
save-splice f st now i bytes c h e = rw (in_range f st i c h) (ground arith)

-- `Save` accepts exactly a whole chunk.
pub save-length :
    (f g : FileChunk) (st : FileInfo) (now i : ℕ) (bytes : List ℕ)
    → IsCut f st
    → save f now (pos i) bytes ≡ ok g
    → (i < count st) × (length bytes ≡ want st i)
unfolding save
save-length f g st now i bytes c h = ground (arith, get_chunk_num-count f st c)

pub record IsSaved (f g : FileChunk) (st : FileInfo) (i : ℕ) (bytes : List ℕ) : Type 0 where
  pub still_cut : IsCut g st
  pub here : slice (i * chunk_size) chunk_size g.file.content ≡ bytes
  pub elsewhere :
      (j : ℕ)
      → j ≢ i
      → j < count st
      → slice (j * chunk_size) chunk_size g.file.content
        ≡ slice (j * chunk_size) chunk_size f.file.content

module _ (st : FileInfo) (i : ℕ) (bytes xs : List ℕ) (size : length xs ≡ st.size)
    (room : i < count st) (full : length bytes ≡ want st i) where
  length_spliced : length (splice (i * chunk_size) bytes xs) ≡ st.size
  length_spliced = length-splice (i * chunk_size) bytes xs (omega arith) ∙ size

  here_spliced : slice (i * chunk_size) chunk_size (splice (i * chunk_size) bytes xs) ≡ bytes
  here_spliced = ground (
    arith,
    slice-splice_self (i * chunk_size) bytes xs,
    length_spliced,
    slice_cut (i * chunk_size) chunk_size (splice (i * chunk_size) bytes xs),
  )

  elsewhere_spliced :
      (j : ℕ)
      → j ≢ i
      → j < count st
      → slice (j * chunk_size) chunk_size (splice (i * chunk_size) bytes xs)
        ≡ slice (j * chunk_size) chunk_size xs
  elsewhere_spliced j ne h = ground (
    arith,
    slice-splice_before (j * chunk_size) chunk_size (i * chunk_size) bytes xs,
    slice-splice_after (j * chunk_size) chunk_size (i * chunk_size) bytes xs,
  )

written-IsSaved :
    (f : FileChunk) (st : FileInfo) (now i : ℕ) (bytes : List ℕ)
    → IsCut f st
    → i < count st
    → length bytes ≡ want st i
    → IsSaved f (written f now i bytes) st i bytes
written-IsSaved f st now i bytes c room full = record {
  still_cut = record {
    unit = c.unit;
    recorded = c.recorded;
    whole = length_spliced st i bytes f.file.content c.whole room full;
    fits = c.fits;
    opened = c.opened;
  };
  here = here_spliced st i bytes f.file.content c.whole room full;
  elsewhere = elsewhere_spliced st i bytes f.file.content c.whole room full;
}

pub save-IsSaved :
    (f g : FileChunk) (st : FileInfo) (now i : ℕ) (bytes : List ℕ)
    → IsCut f st
    → save f now (pos i) bytes ≡ ok g
    → IsSaved f g st i bytes
save-IsSaved f g st now i bytes c h =
    let (room, full) = save-length f g st now i bytes c h in
    let e : written f now i bytes ≡ g = cc (save-splice f st now i bytes c room full, h) in
    subst (λ x. IsSaved f x st i bytes) e (written-IsSaved f st now i bytes c room full)

-- On a file as it was cut, `ReadChunk` gives back the chunk that `Save` accepted, and every other
-- chunk of the file reads as before.
pub read_chunk-save :
    (f g : FileChunk) (st : FileInfo) (now i j : ℕ) (bytes : List ℕ)
    → IsCut f st
    → save f now (pos i) bytes ≡ ok g
    → j < count st
    → read_chunk g (pos j) chunk_size
      ≡ (if j == i then ok bytes else read_chunk f (pos j) chunk_size)
read_chunk-save f g st now i j bytes c h hj =
    let s = save-IsSaved f g st now i bytes c h in
    let back = read_chunk-slice g st j chunk_size s.still_cut hj (omega arith) in
    elim (ℕ_discrete j i) [
      | yes e ↦
          rw (let t : (j == i) ≡ true = ground arith in t)
            (back ∙ ap ok (ap (λ k. slice (k * chunk_size) chunk_size g.file.content) e ∙ s.here))
      | no ne ↦ rw (let t : (j == i) ≡ false = ground arith in t) (
          back
          ∙ ap ok (s.elsewhere j ne hj)
          ∙ sym (read_chunk-slice f st j chunk_size c hj (omega arith)))
    ]
