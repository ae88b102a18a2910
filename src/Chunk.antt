-- ===== src/Chunk.antt =====
-- internal/chunk: a file cut into logical chunks (file.go, read.go, write.go).
pub mod Bounds
pub mod Rebuild
use go_silver_core.Prelude.Int.{ℤ, pos, negsuc, pos_part, ltb_ℤ, is_neg}
use go_silver_core.Prelude.Slices.{slice, splice}
use go_silver_core.Prelude.{
  ℕ, ◌+◌, ◌-◌, ◌*◌, ◌/◌, ◌%◌, ◌^◌, min, Bool, true, false, not, ◌&&◌, ◌||◌, Option, none, some,
  List, Str, ltb, ◌==◌, if◌then◌else◌, length,
}
use go_silver_core.Crc32.{checksum_ieee}

-- 4 MiB.
abbrev pub chunk_size : ℕ
chunk_size = 4194304

-- What `Stat` reports; `ident` stands for what `os.SameFile` compares.
pub record FileInfo : Type 0 where
  pub name : Str
  pub size : ℕ
  pub mod_time : ℕ
  pub ident : ℕ

-- An open file: its bytes as they are now, and whether the descriptor is still open.
pub record OsFile : Type 0 where
  pub name : Str
  pub content : List ℕ
  pub mod_time : ℕ
  pub ident : ℕ
  pub open_fd : Bool

pub data Error : Type 0 where
  bad_index short_buffer bad_length eof closed : Error

pub data Result {ℓ} (A : Type ℓ) : Type ℓ where
  ok : A → Result A
  err : Error → Result A

infixl 5 ◌>>=◌
abbrev pub ◌>>=◌ {ℓ κ} : {A : Type ℓ} {B : Type κ} → Result A → (A → Result B) → Result B
err failure >>= next = err failure
ok value >>= next = next value

unfoldable pub stat : OsFile → Option FileInfo
stat f =
    if f.open_fd
    then some
        (record { name = f.name; size = length f.content; mod_time = f.mod_time; ident = f.ident })
    else none

-- `ReadAt` into `n` bytes: fewer than `n` come with an error.
unfoldable pub read_at : OsFile → ℕ → ℕ → Result (List ℕ)
read_at f n off =
    let got = slice off n f.content in
    if not f.open_fd then err closed else if ltb (length got) n then err eof else ok got

-- `WriteAt` writes all or fails; the clock gives the new modification time.
unfoldable pub write_at : OsFile → ℕ → List ℕ → ℕ → Result OsFile
write_at f now bytes off =
    if f.open_fd
    then ok (record f { content = splice off bytes f.content; mod_time = now })
    else err closed

-- `file_stat` is what `Stat` reported when the file was cut; it is nil in the zero value.
pub record FileChunk : Type 0 where
  pub file : OsFile
  pub file_stat : Option FileInfo
  pub chunk_len : ℕ  -- the field chunkSize

-- int64 arithmetic on a sum of two values that are not negative.
abbrev pub int64 : ℕ → ℤ
int64 n = if ltb (n % 2 ^ 64) (2 ^ 63) then pos (n % 2 ^ 64) else negsuc (2 ^ 64 - 1 - n % 2 ^ 64)

-- Go's `/` on int64 by a positive number rounds towards zero.
abbrev pub quot : ℤ → ℕ → ℤ
quot (pos n) d = pos (n / d)
quot (negsuc n) d = if (n + 1) / d == 0 then pos 0 else negsuc ((n + 1) / d - 1)

abbrev stat_chunk_num : Option FileInfo → ℕ → ℤ
stat_chunk_num none c = pos 0
stat_chunk_num (some st) c = if st.size == 0 then pos 0 else quot (int64 (st.size + c - 1)) c

unfoldable pub get_chunk_num : FileChunk → ℤ
get_chunk_num f = stat_chunk_num f.file_stat f.chunk_len

unfoldable pub get_chunk_size : FileChunk → ℕ
get_chunk_size f = f.chunk_len

unfoldable pub new_file_chunk : OsFile → FileChunk
unfolding stat
new_file_chunk f = record { file = f; file_stat = stat f; chunk_len = chunk_size }

abbrev same_info : Option FileInfo → Option FileInfo → Bool
same_info (some now) (some old) =
    now.size == old.size && now.mod_time == old.mod_time && now.ident == old.ident
same_info _ _ = false

-- Has the file kept its size, modification time and identity?
unfoldable pub unchanged : FileChunk → Bool
unfolding stat
unchanged f = same_info (stat f.file) f.file_stat

-- `FileStat.Size()`; it is called only behind a guard that excludes nil.
abbrev pub stat_size : FileChunk → ℕ
stat_size f = elim f.file_stat [ none ↦ 0 | some st ↦ st.size ]

-- index < 0 || index >= f.GetChunkNum()
abbrev pub out_of_range : FileChunk → ℤ → Bool
out_of_range f i = is_neg i || not (ltb_ℤ i (get_chunk_num f))

-- `ReadChunk` into a buffer of `room` bytes: the bytes that it stores there. It computes with the
-- package's constant, not with the field.
unfoldable pub read_chunk : FileChunk → ℤ → ℕ → Result (List ℕ)
unfolding get_chunk_num read_at
read_chunk f i room =
    let offset = pos_part i * chunk_size in
    let read_size =
      if ltb (stat_size f) (offset + chunk_size) then stat_size f - offset else chunk_size in
    if out_of_range f i
    then err bad_index
    else if ltb room read_size
    then err short_buffer
    else read_at f.file read_size offset

abbrev sum_of : Result (List ℕ) → Result ℕ
sum_of (ok bytes) = ok (checksum_ieee bytes)
sum_of (err e) = err e

-- `CheckSum` reads into a pooled buffer of the chunk's size.
unfoldable pub check_sum : FileChunk → ℤ → Result ℕ
unfolding read_chunk
check_sum f i = sum_of (read_chunk f i f.chunk_len)

abbrev saved : FileChunk → Result OsFile → Result FileChunk
saved f (ok file) = ok (record f { file = file })
saved f (err e) = err e

-- `Save` writes one whole chunk, and refuses any other length.
unfoldable pub save : FileChunk → ℕ → ℤ → List ℕ → Result FileChunk
unfolding get_chunk_num write_at
save f now i bytes =
    let want = min f.chunk_len (stat_size f - pos_part i * f.chunk_len) in
    if out_of_range f i
    then err bad_index
    else if not (length bytes == want)
    then err bad_length
    else saved f (write_at f.file now bytes (pos_part i * f.chunk_len))
