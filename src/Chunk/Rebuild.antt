-- ===== src/Chunk/Rebuild.antt =====
-- internal/chunk: a file that receives every chunk of a source becomes the source.
use go_silver_core.Prelude.Int.{pos}
use go_silver_core.Prelude.Slices.{slice, eq_of_slices, length-slice}
use go_silver_core.Prelude.{
  ℕ, ◌*◌, ◌<◌, ◌≡◌, refl, sym, ◌∙◌, subst, ◌⊎◌, inl, inr, true, List, [], ◌∷◌, arith, length, All,
  any, ◌==◌, ℕ_discrete,
}
use go_silver_core.Chunk.{FileInfo, FileChunk, Result, ok, chunk_size, read_chunk, save, ◌>>=◌}
use go_silver_core.Chunk.Bounds.{
  IsCut, IsSaved, count, want, written, read_chunk-slice, save-splice, save-IsSaved,
}

-- The chunks of `src` whose indices are listed go to `dst`, one by one; `now` is the clock.
unfoldable pub copy_chunks : ℕ → FileChunk → List ℕ → FileChunk → Result FileChunk
copy_chunks now src [] dst = ok dst
copy_chunks now src (i ∷ is) dst = do
  bytes ← read_chunk src (pos i) chunk_size
  dst' ← save dst now (pos i) bytes
  copy_chunks now src is dst'

abbrev pub mem : ℕ → List ℕ → Type 0
mem i is = any (λ j. j == i) is ≡ true

abbrev chunk : FileChunk → ℕ → List ℕ
chunk f i = slice (i * chunk_size) chunk_size f.file.content

record Copied (src dst g : FileChunk) (st : FileInfo) (is : List ℕ) : Type 0 where
  cut : IsCut g st
  copied : (j : ℕ) → j < count st → mem j is ⊎ (chunk dst j ≡ chunk src j) → chunk g j ≡ chunk src j

-- After chunk `i` was saved, it is equal too.
carried :
    (src dst : FileChunk) (st : FileInfo) (i : ℕ) (is : List ℕ) (now : ℕ)
    → IsSaved dst (written dst now i (chunk src i)) st i (chunk src i)
    → (j : ℕ) → j < count st
    → mem j (i ∷ is) ⊎ (chunk dst j ≡ chunk src j)
    → mem j is ⊎ (chunk (written dst now i (chunk src i)) j ≡ chunk src j)
carried src dst st i is now s j h m = elim (ℕ_discrete j i) [
  | yes p ↦
      inr (subst (λ k. chunk (written dst now i (chunk src i)) k ≡ chunk src k) (sym p) s.here)
  | no p ↦ elim m [ inl x ↦ inl (ground arith) | inr x ↦ inr (s.elsewhere j p h ∙ x) ]
]

copy_chunks-Copied :
    (now : ℕ) (src dst : FileChunk) (ss st : FileInfo) (is : List ℕ)
    → IsCut src ss
    → IsCut dst st
    → st.size ≡ ss.size
    → All (λ i. i < count st) is
    → (g : FileChunk) × (copy_chunks now src is dst ≡ ok g) × Copied src dst g st is
unfolding copy_chunks
copy_chunks-Copied now src dst ss st [] cs cd e a =
    (dst, refl, record { cut = cd; copied = λ j h m. elim m [ inl x ↦ cc | inr x ↦ x ] })
copy_chunks-Copied now src dst ss st (i ∷ is) cs cd e a =
    let e1 = read_chunk-slice src ss i chunk_size cs (omega arith) (omega arith) in
    let full : length (chunk src i) ≡ want st i =
      omega (arith, length-slice (i * chunk_size) chunk_size src.file.content) in
    let e2 = save-splice dst st now i (chunk src i) cd a.0 full in
    let s = save-IsSaved dst (written dst now i (chunk src i)) st now i (chunk src i) cd e2 in
    let (g, run, rest) =
      copy_chunks-Copied now src (written dst now i (chunk src i)) ss st is cs s.still_cut e a.1 in
    (
      g,
      rw (e1, e2) run,
      record {
        cut = rest.cut;
        copied = λ j h m. rest.copied j h (carried src dst st i is now s j h m);
      },
    )

-- If two open files have the size that was recorded, and it is the same, then reading each chunk of
-- one and saving it into the other succeeds, every chunk at least once and in any order, and makes
-- the second file equal to the first.
pub copy_chunks-content :
    (now : ℕ) (src dst : FileChunk) (ss st : FileInfo) (is : List ℕ)
    → IsCut src ss
    → IsCut dst st
    → st.size ≡ ss.size
    → All (λ i. i < count st) is
    → ((i : ℕ) → i < count st → mem i is)
    → (g : FileChunk) × (copy_chunks now src is dst ≡ ok g) × (g.file.content ≡ src.file.content)
copy_chunks-content now src dst ss st is cs cd e a every =
    let (g, run, c) = copy_chunks-Copied now src dst ss st is cs cd e a in
    (
      g,
      run,
      eq_of_slices (count st) chunk_size g.file.content src.file.content
          (omega (arith, c.cut.whole)) (omega arith) (λ i h. c.copied i h (inl (every i h))),
    )
