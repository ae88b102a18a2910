-- ===== src/Examples/Files.antt =====
-- Chunks of a short file.
use go_silver_core.Prelude.{◌≡◌, refl, arith, [], ◌∷◌}
use go_silver_core.Prelude.Int.{pos}
use go_silver_core.Chunk.{FileChunk, new_file_chunk, ok, read_chunk, chunk_size}
use go_silver_core.Chunk.Bounds.{IsCut, written, save-splice, read_chunk-save}
use go_silver_core.Chunk.Rebuild.{copy_chunks, copy_chunks-content}
use go_silver_core.Examples.{three_bytes, three_zeros, three_info}

source_IsCut : IsCut (new_file_chunk three_bytes) three_info
unfolding new_file_chunk
source_IsCut = record {
  unit = refl;
  recorded = refl;
  whole = refl;
  fits = omega arith;
  opened = refl;
}

target_IsCut : IsCut (new_file_chunk three_zeros) three_info
unfolding new_file_chunk
target_IsCut = record {
  unit = refl;
  recorded = refl;
  whole = refl;
  fits = omega arith;
  opened = refl;
}

abbrev saved_file : FileChunk
saved_file = written (new_file_chunk three_zeros) 9 0 (4 ∷ 5 ∷ 6 ∷ [])

read_chunk-save_example : read_chunk saved_file (pos 0) chunk_size ≡ ok (4 ∷ 5 ∷ 6 ∷ [])
read_chunk-save_example =
    read_chunk-save (new_file_chunk three_zeros) saved_file three_info 9 0 0 (4 ∷ 5 ∷ 6 ∷ [])
      target_IsCut
      (save-splice (new_file_chunk three_zeros) three_info 9 0 (4 ∷ 5 ∷ 6 ∷ []) target_IsCut
        (omega arith) (omega arith))
      (omega arith)

copy_chunks-content_example :
    (g : FileChunk) × (copy_chunks 9
        (new_file_chunk three_bytes)
        (0 ∷ [])
        (new_file_chunk three_zeros)
      ≡ ok g)
    × (g.file.content ≡ 1 ∷ 2 ∷ 3 ∷ [])
unfolding new_file_chunk
copy_chunks-content_example =
    copy_chunks-content 9 (new_file_chunk three_bytes) (new_file_chunk three_zeros) three_info
      three_info (0 ∷ []) source_IsCut target_IsCut refl (omega arith, tt) (λ i h. ground arith)
