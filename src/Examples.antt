-- ===== src/Examples.antt =====
-- Concrete inputs on which the theorems are applied.
mod Frames
mod Files
mod Pools
mod Sessions
mod Clients
mod Connections
mod Buffers
mod Listeners
mod Downloads
mod Agents
mod Webs
mod Requests
mod Archives
mod Uploads
use go_silver_core.Prelude.Int.{ℤ, pos, pos_part}
use go_silver_core.Prelude.{
  ℕ, ◌+◌, ◌*◌, ◌/◌, ◌≡◌, refl, Bool, true, false, Option, none, some, List, [], ◌∷◌, Str, codes,
  ltb, leb, ◌==◌,
}
use go_silver_core.Chunk.{OsFile, FileChunk, FileInfo, new_file_chunk, chunk_size}
use go_silver_core.Server.{Floats}

-- Whole numbers in the place of float64.
abbrev pub nat_floats : Floats ℕ
nat_floats = record {
  lit = λ m e. m;
  of_int = pos_part;
  seconds = λ d. d / 1000000000;
  add = λ a b. a + b;
  mul = λ a b. a * b;
  div = λ a b. a / b;
  pow_half = λ a. 1;
  lt = ltb;
  le = leb;
  eq = ◌==◌;
}

abbrev pub file_of : List ℕ → OsFile
file_of bytes = record {
  name = codes "f.bin";
  content = bytes;
  mod_time = 7;
  ident = 3;
  open_fd = true;
}

abbrev pub three_bytes : OsFile
three_bytes = file_of (1 ∷ 2 ∷ 3 ∷ [])

abbrev pub three_zeros : OsFile
three_zeros = file_of (0 ∷ 0 ∷ 0 ∷ [])

abbrev pub three_info : FileInfo
three_info = record { name = codes "f.bin"; size = 3; mod_time = 7; ident = 3 }
