-- ===== src/MemPool.antt =====
-- pkg/mempool/mempool.go: the pool of buffers. A buffer is known by a number; its bytes are left out.
pub mod Sharing
use go_silver_core.Prelude.Int.{ℤ, pos, int_dec, pos_part}
use go_silver_core.Prelude.{
  ℕ, suc, ◌+◌, ◌≤◌, ◌≡◌, Bool, true, false, not, List, [], ◌∷◌, ◌++◌, length, if◌then◌else◌, ltb,
  ◌==◌, ite,
}

pub record Buffer : Type 0 where
  pub id : ℕ
  pub capacity : ℕ
  pub len : ℕ

-- `ch` is a channel of capacity 16; `fresh` is the number of the next new buffer.
pub record MemPool : Type 0 where
  pub size : ℤ
  pub ch : List Buffer
  pub fresh : ℕ

unfoldable pub new_mem_pool : ℤ → MemPool
new_mem_pool size = record { size = size; ch = []; fresh = 0 }

abbrev pub make : ℕ → MemPool → Buffer × MemPool
make n m = (record { id = m.fresh; capacity = n; len = n }, record m { fresh = m.fresh + 1 })

-- A cached buffer is cut to the size that is asked for.
abbrev pub cached : ℕ → MemPool → List Buffer → Buffer × MemPool
cached n m [] = make n m
cached n m (b ∷ bs) = (record b { len = n }, record m { ch = bs })

-- `Get`; a negative size counts as 0.
unfoldable pub get_buffer : ℤ → MemPool → Buffer × MemPool
get_buffer size m =
    if ite (int_dec (pos (pos_part size)) m.size) true false
    then cached (pos_part size) m m.ch
    else make (pos_part size) m

-- `Put`: a buffer of another capacity is dropped, and so is one that finds the channel full.
unfoldable pub put_buffer : Buffer → MemPool → MemPool
put_buffer b m =
    if not (ite (int_dec (pos b.capacity) m.size) true false)
    then m
    else if ltb (length m.ch) 16
    then record m { ch = m.ch ++ record b { len = b.capacity } ∷ [] }
    else m
