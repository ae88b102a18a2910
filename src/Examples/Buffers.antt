-- ===== src/Examples/Buffers.antt =====
-- A pool of buffers from which one is borrowed.
use go_silver_core.Prelude.{◌+◌, ◌≤◌, [], ◌∷◌, length}
use go_silver_core.Prelude.Int.{pos, int_dec}
use go_silver_core.MemPool.{new_mem_pool, get_buffer}
use go_silver_core.MemPool.Sharing.{Lending, Run, here, step, gets, held, Run-one_place}

abbrev one_lent : Lending
one_lent = record {
  pool = record { size = pos 4; ch = []; fresh = 1 };
  lent = record { id = 0; capacity = 4; len = 4 } ∷ [];
}

to_one_lent : Run (record { pool = new_mem_pool (pos 4); lent = [] }) one_lent
unfolding new_mem_pool get_buffer int_dec
to_one_lent =
    step _ one_lent _ (gets (record { pool = new_mem_pool (pos 4); lent = [] }) (pos 4))
      (here one_lent)

Run-one_place_example :
    (held 0 one_lent.pool.ch + held 0 one_lent.lent ≤ 1) × (length one_lent.pool.ch ≤ 16)
Run-one_place_example = Run-one_place (pos 4) one_lent 0 to_one_lent
