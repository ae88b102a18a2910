-- ===== src/MemPool/Sharing.antt =====
-- pkg/mempool/mempool.go: two borrowers never have the same buffer.
use go_silver_core.Prelude.Int.{ℤ, pos, int_dec, pos_part}
use go_silver_core.Prelude.{
  ℕ, ◌+◌, ◌≤◌, ◌≡◌, refl, ap, true, false, not, List, [], ◌∷◌, ◌++◌, length, length-append,
  if◌then◌else◌, ltb, ◌==◌, ite, arith, Bool-cases, inl, inr,
}
use go_silver_core.MemPool.{Buffer, MemPool, new_mem_pool, get_buffer, put_buffer, cached, make}

-- How often a buffer is in a list, and the list without it.
abbrev pub held : ℕ → List Buffer → ℕ
held i [] = 0
held i (b ∷ bs) = (if b.id == i then 1 else 0) + held i bs

abbrev pub given : ℕ → List Buffer → List Buffer
given i [] = []
given i (b ∷ bs) = let rest = given i bs in if b.id == i then bs else b ∷ rest

pub record Lending : Type 0 where
  pub pool : MemPool
  pub lent : List Buffer

-- A borrower takes a buffer, or gives back one that it has.
pub data Step : Lending → Lending → Type 0 where
  gets :
      (l : Lending) (n : ℤ)
      → Step l (record { pool = (get_buffer n l.pool).1; lent = (get_buffer n l.pool).0 ∷ l.lent })
  puts :
      (l : Lending) (b : Buffer)
      → 1 ≤ held b.id l.lent
      → Step l (record { pool = put_buffer b l.pool; lent = given b.id l.lent })

pub data Run : Lending → Lending → Type 0 where
  here : (l : Lending) → Run l l
  step : (l m n : Lending) → Step l m → Run m n → Run l n

pub record Inv (l : Lending) : Type 0 where
  pub one_place : (i : ℕ) → held i l.pool.ch + held i l.lent ≤ (if ltb i l.pool.fresh then 1 else 0)
  pub few : length l.pool.ch ≤ 16

held-append : (i : ℕ) (xs ys : List Buffer) → held i (xs ++ ys) ≡ held i xs + held i ys
held-append i [] ys = omega arith
held-append i (b ∷ xs) ys = omega (arith, held-append i xs ys)

held-given :
    (i j : ℕ) (bs : List Buffer)
    → 1 ≤ held i bs
    → held j (given i bs) + (if i == j then 1 else 0) ≡ held j bs
held-given i j [] h = absurd (omega arith)
held-given i j (b ∷ bs) h = ground (arith, held-given i j bs)

make-Inv :
    (n : ℕ) (l : Lending)
    → Inv l
    → Inv (record { pool = (make n l.pool).1; lent = (make n l.pool).0 ∷ l.lent })
make-Inv n l v = record { one_place = λ i. ground (arith, v.one_place i); few = v.few }

cached-Inv :
    (n : ℕ) (p : MemPool) (ch lent : List Buffer)
    → p.ch ≡ ch
    → Inv (record { pool = p; lent = lent })
    → Inv (record { pool = (cached n p ch).1; lent = (cached n p ch).0 ∷ lent })
cached-Inv n p [] lent e v = make-Inv n (record { pool = p; lent = lent }) v
cached-Inv n p (b ∷ bs) lent e v = record {
  one_place = λ i. ground (arith, v.one_place i, ap (held i) e);
  few = omega (arith, v.few, ap length e);
}

get_buffer-Inv :
    (n : ℤ) (l : Lending)
    → Inv l
    → Inv (record { pool = (get_buffer n l.pool).1; lent = (get_buffer n l.pool).0 ∷ l.lent })
unfolding get_buffer
get_buffer-Inv n l v = elim (Bool-cases (ite (int_dec (pos (pos_part n)) l.pool.size) true false)) [
  | inl same ↦ rw (same, get_buffer) (cached-Inv (pos_part n) l.pool l.pool.ch l.lent refl v)
  | inr other ↦ rw (other, get_buffer) (make-Inv (pos_part n) l v)
]

put_buffer-Inv :
    (b : Buffer) (l : Lending)
    → 1 ≤ held b.id l.lent
    → Inv l
    → Inv (record { pool = put_buffer b l.pool; lent = given b.id l.lent })
unfolding put_buffer
put_buffer-Inv b l h v =
    elim (Bool-cases (not (ite (int_dec (pos b.capacity) l.pool.size) true false))) [
      | inl other ↦ rw (other, put_buffer) dropped
      | inr same ↦
          rw (same, put_buffer)
            (elim (Bool-cases (ltb (length l.pool.ch) 16)) [
              | inr full ↦ rw full dropped
              | inl room ↦ rw room (record {
                one_place = λ i. ground (
                  arith,
                  v.one_place i,
                  held-given b.id i l.lent h,
                  held-append i l.pool.ch (record b { len = b.capacity } ∷ []),
                );
                few =
                    ground
                      (arith, room, length-append l.pool.ch (record b { len = b.capacity } ∷ []));
              })
            ])
    ]
  where
    dropped : Inv (record { pool = l.pool; lent = given b.id l.lent })
    dropped = record {
      one_place = λ i. omega (arith, v.one_place i, held-given b.id i l.lent h);
      few = v.few;
    }

Step-Inv : (l m : Lending) → Step l m → Inv l → Inv m
Step-Inv l _ (gets _ n) v = get_buffer-Inv n l v
Step-Inv l _ (puts _ b h) v = put_buffer-Inv b l h v

Run-Inv : (l m : Lending) → Run l m → Inv l → Inv m
Run-Inv l _ (here _) v = v
Run-Inv l n (step _ m _ x r) v = Run-Inv m n r (Step-Inv l m x v)

-- From a new pool on, however borrowers take buffers and give back what they have, no buffer is with
-- two of them, none that is in the pool is with a borrower, and the pool keeps 16 at most.
pub Run-one_place :
    (size : ℤ) (l : Lending) (i : ℕ)
    → Run (record { pool = new_mem_pool size; lent = [] }) l
    → (held i l.pool.ch + held i l.lent ≤ 1) × (length l.pool.ch ≤ 16)
unfolding new_mem_pool
Run-one_place size l i r =
    let v = Run-Inv _ l r (record { one_place = λ j. ground arith; few = omega arith }) in
    (ground (arith, v.one_place i), v.few)
