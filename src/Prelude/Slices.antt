-- ===== src/Prelude/Slices.antt =====
-- A file's bytes as a list: the slice that `ReadAt` returns and the overwriting that `WriteAt` does.
use Prim.Native.Nat.{ℕ, zero, suc, ◌+◌, ◌-◌, ◌*◌, min, ◌≤◌, ◌<◌}
use mathlib.Core.Path.{◌≡◌, refl, sym, ap, ◌∙◌}
use mathlib.Core.List.{List, [], ◌∷◌, ◌++◌}
use native.Mathlib.Omega.{arith}
use go_silver_core.Prelude.Lists.{
  length, take, drop, take-append-drop, length-drop, take-append_length, length-take,
  take_of_length-le,
}

unfoldable pub slice : ℕ → ℕ → List ℕ → List ℕ
slice off n xs = take n (drop off xs)

-- Write `d` at `off`; a gap behind the old end is filled with zeros.
unfoldable pub splice : ℕ → List ℕ → List ℕ → List ℕ
splice zero d xs = d ++ drop (length d) xs
splice (suc off) d [] = 0 ∷ splice off d []
splice (suc off) d (x ∷ xs) = x ∷ splice off d xs

pub slice-splice_self : (off : ℕ) (d xs : List ℕ) → slice off (length d) (splice off d xs) ≡ d
unfolding slice splice
slice-splice_self zero d xs = take-append_length d (drop (length d) xs)
slice-splice_self (suc off) d [] = slice-splice_self off d []
slice-splice_self (suc off) d (x ∷ xs) = slice-splice_self off d xs

-- A slice in front of the write is left alone.
pub slice-splice_before :
    (o n off : ℕ) (d xs : List ℕ)
    → o + n ≤ off
    → o + n ≤ length xs
    → slice o n (splice off d xs) ≡ slice o n xs
unfolding slice splice
slice-splice_before zero zero off d xs h k = refl
slice-splice_before zero (suc n) zero d xs h k = absurd (omega arith)
slice-splice_before zero (suc n) (suc off) d [] h k = absurd (omega arith)
slice-splice_before zero (suc n) (suc off) d (x ∷ xs) h k =
    ap (◌∷◌ x) (slice-splice_before zero n off d xs (omega arith) (omega arith))
slice-splice_before (suc o) n zero d xs h k = absurd (omega arith)
slice-splice_before (suc o) n (suc off) d [] h k = absurd (omega arith)
slice-splice_before (suc o) n (suc off) d (x ∷ xs) h k =
    slice-splice_before o n off d xs (omega arith) (omega arith)

drop-append_le :
    (o : ℕ) (d xs : List ℕ) → length d ≤ o → drop o (d ++ drop (length d) xs) ≡ drop o xs
drop-append_le o [] xs h = refl
drop-append_le zero (a ∷ d) xs h = absurd (omega arith)
drop-append_le (suc o) (a ∷ d) [] h = drop-append_le_nil o d (omega arith)
  where
    drop-append_le_nil : (o : ℕ) (d : List ℕ) → length d ≤ o → drop o (d ++ []) ≡ []
    drop-append_le_nil zero [] h = refl
    drop-append_le_nil (suc o) [] h = refl
    drop-append_le_nil zero (a ∷ d) h = absurd (omega arith)
    drop-append_le_nil (suc o) (a ∷ d) h = drop-append_le_nil o d (omega arith)
drop-append_le (suc o) (a ∷ d) (x ∷ xs) h = drop-append_le o d xs (omega arith)

-- So is what stands behind it.
drop-splice_after :
    (o off : ℕ) (d xs : List ℕ) → off + length d ≤ o → drop o (splice off d xs) ≡ drop o xs
unfolding splice
drop-splice_after o zero d xs h = drop-append_le o d xs (omega arith)
drop-splice_after zero (suc off) d xs h = absurd (omega arith)
drop-splice_after (suc zero) (suc off) d [] h = drop-splice_after zero off d [] (omega arith)
drop-splice_after (suc (suc o)) (suc off) d [] h = drop-splice_after (suc o) off d [] (omega arith)
drop-splice_after (suc o) (suc off) d (x ∷ xs) h = drop-splice_after o off d xs (omega arith)

pub length-splice :
    (off : ℕ) (d xs : List ℕ) → off + length d ≤ length xs → length (splice off d xs) ≡ length xs
unfolding splice
length-splice zero [] xs h = refl
length-splice zero (a ∷ d) [] h = absurd (omega arith)
length-splice zero (a ∷ d) (x ∷ xs) h =
    ap suc (unfold splice in length-splice zero d xs (omega arith))
length-splice (suc off) d [] h = absurd (omega arith)
length-splice (suc off) d (x ∷ xs) h = ap suc (length-splice off d xs (omega arith))

drop-nil : (n : ℕ) → drop {A = ℕ} n [] ≡ []
drop-nil zero = refl
drop-nil (suc n) = refl

-- A slice that starts inside the text and is cut at its end is the same slice.
pub slice_cut :
    (off c : ℕ) (xs : List ℕ)
    → length xs < off + c
    → slice off (length xs - off) xs ≡ slice off c xs
unfolding slice
slice_cut off c xs h =
    take_of_length-le (length xs - off) (drop off xs) (omega (arith, length-drop off xs))
    ∙ sym (take_of_length-le c (drop off xs) (omega (arith, length-drop off xs)))

pub length-slice : (off n : ℕ) (xs : List ℕ) → length (slice off n xs) ≡ min n (length xs - off)
unfolding slice
length-slice off n xs = omega (arith, length-take n (drop off xs), length-drop off xs)

pub slice-splice_after :
    (o n off : ℕ) (d xs : List ℕ) → off + length d ≤ o → slice o n (splice off d xs) ≡ slice o n xs
unfolding slice
slice-splice_after o n off d xs h = ap (take n) (drop-splice_after o off d xs h)

pub drop-add : (a b : ℕ) (xs : List ℕ) → drop (a + b) xs ≡ drop b (drop a xs)
drop-add zero b xs = ap (λ k. drop k xs) (omega arith)
drop-add (suc a) b [] = drop-nil (suc a + b) ∙ sym (drop-nil b)
drop-add (suc a) b (x ∷ xs) = ap (λ k. drop k (x ∷ xs)) e ∙ drop-add a b xs
  where
    e : suc a + b ≡ suc (a + b)
    e = omega arith

-- The slice at `suc i` is that at `i` of what stands behind the first `c` bytes.
slice-suc : (c i : ℕ) (xs : List ℕ) → slice (suc i * c) c xs ≡ slice (i * c) c (drop c xs)
unfolding slice
slice-suc c i xs = ap (take c) (ap (λ k. drop k xs) e ∙ drop-add c (i * c) xs)
  where
    e : suc i * c ≡ c + i * c
    e = omega arith

slice_first : (c : ℕ) (xs : List ℕ) → slice (0 * c) c xs ≡ take c xs
unfolding slice
slice_first c xs = let e : 0 * c ≡ 0 = omega arith in ap (λ k. slice k c xs) e

-- Two texts of at most `n * c` bytes that agree in each of the `n` slices of `c` bytes are equal.
pub eq_of_slices :
    (n c : ℕ) (xs ys : List ℕ)
    → length xs ≤ n * c
    → length ys ≤ n * c
    → ((i : ℕ) → i < n → slice (i * c) c xs ≡ slice (i * c) c ys)
    → xs ≡ ys
eq_of_slices zero c [] [] hx hy h = refl
eq_of_slices zero c [] (y ∷ ys) hx hy h = absurd (omega arith)
eq_of_slices zero c (x ∷ xs) ys hx hy h = absurd (omega arith)
eq_of_slices (suc n) c xs ys hx hy h =
    sym (take-append-drop c xs)
    ∙ cc (
      sym (slice_first c xs) ∙ h 0 (omega arith) ∙ slice_first c ys,
      eq_of_slices n c (drop c xs) (drop c ys) (omega (arith, length-drop c xs))
          (omega (arith, length-drop c ys))
          (λ i hi. sym (slice-suc c i xs) ∙ h (suc i) (omega arith) ∙ slice-suc c i ys),
    )
    ∙ take-append-drop c ys
