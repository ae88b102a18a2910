-- ===== src/Receiver/Gcd.antt =====
-- internal/receiver/download.go: the step that is found has no common factor with the count.
use native.Mathlib.Nat.{
  mul-mod_right, add-mod, mod-mod, mod-lt, mod-eq_of_lt, mod_self, mod-one, div-add-mod, mul_assoc,
  mul_comm, mul-add,
}
use go_silver_core.Prelude.{
  ℕ, zero, suc, ◌+◌, ◌-◌, ◌*◌, ◌/◌, ◌%◌, ◌≤◌, ◌<◌, ◌≡◌, refl, sym, ap, ◌∙◌, arith, Bool-cases, inl,
  inr, ◌==◌, false, dec_lt,
}
use go_silver_core.Receiver.{gcd_loop, gcd, step_loop}

-- `m` divides `x` is written as x % m ≡ 0.
divides-mul : (m x t : ℕ) → x % m ≡ 0 → x * t % m ≡ 0
divides-mul m x t h =
    ap (λ v. v * t % m) (sym (div-add-mod x m) ∙ ap (m * (x / m) +◌) h ∙ omega arith)
    ∙ ap (◌% m) (mul_assoc m (x / m) t)
    ∙ mul-mod_right m (x / m * t)

divides-add : (m x y : ℕ) → x % m ≡ 0 → (x + y) % m ≡ 0 → y % m ≡ 0
divides-add m x y hx h =
    sym (mod-mod y m)
    ∙ ap (◌% m) (omega arith)
    ∙ ap (λ v. (v + y % m) % m) (sym hx)
    ∙ sym (add-mod x y m)
    ∙ h

-- A number that divides k * a and k * b divides k times what the loop returns.
divides-loop :
    (fuel a b k m : ℕ) → b < fuel → k * a % m ≡ 0 → k * b % m ≡ 0 → k * gcd_loop fuel a b % m ≡ 0
divides-loop zero a b k m f ha hb = ha
divides-loop (suc fuel) a b k m f ha hb = elim (Bool-cases (b == 0)) [
  | inl z ↦ rw z ha
  | inr p ↦ rw p (
      divides-loop fuel b (a % b) k m (omega (arith, mod-lt a {m = b} (ground (arith, p)))) hb (
        divides-add m (k * b * (a / b)) (k * (a % b)) (divides-mul m (k * b) (a / b) hb)
          (ap (◌% m) (sym (split)) ∙ ha)))
]
  where
    split : k * a ≡ k * b * (a / b) + k * (a % b)
    split =
        ap (k *◌) (sym (div-add-mod a b))
        ∙ mul-add k (b * (a / b)) (a % b)
        ∙ ap (◌+ k * (a % b)) (sym (mul_assoc k b (a / b)))

-- Gauss: a factor of k * a that has none in common with `a` is one of `k`.
pub gauss : (a m k : ℕ) → gcd a m ≡ 1 → k * a % m ≡ 0 → k % m ≡ 0
unfolding gcd
gauss a m k g h =
    ap (λ v. v % m) (omega arith)
    ∙ ap (λ v. k * v % m) (sym g)
    ∙ divides-loop (suc m) a m k m (omega arith) h (ap (◌% m) (mul_comm k m) ∙ mul-mod_right m k)

loop_one : (fuel c : ℕ) → gcd_loop (suc fuel) c 1 ≡ 1
loop_one zero c = refl
loop_one (suc fuel) c = ground (arith, mod-one c)

gcd_one : (count : ℕ) → 2 ≤ count → gcd 1 count ≡ 1
unfolding gcd
gcd_one (suc count) h =
    let e : (suc count == 0) ≡ false = ground arith in
    rw (gcd, e)
      (ap (gcd_loop (suc count) (suc count)) (mod-eq_of_lt (omega arith))
        ∙ loop_one count (suc count))
gcd_one zero h = absurd (omega arith)

step_loop_one : (fuel count : ℕ) → 2 ≤ count → step_loop (suc fuel) count 1 ≡ 1
step_loop_one fuel count h = rw (gcd_one count h) refl

next : (step count : ℕ) → step + 1 < count → step % (count - 1) + 1 ≡ step + 1
next step count h = ap (◌+ 1) (mod-eq_of_lt (omega arith))

back : (step count : ℕ) → step + 1 ≡ count → step % (count - 1) + 1 ≡ 1
back step count h = ap (λ v. step % v + 1) (omega arith) ∙ ap (◌+ 1) (mod_self step)

last_one : (fuel count : ℕ) → 2 ≤ count → 1 ≤ fuel → gcd (step_loop fuel count 1) count ≡ 1
last_one zero count c h = absurd (omega arith)
last_one (suc fuel) count c h = ap (λ v. gcd v count) (step_loop_one fuel count c) ∙ gcd_one count c

-- From any step in range the loop meets 1 before its fuel runs out.
pub step_loop-gcd :
    (fuel count step : ℕ)
    → 2 ≤ count
    → 1 ≤ step
    → step < count
    → count - step < fuel
    → gcd (step_loop fuel count step) count ≡ 1
step_loop-gcd zero count step c l u f = absurd (omega arith)
step_loop-gcd (suc fuel) count step c l u f = elim (Bool-cases (gcd step count == 1)) [
  | inl g ↦ rw g (ground (arith, g))
  | inr g ↦ rw g (elim (dec_lt (step + 1) count) [
    | yes more ↦
        rw (next step count more)
          (step_loop-gcd fuel count (step + 1) c (omega arith) more (omega arith))
    | no last ↦ rw (back step count (omega arith)) (last_one fuel count (omega arith) (omega arith))
  ])
]
