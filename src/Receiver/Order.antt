-- ===== src/Receiver/Order.antt =====
-- internal/receiver/download.go: the feeding loop sends every chunk exactly once.
use native.Mathlib.Nat.{mod-eq-sub-mod, mod-add-mod, add-mod-mod, mod-lt, mod-eq_of_lt}
use go_silver_core.Prelude.{
  ℕ, zero, suc, ◌+◌, ◌-◌, ◌*◌, ◌%◌, ◌≤◌, ◌<◌, ◌≡◌, refl, sym, ap, subst, ◌∙◌, max, arith,
  Bool-cases, inl, inr, ◌==◌, if◌then◌else◌, List, [], ◌∷◌, All, length, dec_lt, ℕ_discrete,
}
use go_silver_core.Receiver.{times, without, gcd, find_step, visit, feed_order}
use go_silver_core.Receiver.Gcd.{gauss, step_loop-gcd}

pub length-without : (j : ℕ) (is : List ℕ) → length is ≤ length (without j is) + times j is
length-without j [] = omega arith
length-without j (i ∷ is) = ground (arith, length-without j is)

times-without : (j k : ℕ) (is : List ℕ) → times k (without j is) ≤ times k is
times-without j k [] = omega arith
times-without j k (i ∷ is) = ground (arith, times-without j k is)

times-without_self :
    (j : ℕ) (is : List ℕ)
    → times j (without j is) + 1 ≤ times j is + (if times j is == 0 then 1 else 0)
times-without_self j [] = ground arith
times-without_self j (i ∷ is) = ground (arith, times-without_self j is)

All-without : (j n : ℕ) (is : List ℕ) → All (λ i. i < n) is → All (λ i. i < n) (without j is)
All-without j n [] a = tt
All-without j n (i ∷ is) a = ground (arith, All-without j n is a.1)

-- Where the largest does not occur, the bound goes down.
lower : (n : ℕ) (is : List ℕ) → All (λ i. i < suc n) is → times n is ≡ 0 → All (λ i. i < n) is
lower n [] a h = tt
lower n (i ∷ is) a h = ground (arith, lower n is a.1)

-- Distinct numbers below n are at most n.
pub pigeons :
    (n : ℕ) (is : List ℕ) → All (λ i. i < n) is → ((j : ℕ) → times j is ≤ 1) → length is ≤ n
pigeons zero [] a d = omega arith
pigeons zero (i ∷ is) a d = absurd (omega (arith, a.0))
pigeons (suc n) is a d =
    let h =
      pigeons n (without n is)
        (lower n (without n is) (All-without n (suc n) is a)
          (ground (arith, times-without_self n is, d n)))
        (λ j. omega (arith, times-without n j is, d j)) in
    omega (arith, h, length-without n is, d n)

-- Distinct numbers below n that are n in number are all of them.
complete_list :
    (n : ℕ) (is : List ℕ)
    → All (λ i. i < n) is
    → ((j : ℕ) → times j is ≤ 1)
    → length is ≡ n
    → (j : ℕ) → j < n
    → times j is ≡ 1
complete_list n is a d e j h = elim (Bool-cases (times j is == 0)) [
  | inr p ↦ ground (arith, d j)
  | inl z ↦
      let p = pigeons n (j ∷ is) (h, a) (λ k. ground (arith, d k)) in absurd (omega (arith, p, e))
]

length-visit : (count step left i : ℕ) → length (visit count step left i) ≡ left
length-visit count step zero i = refl
length-visit count step (suc left) i = ap suc (length-visit count step left _)

max_one : (count : ℕ) → 1 ≤ count → max 1 count ≡ count
max_one count h = omega arith

All-visit : (count step left i : ℕ) → i < count → All (λ j. j < count) (visit count step left i)
All-visit count step zero i h = tt
All-visit count step (suc left) i h = (
  h,
  All-visit count step left _ (
      subst (λ c. (i + step) % c < count) (sym (max_one count (omega arith)))
        (mod-lt (i + step) {m = count} (omega arith))),
)

-- What stands in the order, by how many steps it comes later.
occurs :
    (count step left i j : ℕ)
    → i < count
    → 1 ≤ times j (visit count step left i)
    → (k : ℕ) × (k < left) × (j ≡ (i + k * step) % count)
occurs count step zero i j b h = absurd (omega arith)
occurs count step (suc left) i j b h = elim (ℕ_discrete j i) [
  | yes e ↦ (0, omega arith, e ∙ sym (mod-eq_of_lt b) ∙ ap (◌% count) (omega arith))
  | no e ↦
      let m = max_one count (omega arith) in
      let b' : (i + step) % max 1 count < count =
        subst (λ c. (i + step) % c < count) (sym m) (mod-lt (i + step) {m = count} (omega arith)) in
      let (k, lt, e') = occurs count step left ((i + step) % max 1 count) j b' (ground arith) in
      (
        suc k,
        omega arith,
        e'
            ∙ ap (λ c. ((i + step) % c + k * step) % count) m
            ∙ mod-add-mod (i + step) count (k * step)
            ∙ ap (◌% count) (grind arith),
      )
]

wraps : (i x count : ℕ) → i < count → i ≡ (i + x) % count → x % count ≡ 0
wraps i x count b h =
    let r : x % count < count = mod-lt x {m = count} (omega arith) in
    let e : i ≡ (i + x % count) % count = h ∙ sym (add-mod-mod i x count) in
    elim (dec_lt (i + x % count) count) [
      | yes lt ↦ omega (arith, e ∙ mod-eq_of_lt lt)
      | no ge ↦ absurd (
          omega (
            arith,
            r,
            e
                ∙ mod-eq-sub-mod {n = i + x % count} {m = count} (omega arith)
                ∙ mod-eq_of_lt (omega arith),
          ))
    ]

pub times-le-length : (j : ℕ) (is : List ℕ) → times j is ≤ length is
times-le-length j [] = omega arith
times-le-length j (i ∷ is) = ground (arith, times-le-length j is)

visit_inside : (count step i : ℕ) → i < count → (i + step) % max 1 count < count
visit_inside count step i b =
    subst (λ c. (i + step) % c < count) (sym (max_one count (omega arith)))
      (mod-lt (i + step) {m = count} (omega arith))

visit-distinct :
    (count step left i j : ℕ)
    → gcd step count ≡ 1
    → i < count
    → left ≤ count
    → times j (visit count step left i) ≤ 1
visit-distinct count step zero i j g b l = omega arith
visit-distinct count step (suc left) i j g b l = elim (ℕ_discrete j i) [
  | no e ↦ ground (
    arith,
    visit-distinct count step left ((i + step) % max 1 count) j g (visit_inside count step i b)
        (omega arith),
  )
  | yes e ↦ elim (Bool-cases (times j (visit count step left ((i + step) % max 1 count)) == 0)) [
    | inl z ↦ ground arith
    | inr p ↦
        let (k, lt, e') =
          occurs count step left ((i + step) % max 1 count) j (visit_inside count step i b)
            (ground arith) in
        let h : i ≡ (i + suc k * step) % count =
          sym e
          ∙ e'
          ∙ ap (λ c. ((i + step) % c + k * step) % count) m
          ∙ mod-add-mod (i + step) count (k * step)
          ∙ ap (◌% count) (grind arith) in
        let z = gauss step count (suc k) g (wraps i (suc k * step) count b h) in
        absurd (omega (arith, sym (mod-eq_of_lt {n = suc k} {m = count} (omega arith)) ∙ z))
  ]
]
  where
    m : max 1 count ≡ count
    m = max_one count (omega arith)

find_step-gcd :
    (count random : ℕ) → 2 ≤ count → random < count - 1 → gcd (find_step count random) count ≡ 1
unfolding find_step
find_step-gcd count random c r = ground (arith, step_loop-gcd count count (random + 1) c)

-- The order in which the feeding loop sends the chunks names each chunk of the file exactly once,
-- and nothing else, for every random start and step in their ranges.
pub feed_order-once :
    (count start random j : ℕ)
    → start < count
    → (2 ≤ count → random < count - 1)
    → j < count
    → (length (feed_order count start random) ≡ count)
      × All (λ j. j < count) (feed_order count start random)
      × (times j (feed_order count start random) ≡ 1)
unfolding feed_order
feed_order-once count start random j h r b =
    let step = find_step count random in
    let bound = All-visit count step count start h in
    let size = length-visit count step count start in
    (size, bound, complete_list count (visit count step count start) bound distinct size j b)
  where
    distinct : (j : ℕ) → times j (visit count (find_step count random) count start) ≤ 1
    distinct j = elim (dec_lt 1 count) [
      | yes two ↦
          visit-distinct count (find_step count random) count start j
            (find_step-gcd count random two (r two)) h (omega arith)
      | no one ↦ omega (
        arith,
        times-le-length j (visit count (find_step count random) count start),
        length-visit count (find_step count random) count start,
      )
    ]
